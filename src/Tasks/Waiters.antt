-- ===== src/Tasks/Waiters.antt =====
-- Who is notified, and when.
use rpki_net.Prelude.{
  ℕ, suc, ◌<◌, ◌≤◌, ◌≡◌, refl, Bool, true, false, ◌||◌, ◌==◌, List, [], ◌∷◌, ◌++◌, All, All-map,
  arith, Option, none, some, if◌then◌else◌, Bool-cases, inl, inr, subst,
}
use rpki_net.Tasks.{Task, new_task, add_waiter, wait, begin, waiters, finish}

-- A task in the course of events, with the number of times that `main` has been called. One who waits
-- is told apart by that number at the time.
pub record World : Type 0 where
  pub task : Task
  pub calls : ℕ

-- What can happen: someone waits, the task is started, which the task loop does only with a task that
-- is not running, or `main` ends.
pub data Step : World → World → Type 0 where
  waits : (w : World) → Step w (record w { task = wait w.calls w.task })
  begins :
      (w : World)
      → w.task.started ≡ false
      → Step w (record { task = begin w.task; calls = suc w.calls })
  ends :
      (w : World)
      → (postponing : Bool) → w.task.started ≡ true
      → Step w (record w { task = (finish postponing w.task).0 })

pub data Reaches : World → World → Type 0 where
  here : (w : World) → Reaches w w
  then_step : (u v w : World) → Reaches u v → Step v w → Reaches u w

abbrev pub new_world : World
new_world = record { task = new_task; calls = 0 }

abbrev Before : ℕ → List ℕ → Type 0
Before n ws = All (λ w. w < n) ws

abbrev bound : Bool → ℕ → ℕ
bound started calls = if started then calls else suc calls

-- Those who wait on `done_this` have come before the call that is running.
abbrev IsTimely : World → Type 0
IsTimely w =
    Before (bound w.task.started w.calls) (waiters w.task.done_this)
    × Before (suc w.calls) (waiters w.task.done_next)

Before-later : (m n : ℕ) (ws : List ℕ) → m ≤ n → Before m ws → Before n ws
Before-later m n ws h b = All-map ws (λ w k. omega (arith, k, h)) b

Before-add_waiter :
    (n w : ℕ) (o : Option (List ℕ))
    → w < n
    → Before n (waiters o)
    → Before n (waiters (add_waiter w o))
Before-add_waiter n w none h b = (h, tt)
Before-add_waiter n w (some ws) h b = (h, b)

this_on :
    (w : World)
    → w.task.started ≡ true
    → Before (bound w.task.started w.calls) (waiters w.task.done_this)
    → Before w.calls (waiters w.task.done_this)
this_on w on b = subst (λ s. Before (bound s w.calls) (waiters w.task.done_this)) on b

this_off :
    (w : World)
    → w.task.started ≡ false
    → Before (bound w.task.started w.calls) (waiters w.task.done_this)
    → Before (suc w.calls) (waiters w.task.done_this)
this_off w off b = subst (λ s. Before (bound s w.calls) (waiters w.task.done_this)) off b

Step-IsTimely : (v w : World) → Step v w → IsTimely v → IsTimely w
unfolding wait begin finish
Step-IsTimely v w (waits u) t = elim (Bool-cases u.task.started) [
  | inl on ↦
      rw (on, wait)
        (
          this_on u on t.0,
          Before-add_waiter (suc u.calls) u.calls u.task.done_next (omega arith) t.1,
        )
  | inr off ↦
      rw (off, wait)
        (
          Before-add_waiter (suc u.calls) u.calls u.task.done_this (omega arith)
              (this_off u off t.0),
          t.1,
        )
]
Step-IsTimely v w (begins u off) t = (
  this_off u off t.0,
  Before-later (suc u.calls) (suc (suc u.calls)) (waiters u.task.done_next) (omega arith) t.1,
)
Step-IsTimely v w (ends u true on) t = (
  Before-later u.calls (suc u.calls) (waiters u.task.done_this) (omega arith) (this_on u on t.0),
  t.1,
)
Step-IsTimely v w (ends u false on) t = (t.1, tt)

Reaches-IsTimely : (u w : World) → Reaches u w → IsTimely u → IsTimely w
Reaches-IsTimely u w (here x) t = t
Reaches-IsTimely u w (then_step x v y r s) t = Step-IsTimely v y s (Reaches-IsTimely x v r t)

-- However a new task is waited for, started, and ended or postponed: those who are notified when a call
-- of `main` ends have begun to wait before that call began.
pub finish-timely :
    (w : World)
    → Reaches new_world w
    → w.task.started ≡ true
    → (postponing : Bool) → All (λ waiter. waiter < w.calls) (finish postponing w.task).1
unfolding finish
finish-timely w r on true = tt
finish-timely w r on false = this_on w on (Reaches-IsTimely new_world w r (tt, tt)).0

abbrev pub has : ℕ → List ℕ → Bool
has x [] = false
has x (w ∷ ws) = x == w || has x ws

-- Steps of which none ends a call of `main` but by postponing the task.
pub data Goes : World → World → Type 0 where
  stays : (w : World) → Goes w w
  someone_waits : (u w : World) → Goes u w → Goes u (record w { task = wait w.calls w.task })
  starts : (u w : World) → Goes u w → Goes u (record w { task = begin w.task; calls = suc w.calls })
  postpones : (u w : World) → Goes u w → Goes u (record w { task = (finish true w.task).0 })

has-add_waiter :
    (x w : ℕ) (o : Option (List ℕ))
    → has x (waiters o) ≡ true
    → has x (waiters (add_waiter w o)) ≡ true
has-add_waiter x w none h = cc
has-add_waiter x w (some ws) h = ground (arith, h)

Goes-has :
    (u w : World) (x : ℕ)
    → Goes u w
    → has x (waiters u.task.done_this) ≡ true
    → has x (waiters w.task.done_this) ≡ true
unfolding wait begin finish
Goes-has u w x (stays v) h = h
Goes-has u w x (someone_waits a b g) h = elim (Bool-cases b.task.started) [
  | inl on ↦ rw (on, wait) (Goes-has a b x g h)
  | inr off ↦ rw (off, wait) (has-add_waiter x b.calls b.task.done_this (Goes-has a b x g h))
]
Goes-has u w x (starts a b g) h = Goes-has a b x g h
Goes-has u w x (postpones a b g) h = Goes-has a b x g h

has-append : (x : ℕ) (vs ws : List ℕ) → has x (vs ++ ws) ≡ (has x vs || has x ws)
has-append x [] ws = refl
has-append x (v ∷ vs) ws = ground (arith, has-append x vs ws)

-- All who wait for a task when a call of `main` ends are notified then or when the next call has ended,
-- whoever else comes to wait in between, and however often that call is postponed.
pub finish-notifies :
    (v w : World)
    → Goes (record v { task = (finish false v.task).0 }) w
    → (x : ℕ) → has x (waiters v.task.done_this ++ waiters v.task.done_next) ≡ true
    → (has x (finish false v.task).1 || has x (finish false w.task).1) ≡ true
unfolding finish
finish-notifies v w g x h = elim (Bool-cases (has x (waiters v.task.done_this))) [
  | inl now ↦ ground (arith, now)
  | inr later ↦
      let next : has x (waiters v.task.done_next) ≡ true =
        ground
          (arith, h, later, has-append x (waiters v.task.done_this) (waiters v.task.done_next)) in
      ground (arith, Goes-has (record v { task = (finish false v.task).0 }) w x g next)
]
