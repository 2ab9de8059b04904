-- ===== src/Tasks/Scheduler.antt =====
-- rpki/rpkid.py: the queue of tasks and the set of those that are in it. A task is told apart by a
-- number.
use rpki_net.Prelude.{
  ℕ, ◌≡◌, refl, Bool, true, false, ◌&&◌, ◌||◌, not, ◌==◌, List, [], ◌∷◌, ◌++◌, arith, Option, none,
  some, if◌then◌else◌, Bool-cases, inl, inr, sym, ◌∙◌, subst,
}
use rpki_net.Tasks.Waiters.{has}

pub record Scheduler : Type 0 where
  pub task_queue : List ℕ
  pub task_ready : List ℕ

abbrev pub new_scheduler : Scheduler
new_scheduler = record { task_queue = []; task_ready = [] }

-- `task_add`, of one task.
unfoldable pub task_add : ℕ → Scheduler → Scheduler
task_add t s =
    if has t s.task_ready
    then s
    else record { task_queue = s.task_queue ++ t ∷ []; task_ready = t ∷ s.task_ready }

-- `task_ready.discard(task)`
unfoldable pub discard : ℕ → List ℕ → List ℕ
discard t [] = []
discard t (x ∷ xs) = let rest = discard t xs in if t == x then rest else x ∷ rest

-- One round of `task_loop` as far as the call of `start`; it waits on an empty queue.
unfoldable pub task_next : Scheduler → Option (ℕ × Scheduler)
task_next s = elim (s.task_queue) [
  | [] ↦ none
  | t ∷ ts ↦ some (t, record { task_queue = ts; task_ready = discard t s.task_ready })
]

-- A task is added, or the loop goes on.
pub data Call : Type 0 where
  add : ℕ → Call
  take_next : Call

unfoldable pub call : Call → Scheduler → Scheduler
call (add t) s = task_add t s
call take_next s = elim (task_next s) [ none ↦ s | some (t, s') ↦ s' ]

unfoldable pub call_all : List Call → Scheduler → Scheduler
call_all [] s = s
call_all (c ∷ cs) s = call_all cs (call c s)

abbrev pub Distinct : List ℕ → Type 0
Distinct [] = Unit
Distinct (t ∷ ts) = (has t ts ≡ false) × Distinct ts

-- Nothing is queued twice, and what is ready is what is queued.
abbrev pub IsScheduled : Scheduler → Type 0
IsScheduled s = Distinct s.task_queue × ((x : ℕ) → has x s.task_ready ≡ has x s.task_queue)

has-snoc : (x t : ℕ) (ts : List ℕ) → has x (ts ++ t ∷ []) ≡ (x == t || has x ts)
has-snoc x t [] = refl
has-snoc x t (y ∷ ts) = ground (arith, has-snoc x t ts)

has-discard : (x t : ℕ) (ts : List ℕ) → has x (discard t ts) ≡ (has x ts && not (x == t))
unfolding discard
has-discard x t [] = refl
has-discard x t (y ∷ ts) = ground (arith, has-discard x t ts)

Distinct-snoc : (t : ℕ) (ts : List ℕ) → has t ts ≡ false → Distinct ts → Distinct (ts ++ t ∷ [])
Distinct-snoc t [] h d = (refl, tt)
Distinct-snoc t (y ∷ ts) h d =
    (ground (arith, has-snoc y t ts, h, d.0), Distinct-snoc t ts (ground (arith, h)) d.1)

task_add-IsScheduled : (t : ℕ) (s : Scheduler) → IsScheduled s → IsScheduled (task_add t s)
unfolding task_add
task_add-IsScheduled t s (d, same) = elim (Bool-cases (has t s.task_ready)) [
  | inl queued ↦ rw (queued, task_add) (d, same)
  | inr absent ↦
      rw (absent, task_add)
        (
          Distinct-snoc t s.task_queue (sym (same t) ∙ absent) d,
          λ x. ground (arith, same x, has-snoc x t s.task_queue),
        )
]

call-IsScheduled : (c : Call) (s : Scheduler) → IsScheduled s → IsScheduled (call c s)
unfolding call task_next
call-IsScheduled (add t) s h = task_add-IsScheduled t s h
call-IsScheduled take_next s h = next s.task_queue s.task_ready h.0 h.1
  where
    next :
        (queue ready : List ℕ)
        → Distinct queue
        → ((x : ℕ) → has x ready ≡ has x queue)
        → IsScheduled (call take_next (record { task_queue = queue; task_ready = ready }))
    next [] ready d same = (d, same)
    next (t ∷ ts) ready d same = (d.1, λ x. left x (x == t) refl)
      where
        left : (x : ℕ) (b : Bool) → (x == t) ≡ b → has x (discard t ready) ≡ has x ts
        left x true e =
            let equal : x ≡ t = ground (arith, e) in
            ground (arith, has-discard x t ready, e, subst (λ y. has y ts ≡ false) (sym equal) d.0)
        left x false e = ground (arith, has-discard x t ready, e, same x)

call_all_from : (cs : List Call) (s : Scheduler) → IsScheduled s → IsScheduled (call_all cs s)
unfolding call_all
call_all_from [] s h = h
call_all_from (c ∷ cs) s h = call_all_from cs (call c s) (call-IsScheduled c s h)

-- Whatever is added, and however often the loop goes on, no task is queued twice, and the tasks that are
-- ready are those that are queued, so that adding a task that is queued does nothing and adding another
-- one puts it at the end of the queue.
pub call_all-IsScheduled :
    (cs : List Call) (t : ℕ)
    → let s = call_all cs new_scheduler in
      IsScheduled s
      × (has t s.task_queue ≡ true → task_add t s ≡ s)
      × (has t s.task_queue ≡ false → (task_add t s).task_queue ≡ s.task_queue ++ t ∷ [])
unfolding task_add
call_all-IsScheduled cs t =
    let s = call_all cs new_scheduler in
    let h = call_all_from cs new_scheduler (tt, λ x. refl) in
    (h, (λ e. rw (h.1 t ∙ e, task_add) refl), (λ e. rw (h.1 t ∙ e, task_add) refl))
