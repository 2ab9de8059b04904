-- ===== src/Tasks.antt =====
-- rpki/rpkid_tasks.py, `AbstractTask`: running a task, postponing it, and waiting for its end. A
-- condition is the list of those who wait on it.
pub mod Waiters
pub mod Scheduler
mod Examples
use rpki_net.Prelude.{ℕ, suc, Bool, true, false, List, [], ◌∷◌, Option, none, some, if◌then◌else◌}

pub record Task : Type 0 where
  pub started : Bool
  pub postponed : Bool
  pub done_this : Option (List ℕ)
  pub done_next : Option (List ℕ)

-- `__init__`
abbrev pub new_task : Task
new_task = record { started = false; postponed = false; done_this = none; done_next = none }

abbrev pub add_waiter : ℕ → Option (List ℕ) → Option (List ℕ)
add_waiter w none = some (w ∷ [])
add_waiter w (some ws) = some (w ∷ ws)

-- `wait`, by one who is told apart by a number.
unfoldable pub wait : ℕ → Task → Task
wait w t =
    if t.started
    then record t { done_next = add_waiter w t.done_next }
    else record t { done_this = add_waiter w t.done_this }

-- `waiting`
unfoldable pub waiting : Task → Bool
waiting t = elim (t.done_this) [ none ↦ false | some ws ↦ true ]

-- `start` as far as the call of `main`.
unfoldable pub begin : Task → Task
begin t = record t { started = true; postponed = false }

abbrev pub waiters : Option (List ℕ) → List ℕ
waiters none = []
waiters (some ws) = ws

-- The rest of `start`, when `main` has raised PostponeTask, or has ended in another way: the task and
-- those who are notified. A task that is postponed is added to the queue again.
unfoldable pub finish : Bool → Task → Task × List ℕ
finish true t = (record t { started = false; postponed = true }, [])
finish false t =
    (record t { started = false; done_this = t.done_next; done_next = none }, waiters t.done_this)
