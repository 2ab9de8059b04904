-- ===== src/Tasks/Examples.antt =====
-- The theorems on tasks at a concrete course of events.
use rpki_net.Prelude.{◌<◌, ◌≡◌, refl, true, false, ◌||◌, List, [], ◌∷◌, ◌++◌, All, none, some}
use rpki_net.Tasks.{wait, begin, finish}
use rpki_net.Tasks.Scheduler.{
  Call, add, take_next, call_all, new_scheduler, task_add, IsScheduled, call_all-IsScheduled,
}
use rpki_net.Tasks.Waiters.{
  World, waits, begins, Reaches, here, then_step, new_world, Goes, stays, starts, finish-timely,
  has, finish-notifies,
}

program : Unit {0}
unfolding wait begin finish
program = tt

-- Someone waits, the task is started, and someone else waits.
abbrev first_world : World
first_world = record {
  task = record { started = false; postponed = false; done_this = some (0 ∷ []); done_next = none };
  calls = 0;
}

abbrev second_world : World
second_world = record {
  task = record { started = true; postponed = false; done_this = some (0 ∷ []); done_next = none };
  calls = 1;
}

abbrev third_world : World
third_world = record {
  task = record {
    started = true;
    postponed = false;
    done_this = some (0 ∷ []);
    done_next = some (1 ∷ []);
  };
  calls = 1;
}

third-Reaches : Reaches new_world third_world
unfolding program
third-Reaches =
    then_step new_world second_world third_world
      (then_step new_world first_world second_world
        (then_step new_world new_world first_world (here new_world) (waits new_world))
        (begins first_world refl))
      (waits second_world)

finish-timely_example : All (λ waiter. waiter < 1) (finish false third_world.task).1
finish-timely_example = finish-timely third_world third-Reaches refl false

finish_runs : (finish false third_world.task).1 ≡ 0 ∷ []
unfolding program
finish_runs = refl

abbrev fourth_world : World
fourth_world = record {
  task = record { started = true; postponed = false; done_this = some (1 ∷ []); done_next = none };
  calls = 2;
}

third-Goes : Goes (record third_world { task = (finish false third_world.task).0 }) fourth_world
unfolding program
third-Goes = starts _ (record third_world { task = (finish false third_world.task).0 }) (stays _)

finish-notifies_example :
    (has 1 (finish false third_world.task).1 || has 1 (finish false fourth_world.task).1) ≡ true
finish-notifies_example = finish-notifies third_world fourth_world third-Goes 1 refl

-- Task 4 is added twice, task 7 once, and one of them is taken.
abbrev calls : List Call
calls = add 4 ∷ add 7 ∷ add 4 ∷ take_next ∷ []

call_all-IsScheduled_example :
    IsScheduled (call_all calls new_scheduler)
    × (has 7 (call_all calls new_scheduler).task_queue ≡ true
        → task_add 7 (call_all calls new_scheduler) ≡ call_all calls new_scheduler)
    × (has 7 (call_all calls new_scheduler).task_queue ≡ false
        → (task_add 7 (call_all calls new_scheduler)).task_queue
          ≡ (call_all calls new_scheduler).task_queue ++ 7 ∷ [])
call_all-IsScheduled_example = call_all-IsScheduled calls 7
