-- ===== src/Tasks/Tests.antt =====
-- The theorems on scheduling at concrete queues.
use hyrule.Prelude.{ℕ, zero, suc, ◌≡◌, ◌≢◌, refl, arith, false, none, some}
use hyrule.Prelude.{[], ◌∷◌}
use hyrule.Prelude.Returns.{Returns}
use hyrule.Tasks.{
  TaskState, task_state_running, task_state_interruptible, task_state_exiting, Scheduler, task,
  userspace_trap_handler, process_running_list, do_exit, wake_up, raw_task_wake_up, transit_state,
  transition_table, schedule_task, process_blocking_list, process_blocking_loop, list_delete,
  process_running_loop, process_exiting_loop,
}
use hyrule.Tasks.Switch.{Alive, AtMostOnce, HasStacks, switched, userspace_trap_handler-switched}
use hyrule.Tasks.Conserves.{
  KeepsTasks, Chooses, userspace_trap_handler-KeepsTasks, userspace_trap_handler-Chooses,
}
use hyrule.Tasks.{count}
use hyrule.Tasks.Reach.{here}
use hyrule.Tasks.Exit.{Leaving, do_exit_final}
use hyrule.Tasks.Fair.{yield_each, yield_each-reaches}

-- Task 3 waits and task 4 exits; the others run.
abbrev states : ℕ → TaskState
states zero = task_state_running
states (suc zero) = task_state_running
states (suc (suc zero)) = task_state_running
states (suc (suc (suc zero))) = task_state_interruptible
states (suc (suc (suc (suc zero)))) = task_state_exiting
states (suc (suc (suc (suc (suc t))))) = task_state_running

abbrev queued : Scheduler
queued = record {
  state = states;
  non_stop_state = states;
  wait_state_exited = λ t. false;
  wq_state_notification = λ t. 3 ∷ [];
  running_tasks = 4 ∷ 1 ∷ 2 ∷ [];
  blocking_tasks = 3 ∷ 5 ∷ [];
  exiting_tasks = [];
  current = task 0;
  host_cpustate = λ c. 7000;
}

queued-Alive : Alive states
queued-Alive zero = refl
queued-Alive (suc zero) = refl
queued-Alive (suc (suc zero)) = refl
queued-Alive (suc (suc (suc zero))) = refl
queued-Alive (suc (suc (suc (suc zero)))) = refl
queued-Alive (suc (suc (suc (suc (suc t))))) = refl

queued-HasStacks : HasStacks queued
queued-HasStacks c = omega arith

queued-AtMostOnce : AtMostOnce queued
unfolding count
queued-AtMostOnce t = ground arith

userspace_trap_handler-switched_example :
    userspace_trap_handler 8000 queued ≡ some (switched 8000 queued)
userspace_trap_handler-switched_example =
    userspace_trap_handler-switched 8000 queued queued-Alive (omega arith) queued-HasStacks
      queued-AtMostOnce

userspace_trap_handler-KeepsTasks_example :
    Returns (userspace_trap_handler 8000 queued) (KeepsTasks queued)
userspace_trap_handler-KeepsTasks_example =
    userspace_trap_handler-KeepsTasks 8000 queued queued-Alive (omega arith) queued-HasStacks
      queued-AtMostOnce

userspace_trap_handler-Chooses_example :
    Returns (userspace_trap_handler 8000 queued) (λ after. Chooses queued after after.current)
userspace_trap_handler-Chooses_example =
    userspace_trap_handler-Chooses 8000 queued queued-Alive (omega arith) queued-HasStacks
      queued-AtMostOnce

abbrev ready_queue : Scheduler
ready_queue = record queued { running_tasks = 1 ∷ 2 ∷ [] }

ready_queue-AtMostOnce : AtMostOnce ready_queue
unfolding count
ready_queue-AtMostOnce t = ground arith

yield_each-reaches_example :
    Returns (yield_each (8000 ∷ 8001 ∷ []) ready_queue) (λ after. after.current ≡ task 2)
yield_each-reaches_example =
    yield_each-reaches (1 ∷ []) [] 2 (8000 ∷ 8001 ∷ []) ready_queue queued-Alive queued-HasStacks
      ready_queue-AtMostOnce (omega arith, (omega arith, tt)) refl refl (refl, tt) refl

queued-Leaving : Leaving 0 queued
unfolding count
queued-Leaving = record {
  alive = queued-Alive;
  stacks = queued-HasStacks;
  runs = refl;
  alone = refl;
}

-- Task 0 exits and wakes task 3.
abbrev exited : Scheduler
exited = elim (do_exit 8000 queued 0) [ none ↦ queued | some after ↦ after ]

do_exit_runs : do_exit 8000 queued 0 ≡ some exited
unfolding do_exit wake_up raw_task_wake_up transit_state transition_table userspace_trap_handler
    schedule_task process_blocking_list process_blocking_loop list_delete process_running_list
    process_running_loop process_exiting_loop count
do_exit_runs = refl

do_exit_final_example : (exited.current ≢ task 0) × (exited.state 0 ≡ task_state_exiting)
do_exit_final_example =
    do_exit_final 0 8000 queued exited exited (omega arith) queued-Leaving do_exit_runs
      (here exited)
