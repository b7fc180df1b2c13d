-- ===== src/Tasks.antt =====
-- sandbox/task_sched.c, vmm_sched.c and wait_queue.c: the states of tasks, the three queues, and the
-- switch to the next task when a task yields.
pub mod Select
pub mod Pick
pub mod Count
pub mod Comes
pub mod Switch
pub mod Places
pub mod Conserves
pub mod Reach
pub mod Exit
pub mod Fair
mod Tests
use hyrule.Prelude.{
  ℕ, zero, suc, ◌+◌, Bool, true, false, Option, none, some, List, [], ◌∷◌, ◌++◌, ◌==◌,
}
use hyrule.Prelude.{if◌then◌else◌, length}

pub data TaskState : Type 0 where
  task_state_zombie task_state_running task_state_interruptible : TaskState
  task_state_uninterruptible task_state_exiting : TaskState

-- What `task_state_transition_init` fills in.
unfoldable pub transition_table : TaskState → TaskState → Bool
transition_table task_state_zombie task_state_zombie = true
transition_table task_state_zombie task_state_running = false
transition_table task_state_zombie task_state_interruptible = false
transition_table task_state_zombie task_state_uninterruptible = false
transition_table task_state_zombie task_state_exiting = false
transition_table task_state_running task_state_zombie = false
transition_table task_state_running task_state_running = true
transition_table task_state_running task_state_interruptible = true
transition_table task_state_running task_state_uninterruptible = true
transition_table task_state_running task_state_exiting = true
transition_table task_state_interruptible task_state_zombie = false
transition_table task_state_interruptible task_state_running = true
transition_table task_state_interruptible task_state_interruptible = true
transition_table task_state_interruptible task_state_uninterruptible = true
transition_table task_state_interruptible task_state_exiting = false
transition_table task_state_uninterruptible task_state_zombie = false
transition_table task_state_uninterruptible task_state_running = true
transition_table task_state_uninterruptible task_state_interruptible = true
transition_table task_state_uninterruptible task_state_uninterruptible = true
transition_table task_state_uninterruptible task_state_exiting = false
transition_table task_state_exiting task_state_zombie = false
transition_table task_state_exiting task_state_running = false
transition_table task_state_exiting task_state_interruptible = false
transition_table task_state_exiting task_state_uninterruptible = false
transition_table task_state_exiting task_state_exiting = true

-- What `current` points to.
pub data Current : Type 0 where
  idle_task : Current
  task : ℕ → Current

-- The fields of the tasks that scheduling uses, with the tasks on each one's wait queue; the three lists by the tasks on them, `current`, and the saved stack of every task.
pub record Scheduler : Type 0 where
  pub state : ℕ → TaskState
  pub non_stop_state : ℕ → TaskState
  pub wait_state_exited : ℕ → Bool
  pub wq_state_notification : ℕ → List ℕ
  pub running_tasks : List ℕ
  pub blocking_tasks : List ℕ
  pub exiting_tasks : List ℕ
  pub current : Current
  pub host_cpustate : Current → ℕ

abbrev pub same_task : Current → Current → Bool
same_task idle_task idle_task = true
same_task idle_task (task t) = false
same_task (task c) idle_task = false
same_task (task c) (task t) = c == t

abbrev pub bind : {A B : Type 0} → Option A → (A → Option B) → Option B
bind none next = none
bind (some a) next = next a

-- The state is written before the table is asserted, which ends the process.
unfoldable pub transit_state : Scheduler → ℕ → TaskState → Option Scheduler
transit_state s t target_state =
    if transition_table (s.state t) target_state
    then some (record s { state = λ u. if u == t then target_state else s.state u })
    else none

-- `raw_task_wake_up` of task.c: an interruptible task runs, a stopped one will run when it continues;
-- other tasks are not to be woken.
abbrev pub can_continue : TaskState → Bool
can_continue task_state_zombie = false
can_continue task_state_running = true
can_continue task_state_interruptible = true
can_continue task_state_uninterruptible = false
can_continue task_state_exiting = false

abbrev pub wake_as : Scheduler → ℕ → TaskState → Option Scheduler
wake_as s t task_state_running = some s
wake_as s t task_state_interruptible = transit_state s t task_state_running
wake_as s t task_state_uninterruptible =
    if can_continue (s.non_stop_state t)
    then some (record s {
      non_stop_state = λ u. if u == t then task_state_running else s.non_stop_state u;
    })
    else none
wake_as s t task_state_exiting = none
wake_as s t task_state_zombie = none

unfoldable pub raw_task_wake_up : Scheduler → ℕ → Option Scheduler
raw_task_wake_up s t = wake_as s t (s.state t)

-- `wake_up` of wait_queue.c, over the tasks of the queue's entries.
unfoldable pub wake_up : List ℕ → Scheduler → Option Scheduler
wake_up [] s = some s
wake_up (t ∷ ts) s = bind (raw_task_wake_up s t) (wake_up ts)

-- How often a task is on a list.
unfoldable pub count : ℕ → List ℕ → ℕ
count t [] = 0
count t (u ∷ us) = if u == t then suc (count t us) else count t us

-- The places that a task has on the three lists. A task has one element, `hart->list`, for all of them.
abbrev pub places : Scheduler → ℕ → ℕ
places s t = count t s.running_tasks + count t s.blocking_tasks + count t s.exiting_tasks

-- `list_append` asserts that the element has neither neighbour. An element that is alone on a list
-- passes that: the C then links it to itself, or into two lists, and what `head` leads to is no list
-- any more, which is outside the model. So `none` wherever the task is on one of the lists already.
abbrev pub list_append : Scheduler → List ℕ → ℕ → Option (List ℕ)
list_append s head t = if places s t == 0 then some (head ++ t ∷ []) else none

-- The list for each state; a zombie is not to be reached.
abbrev pub schedule_as : Scheduler → ℕ → TaskState → Option Scheduler
schedule_as s t task_state_running =
    bind (list_append s s.running_tasks t) (λ head. some (record s { running_tasks = head }))
schedule_as s t task_state_interruptible =
    bind (list_append s s.blocking_tasks t) (λ head. some (record s { blocking_tasks = head }))
schedule_as s t task_state_uninterruptible =
    bind (list_append s s.blocking_tasks t) (λ head. some (record s { blocking_tasks = head }))
schedule_as s t task_state_exiting =
    bind (list_append s s.exiting_tasks t) (λ head. some (record s { exiting_tasks = head }))
schedule_as s t task_state_zombie = none

unfoldable pub schedule_task : Scheduler → ℕ → Option Scheduler
schedule_task s t = schedule_as s t (s.state t)

-- `list_delete`, which asserts that the element is on the list.
unfoldable pub list_delete : List ℕ → ℕ → Option (List ℕ)
list_delete [] t = none
list_delete (u ∷ us) t =
    if u == t then some us else bind (list_delete us t) (λ rest. some (u ∷ rest))

abbrev pub move_off : Scheduler → ℕ → Option Scheduler
move_off s t =
    bind (list_delete s.blocking_tasks t)
      (λ rest. schedule_task (record s { blocking_tasks = rest }) t)

abbrev pub process_blocked_as : Scheduler → ℕ → TaskState → Option Scheduler
process_blocked_as s t task_state_running = move_off s t
process_blocked_as s t task_state_exiting = move_off s t
process_blocked_as s t task_state_interruptible = some s
process_blocked_as s t task_state_uninterruptible = some s
process_blocked_as s t task_state_zombie = none

-- The loop over the elements, each with its successor read before the element is moved.
unfoldable pub process_blocking_loop : List ℕ → Scheduler → Option Scheduler
process_blocking_loop [] s = some s
process_blocking_loop (t ∷ ts) s =
    bind (process_blocked_as s t (s.state t)) (process_blocking_loop ts)

unfoldable pub process_blocking_list : Scheduler → Option Scheduler
process_blocking_list s = process_blocking_loop s.blocking_tasks s

-- Every element is fetched and left alone.
unfoldable pub process_exiting_loop : List ℕ → Scheduler → Scheduler
process_exiting_loop [] s = record s { exiting_tasks = [] }
process_exiting_loop (t ∷ ts) s = process_exiting_loop ts (record s { exiting_tasks = ts })

abbrev pub process_exiting_list : Scheduler → Scheduler
process_exiting_list s = process_exiting_loop s.exiting_tasks s

-- The task found, if any, and what is left of the queues.
abbrev pub Selected : Type 0
Selected = Option ℕ × Scheduler

abbrev pub is_running : TaskState → Bool
is_running task_state_running = true
is_running task_state_zombie = false
is_running task_state_interruptible = false
is_running task_state_uninterruptible = false
is_running task_state_exiting = false

-- On fuel: the loop fetches from the list that `schedule_task` appends to.
unfoldable pub process_running_loop : ℕ → Scheduler → Option Selected
process_running_loop zero s = none
process_running_loop (suc fuel) s = elim s.running_tasks [
  | [] ↦ some (none, s)
  | t ∷ ts ↦
      if is_running (s.state t)
      then some (some t, record s { running_tasks = ts })
      else bind (schedule_task (record s { running_tasks = ts }) t) (process_running_loop fuel)
]

unfoldable pub process_running_list : Scheduler → Option Selected
process_running_list s = process_running_loop (suc (length s.running_tasks)) s

abbrev pub schedule_current : Scheduler → Current → Option Scheduler
schedule_current s idle_task = some s
schedule_current s (task t) = schedule_task s t

-- The idle task where there is no other, and the assertion on its saved stack.
abbrev pub next_task : Option ℕ → Current
next_task none = idle_task
next_task (some t) = task t

abbrev pub switch_to : Selected → Option Scheduler
switch_to (next, s) =
    if s.host_cpustate (next_task next) == 0
    then none
    else some (record s { current = next_task next })

abbrev pub save_cpustate : ℕ → Scheduler → Scheduler
save_cpustate cpu s = record s {
  host_cpustate = λ c. if same_task c s.current then cpu else s.host_cpustate c;
}

-- `cpu` is the stack of the task that yields; the stack returned is that of the new `current`.
unfoldable pub userspace_trap_handler : ℕ → Scheduler → Option Scheduler
userspace_trap_handler cpu s = bind (schedule_current (save_cpustate cpu s) s.current) (λ scheduled.
    bind (process_blocking_list scheduled)
      (λ unblocked. bind (process_running_list (process_exiting_list unblocked)) switch_to))

-- `do_exit` of task.c, up to the next task.
unfoldable pub do_exit : ℕ → Scheduler → ℕ → Option Scheduler
do_exit cpu s t =
    bind
      (wake_up (s.wq_state_notification t)
        (record s { wait_state_exited = λ u. if u == t then true else s.wait_state_exited u }))
      (λ woken. bind (transit_state woken t task_state_exiting) (userspace_trap_handler cpu))
