-- ===== src/Tasks/Exit.antt =====
-- `do_exit` of sandbox/task.c: the task never runs again, as its comment says.
use hyrule.Prelude.{ℕ, ◌≡◌, ◌≢◌, refl, arith, true}
use hyrule.Prelude.{some, List, [], ◌∷◌, ◌++◌, ◌==◌, if◌then◌else◌, inl, inr, Bool-cases, ==_iff}
use mathlib.Core.Path.{subst}
use hyrule.Tasks.{
  TaskState, Scheduler, task, bind, userspace_trap_handler, transit_state, transition_table,
  raw_task_wake_up, wake_as, wake_up, do_exit, can_continue, task_state_running, task_state_zombie,
  task_state_interruptible, task_state_uninterruptible, task_state_exiting,
}
use hyrule.Tasks.{count}
use hyrule.Tasks.Comes.{comes, collides, count-append}
use hyrule.Tasks.Switch.{Alive, HasStacks, yielding, userspace_trap_handler-Comes}
use hyrule.Tasks.Places.{tasks_of}
use hyrule.Tasks.Places.{exiting_left}
use hyrule.Tasks.Reach.{
  Reaches, Whenever, Whenever-bind, Gone, Alive-after, saved_stacks, Reaches-Gone,
}

-- Before the exit: the task runs, and is in the queues of the scheduler nowhere else.
pub record Leaving (t : ℕ) (s : Scheduler) : Type 0 where
  pub alive : Alive s.state
  pub stacks : HasStacks s
  pub runs : s.current ≡ task t
  pub alone : count t (s.running_tasks ++ s.blocking_tasks) ≡ 0

module _ (t : ℕ) where
  wake_as-Leaving :
      (s : Scheduler) (u : ℕ) (x : TaskState)
      → s.state u ≡ x
      → Leaving t s
      → Whenever (wake_as s u x) (Leaving t)
  unfolding transit_state
  wake_as-Leaving s u task_state_zombie e l = tt
  wake_as-Leaving s u task_state_running e l = l
  wake_as-Leaving s u task_state_exiting e l = tt
  wake_as-Leaving s u task_state_interruptible e l =
      elim (Bool-cases (transition_table (s.state u) task_state_running)) [
        | inr refused ↦ rw refused tt
        | inl allowed ↦ rw allowed (record {
          alive = Alive-after s.state u task_state_running l.alive refl;
          stacks = l.stacks;
          runs = l.runs;
          alone = l.alone;
        })
      ]
  wake_as-Leaving s u task_state_uninterruptible e l =
      elim (Bool-cases (can_continue (s.non_stop_state u))) [
        | inl may ↦
            rw may (record { alive = l.alive; stacks = l.stacks; runs = l.runs; alone = l.alone })
        | inr may_not ↦ rw may_not tt
      ]

  wake_up-Leaving :
      (ts : List ℕ) (s : Scheduler) → Leaving t s → Whenever (wake_up ts s) (Leaving t)
  unfolding wake_up raw_task_wake_up
  wake_up-Leaving [] s l = l
  wake_up-Leaving (u ∷ ts) s l =
      Whenever-bind (Leaving t) (Leaving t) (wake_as s u (s.state u)) (wake_up ts)
        (wake_as-Leaving s u (s.state u) refl l) (λ woken. wake_up-Leaving ts woken)

  -- The yield of an exiting task leaves it behind.
  last_yield-Gone :
      (cpu : ℕ) (s : Scheduler)
      → cpu ≢ 0
      → Leaving t s
      → s.state t ≡ task_state_exiting
      → Whenever (userspace_trap_handler cpu s) (Gone t)
  last_yield-Gone cpu s valid l e =
      elim (userspace_trap_handler-Comes cpu s l.alive valid l.stacks) [
        | comes eq ↦ rw eq (record {
          alive = l.alive;
          stacks = saved_stacks t cpu s valid l.stacks;
          exited = e;
          nowhere = omega (
            arith,
            exiting_left cpu s l.alive t e,
            l.alone,
            count-append t s.running_tasks s.blocking_tasks,
          );
        })
        | collides u eq twice ↦ rw eq tt
      ]

  exit_from :
      (cpu : ℕ) (s : Scheduler)
      → cpu ≢ 0
      → Leaving t s
      → Whenever (bind (transit_state s t task_state_exiting) (userspace_trap_handler cpu)) (Gone t)
  unfolding transit_state
  exit_from cpu s valid l = elim (Bool-cases (transition_table (s.state t) task_state_exiting)) [
    | inr refused ↦ rw refused tt
    | inl allowed ↦
        let exiting : Scheduler = record s {
          state = λ u. if u == t then task_state_exiting else s.state u;
        } in
        rw allowed (
          last_yield-Gone cpu exiting valid
            (record {
              alive = Alive-after s.state t task_state_exiting l.alive refl;
              stacks = l.stacks;
              runs = l.runs;
              alone = l.alone;
            })
            (rw ((==_iff t t).1 refl) refl))
  ]

  do_exit-Gone :
      (cpu : ℕ) (s : Scheduler) → cpu ≢ 0 → Leaving t s → Whenever (do_exit cpu s t) (Gone t)
  unfolding do_exit
  do_exit-Gone cpu s valid l =
      let marked : Scheduler = record s {
        wait_state_exited = λ v. if v == t then true else s.wait_state_exited v;
      } in
      Whenever-bind (Leaving t) (Gone t) (wake_up (s.wq_state_notification t) marked)
        (λ woken. bind (transit_state woken t task_state_exiting) (userspace_trap_handler cpu))
        (wake_up-Leaving (s.wq_state_notification t) marked
          (record { alive = l.alive; stacks = l.stacks; runs = l.runs; alone = l.alone }))
        (λ woken left. exit_from cpu woken valid left)

  not_current : (s : Scheduler) → count t (tasks_of s) ≡ 0 → s.current ≢ task t
  unfolding count
  not_current s none_there e =
      let counted : count t (yielding s.current ++ (s.running_tasks ++ s.blocking_tasks)) ≡ 0 =
        none_there in
      ground (arith, rw e at counted)

  -- For a schedule in which no task is a zombie, every task has a saved stack, and the running task
  -- is in neither the running nor the blocking queue: after that task's do_exit, on a stack that is
  -- not null, has come to the next task, then in every schedule reached by changes of state, wake-
  -- ups, yields, exits and starts of tasks that are set to run, the task is not the running one and
  -- its state is still exiting.
  pub do_exit_final :
      (cpu : ℕ) (s after later : Scheduler)
      → cpu ≢ 0
      → Leaving t s
      → do_exit cpu s t ≡ some after
      → Reaches after later
      → (later.current ≢ task t) × (later.state t ≡ task_state_exiting)
  do_exit_final cpu s after later valid l e path =
      let gone =
        Reaches-Gone t after later path
          (subst (λ o. Whenever o (Gone t)) e (do_exit-Gone cpu s valid l)) in
      (not_current later gone.nowhere, gone.exited)
