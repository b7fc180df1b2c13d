-- ===== src/Tasks/Conserves.antt =====
-- A yield loses no task and makes none twice, and runs the idle task only where no other can run.
use hyrule.Prelude.{ℕ, ◌≤◌, ◌<◌, ◌≡◌, ◌≢◌, refl, arith, true, false}
use hyrule.Prelude.{Option, none, some, inl, inr, Bool-cases}
use hyrule.Tasks.{
  Scheduler, Current, idle_task, task, is_running, next_task, userspace_trap_handler,
}
use hyrule.Tasks.Select.{is_exiting}
use hyrule.Tasks.Pick.{first_running}
use hyrule.Prelude.Returns.{Returns}
use hyrule.Tasks.{count}
use hyrule.Tasks.Count.{count-first, first_running-none, first_running-some}
use hyrule.Tasks.Switch.{
  Alive, AtMostOnce, HasStacks, runnable, switched, userspace_trap_handler-switched,
}
use hyrule.Tasks.Places.{
  tasks_of, count-switched, never_more, all_runnable, count_self, AtMostOnce-switched,
}

-- No task gets lost but those on the way out, and none stands in a queue more often than before.
pub record KeepsTasks (s after : Scheduler) : Type 0 where
  pub states : (t : ℕ) → after.state t ≡ s.state t
  pub keeps :
      (t : ℕ) → is_exiting (s.state t) ≡ false → count t (tasks_of after) ≡ count t (tasks_of s)
  pub never_more_often : (t : ℕ) → count t (tasks_of after) ≤ count t (tasks_of s)
  pub once : AtMostOnce after

-- The choice is a runnable task of the queues; the idle task only where no task is runnable.
abbrev pub Chooses : Scheduler → Scheduler → Current → Type 0
Chooses s after idle_task = (t : ℕ) → 0 < count t (tasks_of s) → is_running (s.state t) ≡ false
Chooses s after (task t) = (is_running (s.state t) ≡ true) × (0 < count t (tasks_of s))

module _ (cpu : ℕ) (s : Scheduler) (alive : Alive s.state) (valid : cpu ≢ 0) (stacks : HasStacks s)
    (once : AtMostOnce s) where
  -- For a schedule in which no task is a zombie, every task, the idle one too, has a saved stack,
  -- and no task is on the three lists twice or on one of them while it is the running one, and a
  -- yield on a stack that is not null: the handler returns, without a failed assertion, it changes
  -- no task's state, every task that is not exiting is the running task or in the running or
  -- blocking queue exactly as often as before, no task is there more often than before, and still no
  -- task is on the lists twice or on one of them while it is the running one.
  pub userspace_trap_handler-KeepsTasks : Returns (userspace_trap_handler cpu s) (KeepsTasks s)
  userspace_trap_handler-KeepsTasks =
      rw (userspace_trap_handler-switched cpu s alive valid stacks once) (record {
        states = λ t. refl;
        keeps = count-switched cpu s alive;
        never_more_often = λ t. never_more cpu s alive t (s.state t) refl;
        once = AtMostOnce-switched cpu s alive once;
      })

  chooses :
      (o : Option ℕ)
      → first_running s.state (runnable s) ≡ o
      → Chooses s (switched cpu s) (next_task o)
  chooses none e = λ t there. elim (Bool-cases (is_running (s.state t))) [
    | inl runs ↦ absurd (
        omega (
          arith,
          first_running-none s.state t (runnable s) e runs,
          all_runnable cpu s alive t runs,
        ))
    | inr rests ↦ rests
  ]
  chooses (some t) e =
      let runs = first_running-some s.state t (runnable s) e in
      (
        runs,
        omega (
          arith,
          count_self t,
          rw e at (count-first s.state t (runnable s)),
          all_runnable cpu s alive t runs,
        ),
      )

  -- For a schedule in which no task is a zombie, every task, the idle one too, has a saved stack,
  -- and no task is on the three lists twice or on one of them while it is the running one, and a
  -- yield on a stack that is not null: the handler returns, without a failed assertion, and either
  -- the task it switches to is runnable and was the running one or in a queue, or it switches to the
  -- idle task and none of those tasks is runnable.
  pub userspace_trap_handler-Chooses :
      Returns (userspace_trap_handler cpu s) (λ after. Chooses s after after.current)
  userspace_trap_handler-Chooses =
      rw (userspace_trap_handler-switched cpu s alive valid stacks once)
        (chooses (first_running s.state (runnable s)) refl)
