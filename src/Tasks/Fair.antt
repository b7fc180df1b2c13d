-- ===== src/Tasks/Fair.antt =====
-- Yields go round: a runnable task runs after those before it in the queue.
use hyrule.Prelude.{ℕ, suc, ◌≡◌, ◌≢◌, refl, ap, ◌∙◌, arith, true}
use hyrule.Prelude.{Option, some, List, [], ◌∷◌, ◌++◌, length, append_assoc}
use hyrule.Prelude.Returns.{Returns}
use hyrule.Tasks.{Scheduler, task, is_running, bind, userspace_trap_handler, TaskState}
use hyrule.Tasks.Select.{those}
use hyrule.Tasks.Pick.{first_running, behind_first}
use hyrule.Tasks.Switch.{
  Alive, AtMostOnce, HasStacks, yielding, waiting, runnable, switched,
  userspace_trap_handler-switched,
}
use hyrule.Tasks.Places.{AtMostOnce-switched}
use hyrule.Tasks.Reach.{saved_stacks}

-- One yield after the other, with the stacks on which they happen.
unfoldable pub yield_each : List ℕ → Scheduler → Option Scheduler
yield_each [] s = some s
yield_each (cpu ∷ cpus) s = bind (userspace_trap_handler cpu s) (yield_each cpus)

abbrev pub AllRunning : (ℕ → TaskState) → List ℕ → Type 0
AllRunning state [] = Unit
AllRunning state (t ∷ ts) = (is_running (state t) ≡ true) × AllRunning state ts

abbrev pub AreStacks : List ℕ → Type 0
AreStacks [] = Unit
AreStacks (cpu ∷ cpus) = (cpu ≢ 0) × AreStacks cpus

-- What stands behind the queue when the next task is taken.
abbrev rest_of : Scheduler → List ℕ
rest_of s = those is_running s.state (yielding s.current) ++ those is_running s.state (waiting s)

moved_up :
    (s : Scheduler) (u : ℕ) (ahead behind : List ℕ) (t : ℕ)
    → s.running_tasks ≡ u ∷ (ahead ++ t ∷ behind)
    → is_running (s.state u) ≡ true
    → behind_first s.state (runnable s) ≡ ahead ++ t ∷ (behind ++ rest_of s)
unfolding behind_first
moved_up s u ahead behind t queue here =
    ap (behind_first s.state) (
      ap
        (λ (ts : List ℕ).
          ts
          ++ those is_running s.state (yielding s.current)
          ++ those is_running s.state (waiting s))
        queue)
    ∙ rw here (
        append_assoc (ahead ++ t ∷ behind) (those is_running s.state (yielding s.current))
          (those is_running s.state (waiting s))
        ∙ append_assoc ahead (t ∷ behind) (rest_of s))

-- For a schedule in which no task is a zombie, every task, the idle one too, has a saved stack, and
-- no task is on the three lists twice or on one of them while it is the running one: if all tasks
-- ahead of a runnable task in the running queue are runnable too, then after one yield for each of
-- them and one more, all on stacks that are not null, that task is the running one.
pub yield_each-reaches :
    (ahead behind : List ℕ) (t : ℕ) (cpus : List ℕ) (s : Scheduler)
    → Alive s.state
    → HasStacks s
    → AtMostOnce s
    → AreStacks cpus
    → length cpus ≡ suc (length ahead)
    → s.running_tasks ≡ ahead ++ t ∷ behind
    → AllRunning s.state ahead
    → is_running (s.state t) ≡ true
    → Returns (yield_each cpus s) (λ after. after.current ≡ task t)
unfolding yield_each first_running
yield_each-reaches ahead behind t [] s alive stacks once valid counted queue all runs =
    absurd (omega arith)
yield_each-reaches [] behind t (cpu ∷ cpu2 ∷ cpus) s alive stacks once valid counted queue all
      runs =
    absurd (omega arith)
yield_each-reaches [] behind t (cpu ∷ []) s alive stacks once (valid, _) counted queue all runs =
    rw (userspace_trap_handler-switched cpu s alive valid stacks once, queue, runs) refl
yield_each-reaches (u ∷ ahead) behind t (cpu ∷ cpus) s alive stacks once (valid, valids) counted
      queue (here, all) runs =
    rw (userspace_trap_handler-switched cpu s alive valid stacks once) (
      yield_each-reaches ahead (behind ++ rest_of s) t cpus (switched cpu s) alive
        (saved_stacks t cpu s valid stacks) (AtMostOnce-switched cpu s alive once) valids
        (omega arith) (moved_up s u ahead behind t queue here) all runs)
