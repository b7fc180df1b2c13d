-- ===== src/Tasks/Places.antt =====
-- How often each task stands where after a yield, in terms of the queue from which the next one is taken.
use hyrule.Prelude.{ℕ, ◌+◌, ◌≤◌, ◌≡◌, refl, ap, ◌∙◌, arith, true, false}
use hyrule.Prelude.{Option, none, some, List, [], ◌∷◌, ◌++◌, if◌then◌else◌}
use hyrule.Tasks.{
  TaskState, Scheduler, is_running, next_task, task_state_running, task_state_zombie,
  task_state_interruptible, task_state_uninterruptible, task_state_exiting,
}
use hyrule.Tasks.Select.{is_blocked, is_exiting, those}
use hyrule.Tasks.Pick.{first_running, before_first, behind_first}
use hyrule.Tasks.{count}
use hyrule.Tasks.Comes.{count-append}
use hyrule.Tasks.Count.{count-those, listed, count-first, count-before_first}
use hyrule.Tasks.Switch.{Alive, AtMostOnce, occurrences, yielding, waiting, runnable, switched}

-- The tasks that the scheduler knows, less those on the way out.
abbrev pub tasks_of : Scheduler → List ℕ
tasks_of s = yielding s.current ++ (s.running_tasks ++ s.blocking_tasks)

yielding-next_task : (o : Option ℕ) → yielding (next_task o) ≡ listed o
yielding-next_task none = refl
yielding-next_task (some t) = refl

module _ (cpu : ℕ) (s : Scheduler) (alive : Alive s.state) where
  abbrev cur : List ℕ
  cur = yielding s.current

  count-waiting :
      (t : ℕ)
      → count t (waiting s)
        ≡ count t s.blocking_tasks + (if is_blocked (s.state t) then count t cur else 0)
  count-waiting t =
      count-append t s.blocking_tasks (those is_blocked s.state cur)
      ∙ ap (λ (n : ℕ). count t s.blocking_tasks + n) (count-those is_blocked s.state t cur)

  count-runnable :
      (t : ℕ)
      → count t (runnable s)
        ≡ count t s.running_tasks
          + (if is_running (s.state t) then count t cur else 0)
          + (if is_running (s.state t) then count t (waiting s) else 0)
  count-runnable t = omega (
    arith,
    count-append t s.running_tasks
        (those is_running s.state cur ++ those is_running s.state (waiting s)),
    count-append t (s.running_tasks ++ those is_running s.state cur)
        (those is_running s.state (waiting s)),
    count-append t s.running_tasks (those is_running s.state cur),
    count-those is_running s.state t cur,
    count-those is_running s.state t (waiting s),
  )

  count_of :
      (t : ℕ) (xs ys zs : List ℕ)
      → count t (xs ++ (ys ++ zs)) ≡ count t xs + (count t ys + count t zs)
  count_of t xs ys zs =
      count-append t xs (ys ++ zs) ∙ ap (λ (n : ℕ). count t xs + n) (count-append t ys zs)

  -- The four places of a task behind the yield, in terms of the queue it is taken from.
  count-places :
      (t : ℕ)
      → count t (tasks_of (switched cpu s))
        ≡ count t (listed (first_running s.state (runnable s)))
          + (count t (behind_first s.state (runnable s))
              + ((if is_blocked (s.state t) then count t (waiting s) else 0)
                  + (if is_blocked (s.state t)
                      then count t (before_first s.state (runnable s))
                      else 0)))
  count-places t =
      rw
        (
          count_of t (yielding (next_task (first_running s.state (runnable s))))
              (behind_first s.state (runnable s))
              (those is_blocked s.state (waiting s)
                ++ those is_blocked s.state (before_first s.state (runnable s))),
          yielding-next_task (first_running s.state (runnable s)),
          count-append t (those is_blocked s.state (waiting s))
              (those is_blocked s.state (before_first s.state (runnable s))),
          count-those is_blocked s.state t (waiting s),
          count-those is_blocked s.state t (before_first s.state (runnable s)),
        )
        refl

  by_state :
      (t : ℕ) (x : TaskState)
      → s.state t ≡ x
      → is_exiting x ≡ false
      → count t (tasks_of (switched cpu s)) ≡ count t (tasks_of s)
  by_state t task_state_zombie e stays = absurd (ground (arith, alive t))
  by_state t task_state_running e stays =
      let before = count-before_first s.state t (runnable s) (ap is_running e) in
      omega (
        arith,
        before,
        count-first s.state t (runnable s),
        rw e at (count-places t),
        rw e at (count-runnable t),
        rw e at (count-waiting t),
        count_of t cur s.running_tasks s.blocking_tasks,
      )
  by_state t task_state_interruptible e stays = omega (
    arith,
    count-first s.state t (runnable s),
    rw e at (count-places t),
    rw e at (count-runnable t),
    rw e at (count-waiting t),
    count_of t cur s.running_tasks s.blocking_tasks,
  )
  by_state t task_state_uninterruptible e stays = omega (
    arith,
    count-first s.state t (runnable s),
    rw e at (count-places t),
    rw e at (count-runnable t),
    rw e at (count-waiting t),
    count_of t cur s.running_tasks s.blocking_tasks,
  )
  by_state t task_state_exiting e stays = absurd (ground arith)

  pub count-switched :
      (t : ℕ)
      → is_exiting (s.state t) ≡ false
      → count t (tasks_of (switched cpu s)) ≡ count t (tasks_of s)
  count-switched t stays = by_state t (s.state t) refl stays

  pub never_more :
      (t : ℕ) (x : TaskState)
      → s.state t ≡ x
      → count t (tasks_of (switched cpu s)) ≤ count t (tasks_of s)
  never_more t task_state_zombie e = absurd (ground (arith, alive t))
  never_more t task_state_running e = omega (arith, by_state t task_state_running e refl)
  never_more t task_state_interruptible e =
      omega (arith, by_state t task_state_interruptible e refl)
  never_more t task_state_uninterruptible e =
      omega (arith, by_state t task_state_uninterruptible e refl)
  never_more t task_state_exiting e = omega (
    arith,
    count-first s.state t (runnable s),
    rw e at (count-places t),
    rw e at (count-runnable t),
    count_of t cur s.running_tasks s.blocking_tasks,
  )

  -- An exiting task is dropped, or still has its place in the queue of runnable ones.
  pub exiting_left :
      (t : ℕ)
      → s.state t ≡ task_state_exiting
      → count t (tasks_of (switched cpu s)) ≤ count t s.running_tasks
  exiting_left t e = omega (
    arith,
    count-first s.state t (runnable s),
    rw e at (count-places t),
    rw e at (count-runnable t),
  )

  -- With the exiting list too, no task has more places than before.
  occurrences-split :
      (t : ℕ)
      → occurrences (switched cpu s) t
        ≡ count t (tasks_of (switched cpu s))
          + (if is_exiting (s.state t) then count t (before_first s.state (runnable s)) else 0)
  occurrences-split t = omega (
    arith,
    count_of t (yielding (switched cpu s).current) (switched cpu s).running_tasks
        (switched cpu s).blocking_tasks,
    count-those is_exiting s.state t (before_first s.state (runnable s)),
  )

  before_exiting :
      (t : ℕ) (x : TaskState)
      → s.state t ≡ x
      → count t (tasks_of (switched cpu s))
          + (if is_exiting x then count t (before_first s.state (runnable s)) else 0)
        ≤ occurrences s t
  before_exiting t task_state_exiting e = omega (
    arith,
    count-first s.state t (runnable s),
    rw e at (count-places t),
    rw e at (count-runnable t),
  )
  before_exiting t task_state_zombie e = absurd (ground (arith, alive t))
  before_exiting t task_state_running e =
      omega
        (arith, never_more t task_state_running e, count_of t cur s.running_tasks s.blocking_tasks)
  before_exiting t task_state_interruptible e = omega (
    arith,
    never_more t task_state_interruptible e,
    count_of t cur s.running_tasks s.blocking_tasks,
  )
  before_exiting t task_state_uninterruptible e = omega (
    arith,
    never_more t task_state_uninterruptible e,
    count_of t cur s.running_tasks s.blocking_tasks,
  )

  pub AtMostOnce-switched : AtMostOnce s → AtMostOnce (switched cpu s)
  AtMostOnce-switched once t =
      omega (arith, once t, occurrences-split t, before_exiting t (s.state t) refl)

  pub all_runnable :
      (t : ℕ) → is_running (s.state t) ≡ true → count t (runnable s) ≡ count t (tasks_of s)
  all_runnable t e = ground (
    arith,
    count-runnable t,
    count-waiting t,
    count_of t cur s.running_tasks s.blocking_tasks,
    not_both (s.state t),
  )
    where
      not_both : (x : TaskState) → is_running x ≡ true → is_blocked x ≡ false
      not_both task_state_running r = refl
      not_both task_state_zombie r = refl
      not_both task_state_interruptible r = absurd (ground arith)
      not_both task_state_uninterruptible r = absurd (ground arith)
      not_both task_state_exiting r = refl

pub count_self : (t : ℕ) → count t (t ∷ []) ≡ 1
unfolding count
count_self t = ground arith
