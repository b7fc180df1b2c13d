-- ===== src/Tasks/Switch.antt =====
-- What `userspace_trap_handler` comes to, in one equation.
use hyrule.Prelude.{ℕ, ◌+◌, ◌≤◌, ◌≡◌, ◌≢◌, refl, arith, false}
use hyrule.Prelude.{some, List, [], ◌∷◌, ◌++◌, ◌==◌}
use hyrule.Prelude.{append-nil}
use mathlib.Core.Path.{subst}
use hyrule.Tasks.{
  bind, count, places, TaskState, Scheduler, Current, idle_task, task, schedule_current,
  schedule_task, save_cpustate, is_running, next_task, switch_to, userspace_trap_handler,
  process_blocking_list, process_exiting_list, process_running_list,
}
use hyrule.Tasks.Comes.{
  Comes, comes, Comes-fewer, Comes-some, Comes-bind, put_on, schedule_task-Comes, count-append,
}
use hyrule.Tasks.Select.{
  is_blocked, is_exiting, is_zombie, those, NoZombie, unblocked, process_blocking_list-unblocked,
  process_exiting_list-empties,
}
use hyrule.Tasks.Count.{count_by_state}
use hyrule.Tasks.Pick.{
  first_running, before_first, behind_first, process_running_list-selected_from,
}

-- No task is in the state that no code moves it to.
abbrev pub Alive : (ℕ → TaskState) → Type 0
Alive state = (t : ℕ) → is_zombie (state t) ≡ false

Alive-NoZombie : (state : ℕ → TaskState) (ts : List ℕ) → Alive state → NoZombie state ts
Alive-NoZombie state [] alive = tt
Alive-NoZombie state (t ∷ ts) alive = (alive t, Alive-NoZombie state ts alive)

-- The task that yields, as a list.
abbrev pub yielding : Current → List ℕ
yielding idle_task = []
yielding (task t) = t ∷ []

-- The blocking list with the task that yields, and the queue from which the next task is taken.
abbrev pub waiting : Scheduler → List ℕ
waiting s = s.blocking_tasks ++ those is_blocked s.state (yielding s.current)

abbrev pub runnable : Scheduler → List ℕ
runnable s =
    s.running_tasks
    ++ those is_running s.state (yielding s.current)
    ++ those is_running s.state (waiting s)

abbrev pub switched : ℕ → Scheduler → Scheduler
switched cpu s = record (save_cpustate cpu s) {
  current = next_task (first_running s.state (runnable s));
  running_tasks = behind_first s.state (runnable s);
  blocking_tasks =
      those is_blocked s.state (waiting s)
      ++ those is_blocked s.state (before_first s.state (runnable s));
  exiting_tasks = those is_exiting s.state (before_first s.state (runnable s));
}

-- Each task goes to the list of its state.
abbrev sort_out : Scheduler → List ℕ → Scheduler
sort_out s ts = record s {
  running_tasks = s.running_tasks ++ those is_running s.state ts;
  blocking_tasks = s.blocking_tasks ++ those is_blocked s.state ts;
  exiting_tasks = s.exiting_tasks ++ those is_exiting s.state ts;
}

-- The places of a task, and one more where it is the running one.
abbrev pub occurrences : Scheduler → ℕ → ℕ
occurrences s t = count t (yielding s.current) + places s t

sort_out_one :
    (s : Scheduler) (t : ℕ)
    → is_zombie (s.state t) ≡ false
    → put_on s t (s.state t) ≡ sort_out s (t ∷ [])
unfolding those
sort_out_one s t ok =
    ground
      (arith, append-nil s.running_tasks, append-nil s.blocking_tasks, append-nil s.exiting_tasks)

schedule_current-sort_out :
    (s : Scheduler) (c : Current)
    → Alive s.state
    → Comes
        (schedule_current s c)
        (sort_out s (yielding c))
        (λ u. count u (yielding c) + places s u)
unfolding those
schedule_current-sort_out s idle_task alive =
    rw (append-nil s.running_tasks, append-nil s.blocking_tasks, append-nil s.exiting_tasks)
      (comes refl)
schedule_current-sort_out s (task t) alive =
    subst
      (λ (next : Scheduler). Comes (schedule_task s t) next (λ u. count u (t ∷ []) + places s u))
      (sort_out_one s t (alive t))
      (schedule_task-Comes s t (s.state t) refl (λ dead. ground (arith, alive t, dead)))

-- No pass makes a task more frequent.
places-sort_out :
    (s : Scheduler) (ts : List ℕ) (u : ℕ) → places (sort_out s ts) u ≤ count u ts + places s u
places-sort_out s ts u =
    let (r, b, e) : (count u (s.running_tasks ++ those is_running s.state ts)
          ≡ count u s.running_tasks + count u (those is_running s.state ts))
        × (count u (s.blocking_tasks ++ those is_blocked s.state ts)
            ≡ count u s.blocking_tasks + count u (those is_blocked s.state ts))
        × (count u (s.exiting_tasks ++ those is_exiting s.state ts)
            ≡ count u s.exiting_tasks + count u (those is_exiting s.state ts)) =
      (
        count-append u s.running_tasks (those is_running s.state ts),
        count-append u s.blocking_tasks (those is_blocked s.state ts),
        count-append u s.exiting_tasks (those is_exiting s.state ts),
      ) in
    omega (arith, r, b, e, count_by_state s.state u ts)

places-unblocked : (s : Scheduler) (u : ℕ) → places (unblocked s) u ≤ places s u
places-unblocked s u = omega (
  arith,
  count-append u s.running_tasks (those is_running s.state s.blocking_tasks),
  count-append u s.exiting_tasks (those is_exiting s.state s.blocking_tasks),
  count_by_state s.state u s.blocking_tasks,
)

-- No task is on the lists twice, or on one of them while it is the running one.
abbrev pub AtMostOnce : Scheduler → Type 0
AtMostOnce s = (t : ℕ) → occurrences s t ≤ 1

-- Every task, the idle one too, has a saved stack.
abbrev pub HasStacks : Scheduler → Type 0
HasStacks s = (c : Current) → s.host_cpustate c ≢ 0

module _ (cpu : ℕ) (s : Scheduler) (alive : Alive s.state) (valid : cpu ≢ 0)
    (stacks : HasStacks s) where
  saved_stack : (c : Current) → ((save_cpustate cpu s).host_cpustate c == 0) ≡ false
  saved_stack c = ground (arith, stacks c)

  -- The schedule after each pass.
  abbrev sorted_out : Scheduler
  sorted_out = sort_out (save_cpustate cpu s) (yielding s.current)

  abbrev left_over : Scheduler
  left_over = record (unblocked sorted_out) { exiting_tasks = [] }

  -- With no condition on the lists: the yield comes to `switched`, or a task is on them twice.
  pub userspace_trap_handler-Comes :
      Comes (userspace_trap_handler cpu s) (switched cpu s) (occurrences s)
  unfolding userspace_trap_handler count
  userspace_trap_handler-Comes =
      Comes-bind
        (λ scheduled.
          bind (process_blocking_list scheduled)
            (λ unblocked. bind (process_running_list (process_exiting_list unblocked)) switch_to))
        (schedule_current-sort_out (save_cpustate cpu s) s.current alive)
        (Comes-bind
          (λ unblocked. bind (process_running_list (process_exiting_list unblocked)) switch_to)
          (Comes-fewer
            (process_blocking_list-unblocked sorted_out (Alive-NoZombie s.state (waiting s) alive))
            (places-sort_out s (yielding s.current)))
          (rw (process_exiting_list-empties (unblocked sorted_out)) (
            Comes-bind switch_to
              (Comes-fewer
                (process_running_list-selected_from left_over
                  (Alive-NoZombie s.state (runnable s) alive))
                fewer_left)
              (rw (saved_stack (next_task (first_running s.state (runnable s)))) (comes refl)))))
    where
      fewer_left : (u : ℕ) → places left_over u ≤ occurrences s u
      fewer_left u =
          omega (arith, places-unblocked sorted_out u, places-sort_out s (yielding s.current) u)

  -- For a schedule in which no task is a zombie, every task, the idle one too, has a saved stack,
  -- and no task is on the three lists twice or on one of them while it is the running one, and a
  -- yield on a stack that is not null: the handler returns, without a failed assertion, and comes to
  -- the first runnable task of the running queue followed by the yielding task, if runnable, and the
  -- runnable ones of the blocking queue; the tasks behind it are the new running queue; the blocked
  -- ones of the blocking queue, of the yielding task and of those ahead of the choice are the new
  -- blocking queue, in this order; and of the exiting queue only those ahead of the choice are left.
  pub userspace_trap_handler-switched :
      AtMostOnce s → userspace_trap_handler cpu s ≡ some (switched cpu s)
  userspace_trap_handler-switched once = Comes-some userspace_trap_handler-Comes once
