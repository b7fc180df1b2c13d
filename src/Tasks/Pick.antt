-- ===== src/Tasks/Pick.antt =====
-- `process_running_list`: the first runnable task is taken, and those before it go to their lists.
use hyrule.Prelude.{ℕ, zero, suc, ◌<◌, ◌≡◌, ◌≢◌, refl, sym, arith}
use hyrule.Prelude.{Option, none, some, List, [], ◌∷◌, ◌++◌, if◌then◌else◌, length}
use hyrule.Prelude.{append-nil, append_assoc}
use hyrule.Tasks.{
  TaskState, task_state_zombie, task_state_interruptible, task_state_uninterruptible,
  task_state_exiting, Scheduler, places, schedule_task, is_running, process_running_loop,
  process_running_list, Selected,
}
use hyrule.Tasks.Select.{
  is_blocked, is_exiting, those, NoZombie, runs, waits, stopped, exits, dies, case_of, queues,
}
use hyrule.Tasks.Comes.{
  Comes, comes, Comes-fewer, Comes-bind, put_on, schedule_task-Comes, count-append, count-moves,
}

-- The first runnable task of a list, the tasks before it and those behind it.
unfoldable pub first_running : (ℕ → TaskState) → List ℕ → Option ℕ
first_running state [] = none
first_running state (t ∷ ts) = if is_running (state t) then some t else first_running state ts

unfoldable pub before_first : (ℕ → TaskState) → List ℕ → List ℕ
before_first state [] = []
before_first state (t ∷ ts) = if is_running (state t) then [] else t ∷ before_first state ts

unfoldable pub behind_first : (ℕ → TaskState) → List ℕ → List ℕ
behind_first state [] = []
behind_first state (t ∷ ts) = if is_running (state t) then ts else behind_first state ts

module _ (s : Scheduler) where
  abbrev pub selected_from : List ℕ → List ℕ → List ℕ → Selected
  selected_from running blocking exiting = (
    first_running s.state running,
    queues s (behind_first s.state running)
        (blocking ++ those is_blocked s.state (before_first s.state running))
        (exiting ++ those is_exiting s.state (before_first s.state running)),
  )

  -- One task that leaves the running list for the list of its state.
  one_passed :
      (t : ℕ) (ts blocking exiting : List ℕ) (x : TaskState)
      → s.state t ≡ x
      → x ≢ task_state_zombie
      → Comes
          (schedule_task (queues s ts blocking exiting) t)
          (put_on (queues s ts blocking exiting) t x)
          (places (queues s (t ∷ ts) blocking exiting))
  one_passed t ts blocking exiting x e lives =
      Comes-fewer (schedule_task-Comes (queues s ts blocking exiting) t x e lives)
        (λ u. omega (arith, count-moves u t ts [], count-append u [] (t ∷ [])))

  process_running_loop-selected_from :
      (fuel : ℕ) (running blocking exiting : List ℕ)
      → length running < fuel
      → NoZombie s.state running
      → Comes
          (process_running_loop fuel (queues s running blocking exiting))
          (selected_from running blocking exiting)
          (places (queues s running blocking exiting))
  unfolding process_running_loop first_running before_first behind_first those
  process_running_loop-selected_from zero running blocking exiting lt ok = absurd (omega arith)
  process_running_loop-selected_from (suc fuel) [] blocking exiting lt ok =
      rw (append-nil blocking, append-nil exiting) (comes refl)
  process_running_loop-selected_from (suc fuel) (t ∷ ts) blocking exiting lt (ok, oks) =
      let to_blocking : blocking ++ t ∷ those is_blocked s.state (before_first s.state ts)
          ≡ (blocking ++ t ∷ []) ++ those is_blocked s.state (before_first s.state ts) =
        sym (append_assoc blocking (t ∷ []) (those is_blocked s.state (before_first s.state ts))) in
      let blocked : Comes (process_running_loop fuel (queues s ts (blocking ++ t ∷ []) exiting))
          (selected_from ts (blocking ++ t ∷ []) exiting)
          (places (queues s (t ∷ ts) blocking exiting)) =
        Comes-fewer
          (process_running_loop-selected_from fuel ts (blocking ++ t ∷ []) exiting (omega arith)
            oks)
          (λ u. omega (arith, count-moves u t ts blocking)) in
      elim (case_of (s.state t)) [
        | runs e ↦ rw (e, append-nil blocking, append-nil exiting) (comes refl)
        | waits e ↦
            rw (e, e, to_blocking)
              (Comes-bind (process_running_loop fuel)
                (one_passed t ts blocking exiting task_state_interruptible e (λ dead. ground arith))
                blocked)
        | stopped e ↦
            rw (e, e, to_blocking)
              (Comes-bind (process_running_loop fuel)
                (one_passed t ts blocking exiting task_state_uninterruptible e
                  (λ dead. ground arith))
                blocked)
        | exits e ↦
            rw
              (
                e,
                e,
                sym (
                    append_assoc exiting (t ∷ [])
                      (those is_exiting s.state (before_first s.state ts))),
              )
              (Comes-bind (process_running_loop fuel)
                (one_passed t ts blocking exiting task_state_exiting e (λ dead. ground arith))
                (Comes-fewer
                  (process_running_loop-selected_from fuel ts blocking (exiting ++ t ∷ [])
                    (omega arith) oks)
                  (λ u. omega (arith, count-moves u t ts exiting))))
        | dies e ↦ absurd (ground arith)
      ]

  -- If no task of the running queue is a zombie: the loop ends within one round more than the queue
  -- has tasks, with the first runnable task of the queue, if any, the tasks behind it left in the
  -- queue, and those ahead of it at the ends of the blocking and exiting queues by their states; or
  -- a task is on the lists twice.
  pub process_running_list-selected_from :
      NoZombie s.state s.running_tasks
      → Comes
          (process_running_list s)
          (selected_from s.running_tasks s.blocking_tasks s.exiting_tasks)
          (places s)
  unfolding process_running_list
  process_running_list-selected_from ok =
      process_running_loop-selected_from (suc (length s.running_tasks)) s.running_tasks
        s.blocking_tasks s.exiting_tasks (omega arith) ok
