-- ===== src/Tasks/Select.antt =====
-- What each pass over the queues leaves, in one equation: the tasks of a list that are in a state.
use hyrule.Prelude.{ℕ, ◌≡◌, ◌≢◌, refl, sym, ap, arith, Bool, true, false}
use hyrule.Prelude.{some, List, [], ◌∷◌, ◌++◌, ◌==◌, if◌then◌else◌, inl, inr}
use hyrule.Prelude.{Bool-cases, ==_iff}
use hyrule.Prelude.{append-nil, append_assoc}
use hyrule.Tasks.{
  bind, places, TaskState, task_state_zombie, task_state_running, task_state_interruptible,
  task_state_uninterruptible, task_state_exiting, Scheduler, schedule_task, list_delete,
  process_blocking_loop, process_blocking_list, process_exiting_loop, process_exiting_list,
  is_running,
}
use hyrule.Tasks.Comes.{
  Comes, comes, Comes-fewer, Comes-bind, put_on, schedule_task-Comes, count-append, count-leaves,
}

abbrev pub is_blocked : TaskState → Bool
is_blocked task_state_zombie = false
is_blocked task_state_running = false
is_blocked task_state_interruptible = true
is_blocked task_state_uninterruptible = true
is_blocked task_state_exiting = false

abbrev pub is_exiting : TaskState → Bool
is_exiting task_state_zombie = false
is_exiting task_state_running = false
is_exiting task_state_interruptible = false
is_exiting task_state_uninterruptible = false
is_exiting task_state_exiting = true

abbrev pub is_zombie : TaskState → Bool
is_zombie task_state_zombie = true
is_zombie task_state_running = false
is_zombie task_state_interruptible = false
is_zombie task_state_uninterruptible = false
is_zombie task_state_exiting = false

-- The tasks of a list whose state passes the test, in their order.
unfoldable pub those : (TaskState → Bool) → (ℕ → TaskState) → List ℕ → List ℕ
those test state [] = []
those test state (t ∷ ts) = if test (state t) then t ∷ those test state ts else those test state ts

abbrev pub NoZombie : (ℕ → TaskState) → List ℕ → Type 0
NoZombie state [] = Unit
NoZombie state (t ∷ ts) = (is_zombie (state t) ≡ false) × NoZombie state ts

-- Every task goes to the list for its state.
abbrev pub sort_out : Scheduler → List ℕ → Scheduler
sort_out s ts = record s {
  running_tasks = s.running_tasks ++ those is_running s.state ts;
  blocking_tasks = s.blocking_tasks ++ those is_blocked s.state ts;
  exiting_tasks = s.exiting_tasks ++ those is_exiting s.state ts;
}

abbrev pub AllBlocked : (ℕ → TaskState) → List ℕ → Type 0
AllBlocked state [] = Unit
AllBlocked state (t ∷ ts) = (is_blocked (state t) ≡ true) × AllBlocked state ts

AllBlocked-append :
    (state : ℕ → TaskState) (ts : List ℕ) (t : ℕ)
    → AllBlocked state ts
    → is_blocked (state t) ≡ true
    → AllBlocked state (ts ++ t ∷ [])
AllBlocked-append state [] t all e = (e, tt)
AllBlocked-append state (u ∷ ts) t (eu, all) e = (eu, AllBlocked-append state ts t all e)

-- Behind blocked tasks, the first one that is not is the one deleted.
list_delete-behind :
    (state : ℕ → TaskState) (kept : List ℕ) (t : ℕ) (ts : List ℕ)
    → AllBlocked state kept
    → is_blocked (state t) ≡ false
    → list_delete (kept ++ t ∷ ts) t ≡ some (kept ++ ts)
unfolding list_delete
list_delete-behind state [] t ts all e = rw ((==_iff t t).1 refl) refl
list_delete-behind state (u ∷ kept) t ts (eu, all) e = elim (Bool-cases (u == t)) [
  | inl same ↦ absurd (differ ((==_iff u t).0 same))
  | inr other ↦ rw (other, list_delete-behind state kept t ts all e) refl
]
  where
    differ : u ≡ t → ⊥
    differ same = ground (arith, ap state same)

pub data CaseOf (x : TaskState) : Type 0 where
  runs : x ≡ task_state_running → CaseOf x
  waits : x ≡ task_state_interruptible → CaseOf x
  stopped : x ≡ task_state_uninterruptible → CaseOf x
  exits : x ≡ task_state_exiting → CaseOf x
  dies : x ≡ task_state_zombie → CaseOf x

pub case_of : (x : TaskState) → CaseOf x
case_of task_state_zombie = dies refl
case_of task_state_running = runs refl
case_of task_state_interruptible = waits refl
case_of task_state_uninterruptible = stopped refl
case_of task_state_exiting = exits refl

module _ (s : Scheduler) where
  abbrev pub queues : List ℕ → List ℕ → List ℕ → Scheduler
  queues running blocking exiting = record s {
    running_tasks = running;
    blocking_tasks = blocking;
    exiting_tasks = exiting;
  }

  abbrev sorted_into : List ℕ → List ℕ → List ℕ → List ℕ → Scheduler
  sorted_into running blocking exiting ts =
      queues (running ++ those is_running s.state ts) (blocking ++ those is_blocked s.state ts)
        (exiting ++ those is_exiting s.state ts)

  -- One task that leaves the blocking list for the list of its state.
  one_leaves :
      (t : ℕ) (ts running kept exiting : List ℕ) (x : TaskState)
      → s.state t ≡ x
      → x ≢ task_state_zombie
      → is_blocked x ≡ false
      → AllBlocked s.state kept
      → Comes
          (bind
            (list_delete (kept ++ t ∷ ts) t)
            (λ rest. schedule_task (queues running rest exiting) t))
          (put_on (queues running (kept ++ ts) exiting) t x)
          (places (queues running (kept ++ t ∷ ts) exiting))
  one_leaves t ts running kept exiting x e lives leaves all =
      rw (list_delete-behind s.state kept t ts all (rw e leaves)) (
        Comes-fewer (schedule_task-Comes (queues running (kept ++ ts) exiting) t x e lives)
          (λ u. omega (arith, count-leaves u t kept ts [], count-append u [] (t ∷ []))))

  process_blocking_loop-sorted_into :
      (ts running kept exiting : List ℕ)
      → NoZombie s.state ts
      → AllBlocked s.state kept
      → Comes
          (process_blocking_loop ts (queues running (kept ++ ts) exiting))
          (sorted_into running kept exiting ts)
          (places (queues running (kept ++ ts) exiting))
  unfolding process_blocking_loop those
  process_blocking_loop-sorted_into [] running kept exiting ok all =
      rw (append-nil running, append-nil kept, append-nil exiting) (comes refl)
  process_blocking_loop-sorted_into (t ∷ ts) running kept exiting (ok, oks) all =
      elim (case_of (s.state t)) [
        | runs e ↦
            rw (e, sym (append_assoc running (t ∷ []) (those is_running s.state ts)))
              (Comes-bind (process_blocking_loop ts)
                (one_leaves t ts running kept exiting task_state_running e (λ dead. ground arith)
                  refl all)
                (Comes-fewer
                  (process_blocking_loop-sorted_into ts (running ++ t ∷ []) kept exiting oks all)
                  (λ u. omega (arith, count-leaves u t kept ts running))))
        | waits e ↦
            rw
              (
                e,
                sym (append_assoc kept (t ∷ []) ts),
                sym (append_assoc kept (t ∷ []) (those is_blocked s.state ts)),
              )
              (process_blocking_loop-sorted_into ts running (kept ++ t ∷ []) exiting oks
                (AllBlocked-append s.state kept t all (ap is_blocked e)))
        | stopped e ↦
            rw
              (
                e,
                sym (append_assoc kept (t ∷ []) ts),
                sym (append_assoc kept (t ∷ []) (those is_blocked s.state ts)),
              )
              (process_blocking_loop-sorted_into ts running (kept ++ t ∷ []) exiting oks
                (AllBlocked-append s.state kept t all (ap is_blocked e)))
        | exits e ↦
            rw (e, sym (append_assoc exiting (t ∷ []) (those is_exiting s.state ts)))
              (Comes-bind (process_blocking_loop ts)
                (one_leaves t ts running kept exiting task_state_exiting e (λ dead. ground arith)
                  refl all)
                (Comes-fewer
                  (process_blocking_loop-sorted_into ts running kept (exiting ++ t ∷ []) oks all)
                  (λ u. omega (arith, count-leaves u t kept ts exiting))))
        | dies e ↦ absurd (ground arith)
      ]

-- What leaves the blocking list.
abbrev pub unblocked : Scheduler → Scheduler
unblocked s = record s {
  running_tasks = s.running_tasks ++ those is_running s.state s.blocking_tasks;
  blocking_tasks = those is_blocked s.state s.blocking_tasks;
  exiting_tasks = s.exiting_tasks ++ those is_exiting s.state s.blocking_tasks;
}

pub process_blocking_list-unblocked :
    (s : Scheduler)
    → NoZombie s.state s.blocking_tasks
    → Comes (process_blocking_list s) (unblocked s) (places s)
unfolding process_blocking_list
process_blocking_list-unblocked s ok =
    process_blocking_loop-sorted_into s s.blocking_tasks s.running_tasks [] s.exiting_tasks ok tt

process_exiting_loop-empties :
    (ts : List ℕ) (s : Scheduler) → process_exiting_loop ts s ≡ record s { exiting_tasks = [] }
unfolding process_exiting_loop
process_exiting_loop-empties [] s = refl
process_exiting_loop-empties (t ∷ ts) s =
    process_exiting_loop-empties ts (record s { exiting_tasks = ts })

pub process_exiting_list-empties :
    (s : Scheduler) → process_exiting_list s ≡ record s { exiting_tasks = [] }
process_exiting_list-empties s = process_exiting_loop-empties s.exiting_tasks s
