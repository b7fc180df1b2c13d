-- ===== src/Tasks/Comes.antt =====
-- A pass over the queues comes to what it should, or an element is on the lists twice.
use hyrule.Prelude.{
  ℕ, suc, ◌+◌, ◌≤◌, ◌<◌, ◌≡◌, ◌≢◌, refl, arith, Option, none, some, List, [], ◌∷◌, ◌++◌,
}
use hyrule.Prelude.{true, false, ◌==◌, Bool-cases, inl, inr}
use hyrule.Tasks.{
  bind, count, places, Scheduler, TaskState, task_state_zombie, task_state_running,
  task_state_interruptible, task_state_uninterruptible, task_state_exiting, schedule_as,
  schedule_task,
}

-- `number` counts, for each task, its places before the pass.
pub data Comes {A : Type 0} (o : Option A) (x : A) (number : ℕ → ℕ) : Type 0 where
  comes : o ≡ some x → Comes o x number
  collides : (t : ℕ) → o ≡ none → 1 < number t → Comes o x number

module _ {A : Type 0} where
  pub Comes-fewer :
      {o : Option A} {x : A} {few many : ℕ → ℕ}
      → Comes o x few
      → ((t : ℕ) → few t ≤ many t)
      → Comes o x many
  Comes-fewer (comes e) le = comes e
  Comes-fewer (collides t e twice) le = collides t e (omega (arith, le t))

  pub Comes-some :
      {o : Option A} {x : A} {number : ℕ → ℕ}
      → Comes o x number
      → ((t : ℕ) → number t ≤ 1)
      → o ≡ some x
  Comes-some (comes e) once = e
  Comes-some (collides t e twice) once = absurd (omega (arith, once t))

  pub Comes-bind :
      {B : Type 0} {o : Option A} {y : A} {x : B} {number : ℕ → ℕ} (f : A → Option B)
      → Comes o y number
      → Comes (f y) x number
      → Comes (bind o f) x number
  Comes-bind f (comes e) next = rw e next
  Comes-bind f (collides t e twice) next = rw e (collides t refl twice)

pub count-append : (t : ℕ) (xs ys : List ℕ) → count t (xs ++ ys) ≡ count t xs + count t ys
unfolding count
count-append t [] ys = omega arith
count-append t (x ∷ xs) ys = ground (arith, count-append t xs ys)

-- A task that goes from the front of one list to the end of another.
pub count-moves :
    (u t : ℕ) (ts xs : List ℕ) → count u ts + count u (xs ++ t ∷ []) ≡ count u (t ∷ ts) + count u xs
unfolding count
count-moves u t ts xs = ground (arith, count-append u xs (t ∷ []))

-- And from between two parts of a list.
pub count-leaves :
    (u t : ℕ) (kept ts xs : List ℕ)
    → count u (kept ++ ts) + count u (xs ++ t ∷ []) ≡ count u (kept ++ t ∷ ts) + count u xs
count-leaves u t kept ts xs =
    omega (arith, count-append u kept ts, count-append u kept (t ∷ ts), count-moves u t ts xs)

pub count-first_one : (t : ℕ) (ts : List ℕ) → count t (t ∷ ts) ≡ suc (count t ts)
unfolding count
count-first_one t ts = ground arith

-- The list that a task in this state goes to.
abbrev pub put_on : Scheduler → ℕ → TaskState → Scheduler
put_on s t task_state_running = record s { running_tasks = s.running_tasks ++ t ∷ [] }
put_on s t task_state_interruptible = record s { blocking_tasks = s.blocking_tasks ++ t ∷ [] }
put_on s t task_state_uninterruptible = record s { blocking_tasks = s.blocking_tasks ++ t ∷ [] }
put_on s t task_state_exiting = record s { exiting_tasks = s.exiting_tasks ++ t ∷ [] }
put_on s t task_state_zombie = s

module _ (s : Scheduler) (t : ℕ) where
  schedule_as-detached :
      (x : TaskState)
      → x ≢ task_state_zombie
      → (places s t == 0) ≡ true
      → schedule_as s t x ≡ some (put_on s t x)
  schedule_as-detached task_state_running lives free = rw free refl
  schedule_as-detached task_state_interruptible lives free = rw free refl
  schedule_as-detached task_state_uninterruptible lives free = rw free refl
  schedule_as-detached task_state_exiting lives free = rw free refl
  schedule_as-detached task_state_zombie lives free = absurd (lives refl)

  schedule_as-linked : (x : TaskState) → (places s t == 0) ≡ false → schedule_as s t x ≡ none
  schedule_as-linked task_state_running linked = rw linked refl
  schedule_as-linked task_state_interruptible linked = rw linked refl
  schedule_as-linked task_state_uninterruptible linked = rw linked refl
  schedule_as-linked task_state_exiting linked = rw linked refl
  schedule_as-linked task_state_zombie linked = refl

  pub schedule_task-Comes :
      (x : TaskState)
      → s.state t ≡ x
      → x ≢ task_state_zombie
      → Comes (schedule_task s t) (put_on s t x) (λ u. count u (t ∷ []) + places s u)
  unfolding schedule_task
  schedule_task-Comes x e lives = elim (Bool-cases (places s t == 0)) [
    | inl free ↦ rw e (comes (schedule_as-detached x lives free))
    | inr linked ↦
        rw e (collides t (schedule_as-linked x linked) (ground (arith, count-first_one t [])))
  ]
