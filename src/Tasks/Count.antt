-- ===== src/Tasks/Count.antt =====
-- How often a task stands in the lists that a pass leaves.
use hyrule.Prelude.{ℕ, ◌+◌, ◌≤◌, ◌≡◌, refl, ap, arith, Bool, true}
use hyrule.Prelude.{Option, none, some, List, [], ◌∷◌, ◌==◌, if◌then◌else◌, inl, inr}
use hyrule.Prelude.{Bool-cases, ==_iff}
use hyrule.Tasks.{
  count, TaskState, is_running, task_state_zombie, task_state_running, task_state_interruptible,
  task_state_uninterruptible, task_state_exiting,
}
use hyrule.Tasks.Select.{those, is_blocked, is_exiting}
use hyrule.Tasks.Pick.{first_running, before_first, behind_first}

pub count-those :
    (test : TaskState → Bool) (state : ℕ → TaskState) (t : ℕ) (xs : List ℕ)
    → count t (those test state xs) ≡ (if test (state t) then count t xs else 0)
unfolding count those
count-those test state t [] = ground arith
count-those test state t (x ∷ xs) = elim (Bool-cases (x == t)) [
  | inl same ↦
      let e : x ≡ t = (==_iff x t).0 same in rw e (ground (arith, count-those test state t xs))
  | inr other ↦ ground (arith, count-those test state t xs)
]

-- The states of the three lists exclude one another.
pub count_by_state :
    (state : ℕ → TaskState) (t : ℕ) (ts : List ℕ)
    → count t (those is_running state ts)
        + count t (those is_blocked state ts)
        + count t (those is_exiting state ts)
      ≤ count t ts
count_by_state state t ts =
    rw
      (
        count-those is_running state t ts,
        count-those is_blocked state t ts,
        count-those is_exiting state t ts,
      )
      (by_state (state t))
  where
    by_state :
        (x : TaskState)
        → (if is_running x then count t ts else 0)
            + (if is_blocked x then count t ts else 0)
            + (if is_exiting x then count t ts else 0)
          ≤ count t ts
    by_state task_state_zombie = omega arith
    by_state task_state_running = omega arith
    by_state task_state_interruptible = omega arith
    by_state task_state_uninterruptible = omega arith
    by_state task_state_exiting = omega arith

abbrev pub listed : Option ℕ → List ℕ
listed none = []
listed (some t) = t ∷ []

-- The first runnable task and those around it are the whole list.
pub count-first :
    (state : ℕ → TaskState) (t : ℕ) (xs : List ℕ)
    → count t (listed (first_running state xs))
        + count t (before_first state xs)
        + count t (behind_first state xs)
      ≡ count t xs
unfolding count first_running before_first behind_first
count-first state t [] = omega arith
count-first state t (x ∷ xs) = ground (arith, count-first state t xs)

pub count-before_first :
    (state : ℕ → TaskState) (t : ℕ) (xs : List ℕ)
    → is_running (state t) ≡ true
    → count t (before_first state xs) ≡ 0
unfolding count before_first
count-before_first state t [] e = refl
count-before_first state t (x ∷ xs) e = elim (Bool-cases (x == t)) [
  | inl same ↦ let here : x ≡ t = (==_iff x t).0 same in rw (here, e) refl
  | inr other ↦ ground (arith, count-before_first state t xs e)
]

-- None is chosen only if none is runnable, and the one chosen is.
pub first_running-none :
    (state : ℕ → TaskState) (t : ℕ) (xs : List ℕ)
    → first_running state xs ≡ none
    → is_running (state t) ≡ true
    → count t xs ≡ 0
unfolding count first_running
first_running-none state t [] e r = refl
first_running-none state t (x ∷ xs) e r = elim (Bool-cases (x == t)) [
  | inl same ↦ let here : state x ≡ state t = ap state ((==_iff x t).0 same) in ground (arith, here)
  | inr other ↦ ground (arith, first_running-none state t xs)
]

pub first_running-some :
    (state : ℕ → TaskState) (t : ℕ) (xs : List ℕ)
    → first_running state xs ≡ some t
    → is_running (state t) ≡ true
unfolding first_running
first_running-some state t [] e = ground arith
first_running-some state t (x ∷ xs) e = ground (arith, first_running-some state t xs)
