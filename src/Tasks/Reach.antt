-- ===== src/Tasks/Reach.antt =====
-- The steps of a schedule, and what no step undoes: a task that is exiting and in no queue stays so.
use hyrule.Prelude.{ℕ, ◌≡◌, ◌≢◌, refl, sym, ap, arith, true, false}
use hyrule.Prelude.{
  Option, none, some, List, [], ◌∷◌, ◌++◌, ◌==◌, if◌then◌else◌, inl, inr, Bool-cases, ==_iff,
}
use mathlib.Core.Path.{subst}
use hyrule.Tasks.{
  TaskState, Scheduler, bind, userspace_trap_handler, transit_state, transition_table,
  raw_task_wake_up, wake_as, wake_up, do_exit, schedule_task, can_continue, task_state_running,
  task_state_zombie, task_state_interruptible, task_state_uninterruptible, task_state_exiting,
}
use hyrule.Tasks.Select.{is_zombie}
use hyrule.Tasks.{count}
use hyrule.Tasks.Comes.{comes, collides, schedule_task-Comes, count-append}
use hyrule.Tasks.Switch.{Alive, HasStacks, yielding, switched, userspace_trap_handler-Comes}
use hyrule.Tasks.Places.{tasks_of, never_more}

-- A change of state, a wake-up of a queue, a yield on a stack, an exit of the running task, and the
-- start of a task that is set to run.
pub data Step (s after : Scheduler) : Type 0 where
  transits : (t : ℕ) (target : TaskState) → transit_state s t target ≡ some after → Step s after
  wakes : (ts : List ℕ) → wake_up ts s ≡ some after → Step s after
  yields : (cpu : ℕ) → cpu ≢ 0 → userspace_trap_handler cpu s ≡ some after → Step s after
  exits : (cpu t : ℕ) → cpu ≢ 0 → do_exit cpu s t ≡ some after → Step s after
  starts : (t : ℕ) → s.state t ≡ task_state_running → schedule_task s t ≡ some after → Step s after

pub data Reaches : Scheduler → Scheduler → Type 0 where
  here : (s : Scheduler) → Reaches s s
  there : (s middle after : Scheduler) → Step s middle → Reaches middle after → Reaches s after

-- Of the result, if there is one.
abbrev pub Whenever : Option Scheduler → (Scheduler → Type 0) → Type 0
Whenever none P = Unit
Whenever (some s) P = P s

pub Whenever-bind :
    (P Q : Scheduler → Type 0) (o : Option Scheduler) (next : Scheduler → Option Scheduler)
    → Whenever o P
    → ((s : Scheduler) → P s → Whenever (next s) Q)
    → Whenever (bind o next) Q
Whenever-bind P Q none next p f = tt
Whenever-bind P Q (some s) next p f = f s p

-- The task is exiting and in no queue that it could be chosen from.
pub record Gone (t : ℕ) (s : Scheduler) : Type 0 where
  pub alive : Alive s.state
  pub stacks : HasStacks s
  pub exited : s.state t ≡ task_state_exiting
  pub nowhere : count t (tasks_of s) ≡ 0

-- The table leads to no zombie but from one, and nowhere from an exiting task.
never_zombie :
    (x target : TaskState)
    → transition_table x target ≡ true
    → is_zombie x ≡ false
    → is_zombie target ≡ false
unfolding transition_table
never_zombie task_state_zombie target e z = absurd (ground arith)
never_zombie task_state_running task_state_zombie e z = absurd (ground arith)
never_zombie task_state_interruptible task_state_zombie e z = absurd (ground arith)
never_zombie task_state_uninterruptible task_state_zombie e z = absurd (ground arith)
never_zombie task_state_exiting task_state_zombie e z = absurd (ground arith)
never_zombie x task_state_running e z = refl
never_zombie x task_state_interruptible e z = refl
never_zombie x task_state_uninterruptible e z = refl
never_zombie x task_state_exiting e z = refl

stays_exiting :
    (target : TaskState)
    → transition_table task_state_exiting target ≡ true
    → target ≡ task_state_exiting
unfolding transition_table
stays_exiting task_state_zombie e = absurd (ground arith)
stays_exiting task_state_running e = absurd (ground arith)
stays_exiting task_state_interruptible e = absurd (ground arith)
stays_exiting task_state_uninterruptible e = absurd (ground arith)
stays_exiting task_state_exiting e = refl

pub Alive-after :
    (state : ℕ → TaskState) (u : ℕ) (target : TaskState)
    → Alive state
    → is_zombie target ≡ false
    → Alive (λ v. if v == u then target else state v)
Alive-after state u target alive z v = elim (Bool-cases (v == u)) [
  | inl same ↦ rw same z
  | inr other ↦ rw other (alive v)
]

module _ (t : ℕ) where
  transit-Gone :
      (s : Scheduler) (u : ℕ) (target : TaskState)
      → Gone t s
      → Whenever (transit_state s u target) (Gone t)
  unfolding transit_state
  transit-Gone s u target g = elim (Bool-cases (transition_table (s.state u) target)) [
    | inr refused ↦ rw refused tt
    | inl allowed ↦ rw allowed (record {
      alive =
          Alive-after s.state u target g.alive
            (never_zombie (s.state u) target allowed (g.alive u));
      stacks = g.stacks;
      exited = elim (Bool-cases (t == u)) [
        | inl same ↦
            let e : t ≡ u = (==_iff t u).0 same in
            rw same (stays_exiting target (rw (sym e, g.exited) at allowed))
        | inr other ↦ rw other g.exited
      ];
      nowhere = g.nowhere;
    })
  ]

  wake_as-Gone :
      (s : Scheduler) (u : ℕ) (x : TaskState) → Gone t s → Whenever (wake_as s u x) (Gone t)
  wake_as-Gone s u task_state_zombie g = tt
  wake_as-Gone s u task_state_running g = g
  wake_as-Gone s u task_state_interruptible g = transit-Gone s u task_state_running g
  wake_as-Gone s u task_state_exiting g = tt
  wake_as-Gone s u task_state_uninterruptible g =
      elim (Bool-cases (can_continue (s.non_stop_state u))) [
        | inl may ↦
            rw may (record {
              alive = g.alive;
              stacks = g.stacks;
              exited = g.exited;
              nowhere = g.nowhere;
            })
        | inr may_not ↦ rw may_not tt
      ]

  wake_up-Gone : (ts : List ℕ) (s : Scheduler) → Gone t s → Whenever (wake_up ts s) (Gone t)
  unfolding wake_up raw_task_wake_up
  wake_up-Gone [] s g = g
  wake_up-Gone (u ∷ ts) s g =
      Whenever-bind (Gone t) (Gone t) (wake_as s u (s.state u)) (wake_up ts)
        (wake_as-Gone s u (s.state u) g) (λ woken. wake_up-Gone ts woken)

  pub saved_stacks : (cpu : ℕ) (s : Scheduler) → cpu ≢ 0 → HasStacks s → HasStacks (switched cpu s)
  saved_stacks cpu s valid stacks c = ground (arith, stacks c)

  yield-Gone :
      (cpu : ℕ) (s : Scheduler)
      → cpu ≢ 0
      → Gone t s
      → Whenever (userspace_trap_handler cpu s) (Gone t)
  yield-Gone cpu s valid g = elim (userspace_trap_handler-Comes cpu s g.alive valid g.stacks) [
    | comes e ↦ rw e (record {
      alive = g.alive;
      stacks = saved_stacks cpu s valid g.stacks;
      exited = g.exited;
      nowhere = omega (arith, never_more cpu s g.alive t (s.state t) refl, g.nowhere);
    })
    | collides u e twice ↦ rw e tt
  ]

  start-Gone :
      (s : Scheduler) (u : ℕ)
      → s.state u ≡ task_state_running
      → Gone t s
      → Whenever (schedule_task s u) (Gone t)
  unfolding count
  start-Gone s u runs g = elim (schedule_task-Comes s u task_state_running runs alive_state) [
    | collides v e twice ↦ rw e tt
    | comes e ↦ rw e (record {
      alive = g.alive;
      stacks = g.stacks;
      exited = g.exited;
      nowhere = ground (
        arith,
        differ,
        g.nowhere,
        count-append t (yielding s.current) ((s.running_tasks ++ u ∷ []) ++ s.blocking_tasks),
        count-append t (s.running_tasks ++ u ∷ []) s.blocking_tasks,
        count-append t s.running_tasks (u ∷ []),
        count-append t (yielding s.current) (s.running_tasks ++ s.blocking_tasks),
        count-append t s.running_tasks s.blocking_tasks,
      );
    })
  ]
    where
      alive_state : task_state_running ≢ task_state_zombie
      alive_state dead = ground arith

      differ : u ≢ t
      differ same = ground (arith, ap s.state same, g.exited, runs)

  exit-Gone :
      (cpu : ℕ) (s : Scheduler) (u : ℕ) → cpu ≢ 0 → Gone t s → Whenever (do_exit cpu s u) (Gone t)
  unfolding do_exit
  exit-Gone cpu s u valid g =
      let marked : Scheduler = record s {
        wait_state_exited = λ v. if v == u then true else s.wait_state_exited v;
      } in
      Whenever-bind (Gone t) (Gone t) (wake_up (s.wq_state_notification u) marked)
        (λ woken. bind (transit_state woken u task_state_exiting) (userspace_trap_handler cpu))
        (wake_up-Gone (s.wq_state_notification u) marked
          (record { alive = g.alive; stacks = g.stacks; exited = g.exited; nowhere = g.nowhere }))
        (λ woken gone.
          Whenever-bind (Gone t) (Gone t) (transit_state woken u task_state_exiting)
            (userspace_trap_handler cpu) (transit-Gone woken u task_state_exiting gone)
            (λ exiting still. yield-Gone cpu exiting valid still))

  Step-Gone : (s after : Scheduler) → Step s after → Gone t s → Gone t after
  Step-Gone s after (transits u target e) g =
      subst (λ o. Whenever o (Gone t)) e (transit-Gone s u target g)
  Step-Gone s after (wakes ts e) g = subst (λ o. Whenever o (Gone t)) e (wake_up-Gone ts s g)
  Step-Gone s after (yields cpu valid e) g =
      subst (λ o. Whenever o (Gone t)) e (yield-Gone cpu s valid g)
  Step-Gone s after (exits cpu u valid e) g =
      subst (λ o. Whenever o (Gone t)) e (exit-Gone cpu s u valid g)
  Step-Gone s after (starts u runs e) g = subst (λ o. Whenever o (Gone t)) e (start-Gone s u runs g)

  pub Reaches-Gone : (s after : Scheduler) → Reaches s after → Gone t s → Gone t after
  Reaches-Gone s after (here _) g = g
  Reaches-Gone s after (there _ middle _ step rest) g =
      Reaches-Gone middle after rest (Step-Gone s middle step g)
