-- ===== src/Priority/Scheduler/Inversion.antt =====
-- Priority inheritance in lab4_priority_inheritance_kernel_module, and what happens without it.
use ctu_real_time_systems_pr.Base.{
  Bool, List, Option, ap, arith, false, if◌then◌else◌, inl, inr, length, refl, replicate, some,
  true, ℕ, ℤ, ◌&&◌, ◌<◌, ◌∙◌, ◌≡◌, ◌≤◌,
}
use ctu_real_time_systems_pr.Priority.Tasks.{Reached, Low, High, Tasks, TaskStep}
use ctu_real_time_systems_pr.Priority.Tasks.Shutdown.{Reached-IsSound}
use ctu_real_time_systems_pr.Priority.Scheduler.{
  middle, holding, priority, Task, low, high, ready, low_ready, high_ready, high_waits, blocked,
  owns, may_run, current_priority, IsPreemptive, Wakes, RunningStep, Delayed,
}
use ctu_real_time_systems_pr.Priority.Scheduler.Blocked.{
  IsBlocked, IsSound-IsBlocked, not_ready, wake_keeps, Wakes-IsBlocked, IsReleased,
  Wakes-IsReleased, low_step, middle_step,
}

-- Who has CPU 0: with an inversion-safe mutex, and without one.
module _ (safe : Bool) (cpus : ℕ) (core : Tasks → ℕ → Option Task)
    (kernel : IsPreemptive safe cpus core) (some_cpu : 0 < cpus) where
  may_run-zero : (u : Task) → may_run u 0 ≡ true
  may_run-zero low = refl
  may_run-zero middle = refl
  may_run-zero high = refl

  -- A ready task that comes before every other ready one has a CPU.
  first_to_run :
      (s : Tasks) (u : Task)
      → ready s u ≡ true
      → ((t : Task)
          → ready s t ≡ true
          → current_priority safe s t ≤ current_priority safe s u
          → t ≡ u)
      → (cpu : ℕ) × (core s cpu ≡ some u)
  first_to_run s u h only = elim (kernel.is_first s 0 u some_cpu h (may_run-zero u)) [
    | inl found ↦ found
    | inr (t, e, p) ↦ (0, e ∙ ap some (only t (kernel.is_ready s 0 t e) p))
  ]

  -- A task that is pinned is on CPU 0.
  on_zero :
      (s : Tasks) (u : Task)
      → ((cpu : ℕ) → may_run u cpu ≡ true → cpu ≡ 0)
      → (cpu : ℕ) × (core s cpu ≡ some u)
      → core s 0 ≡ some u
  on_zero s u pinned (cpu, e) = rw (pinned cpu (kernel.is_allowed s cpu u e)) at e

  low_pinned : (cpu : ℕ) → may_run low cpu ≡ true → cpu ≡ 0
  low_pinned cpu h = ground (arith, h)

  middle_pinned : (cpu : ℕ) → may_run middle cpu ≡ true → cpu ≡ 0
  middle_pinned cpu h = ground (arith, h)

  released_high : (s : Tasks) → IsReleased s → (cpu : ℕ) × (core s cpu ≡ some high)
  released_high s b = first_to_run s high (can_go s.high_at s.mutex_free b.high_there b.given) only
    where
      can_go : (h : High) (free : Bool) → h ≡ High.taking → free ≡ true → high_ready h free ≡ true
      can_go h free p q = ground arith

      only : (t : Task) → ready s t ≡ true → current_priority safe s t ≤ priority high → t ≡ high
      only low r p = absurd (own_priority (high_waits s) (owns s.low_at) b.not_owned p)
        where
          own_priority :
              (w o : Bool)
              → o ≡ false
              → (if safe && (o && w) then priority high else priority low) ≤ priority high
              → ⊥
          own_priority w o e p = ground arith
      only middle r p = absurd (omega (arith, p))
      only high r p = refl

  -- Where a pinned task has CPU 0 and the high task is blocked, no other task has a CPU.
  alone_low :
      (s : Tasks) (cpu : ℕ) (x : Task)
      → IsBlocked s
      → core s 0 ≡ some low
      → core s cpu ≡ some x
      → x ≡ low
  alone_low s cpu low b z e = refl
  alone_low s cpu middle b z e = absurd (cc (z, on_zero s middle middle_pinned (cpu, e)))
  alone_low s cpu high b z e =
      absurd (not_ready s.high_at s.mutex_free b.high_there b.taken (kernel.is_ready s cpu high e))

  alone_middle :
      (s : Tasks) (cpu : ℕ) (x : Task)
      → IsBlocked s
      → core s 0 ≡ some middle
      → core s cpu ≡ some x
      → x ≡ middle
  alone_middle s cpu low b z e = absurd (cc (z, on_zero s low low_pinned (cpu, e)))
  alone_middle s cpu middle b z e = refl
  alone_middle s cpu high b z e =
      absurd (not_ready s.high_at s.mutex_free b.high_there b.taken (kernel.is_ready s cpu high e))

-- With an inversion-safe mutex the low task has CPU 0 while the high task is blocked.
module _ (cpus : ℕ) (core : Tasks → ℕ → Option Task) (kernel : IsPreemptive true cpus core)
    (some_cpu : 0 < cpus) where
  blocked_low : (s : Tasks) → IsBlocked s → core s 0 ≡ some low
  blocked_low s b =
      on_zero true cpus core kernel some_cpu s low (low_pinned true cpus core kernel some_cpu) (
        first_to_run true cpus core kernel some_cpu s low (can_go s.low_at s.mutex_free b.low_there)
          only)
    where
      can_go : (l : Low) (free : Bool) → l ≡ Low.working → low_ready l free ≡ true
      can_go l free p = ground arith

      raised :
          (l : Low) (h : High) (free : Bool)
          → l ≡ Low.working
          → h ≡ High.taking
          → free ≡ false
          → (if true && (owns l && blocked h free) then priority high else priority low)
            ≡ priority high
      raised l h free p q r = ground arith

      only :
          (t : Task)
          → ready s t ≡ true
          → current_priority true s t ≤ current_priority true s low
          → t ≡ low
      only low r p = refl
      only middle r p = absurd (
          omega (arith, p, raised s.low_at s.high_at s.mutex_free b.low_there b.high_there b.taken))
      only high r p = absurd (not_ready s.high_at s.mutex_free b.high_there b.taken r)

  -- With an inversion-safe mutex, on one CPU or more, whose kernel gives them to the ready tasks by
  -- priority, where the low and the middle task may run on CPU 0 only: where the high task is blocked in a
  -- reachable state, the low task has CPU 0, after whatever delays end, and the next step of any task is
  -- its step. After that step, and after whatever delays end then, the high task has a CPU, and can take
  -- the mutex by its next step.
  pub inheritance :
      (num_of_mes : ℤ) (s s' t t' : Tasks) (x : Task)
      → Reached num_of_mes s
      → high_waits s ≡ true
      → Wakes num_of_mes s s'
      → RunningStep core num_of_mes x s' t
      → Wakes num_of_mes t t'
      → (core s' 0 ≡ some low)
        × (x ≡ low)
        × ((u : Tasks) × RunningStep core num_of_mes high t' u × (u.high_at ≡ holding))
  inheritance num_of_mes s s' t t' x r h w (RunningStep.step _ cpu st e c) w' =
      let b =
        Wakes-IsBlocked num_of_mes s s' w
          (IsSound-IsBlocked num_of_mes s (Reached-IsSound num_of_mes s r) h) in
      let low_runs = blocked_low s' b in
      let is_low = alone_low true cpus core kernel some_cpu s' cpu x b low_runs c in
      let given =
        Wakes-IsReleased num_of_mes t t' w' (low_step num_of_mes s' t st (e ∙ ap some is_low) b) in
      let (there, high_runs) = released_high true cpus core kernel some_cpu t' given in
      (
        low_runs,
        is_low,
        (
          _,
          RunningStep.step _ there (TaskStep.high_takes given.high_there given.given) refl
              high_runs,
          refl,
        ),
      )

-- Without inheritance: the middle task keeps CPU 0 from the low one.
module _ (cpus : ℕ) (core : Tasks → ℕ → Option Task) (kernel : IsPreemptive false cpus core)
    (some_cpu : 0 < cpus) where
  middle_first : (s : Tasks) → IsBlocked s → ready s middle ≡ true → core s 0 ≡ some middle
  middle_first s b m =
      on_zero false cpus core kernel some_cpu s middle
        (middle_pinned false cpus core kernel some_cpu)
        (first_to_run false cpus core kernel some_cpu s middle m only)
    where
      only :
          (t : Task) → ready s t ≡ true → current_priority false s t ≤ priority middle → t ≡ middle
      only low r p = absurd (omega (arith, p))
      only middle r p = refl
      only high r p = absurd (not_ready s.high_at s.mutex_free b.high_there b.taken r)

  Delayed-IsBlocked :
      (num_of_mes : ℤ) (s t : Tasks) (xs : List Task)
      → Delayed core num_of_mes s xs t
      → IsBlocked s
      → IsBlocked t × (xs ≡ replicate (length xs) middle)
  Delayed-IsBlocked num_of_mes s _ _ Delayed.at_first b = (b, refl)
  Delayed-IsBlocked num_of_mes s _ _ (Delayed.woke xs t u d st e) b =
      let (before, only) = Delayed-IsBlocked num_of_mes s t xs d b in
      let (h, free, kept, _) = wake_keeps num_of_mes t u st e before.high_there in
      (
        record { high_there = h; low_there = kept before.low_there; taken = free ∙ before.taken },
        only,
      )
  Delayed-IsBlocked num_of_mes s _ _ (Delayed.worked xs t u x d m (RunningStep.step _ cpu st e c))
        b =
      let (before, only) = Delayed-IsBlocked num_of_mes s t xs d b in
      let is_middle =
        alone_middle false cpus core kernel some_cpu t cpu x before (middle_first t before m) c in
      (middle_step num_of_mes t u st (e ∙ ap some is_middle) before, rw (is_middle, ← only) refl)

  -- Without an inversion-safe mutex, on one CPU or more, whose kernel gives them to the ready tasks by
  -- priority, where the low and the middle task may run on CPU 0 only: if the high task is blocked in a
  -- reachable state, it stays blocked, and the low task keeps the mutex, through any number of steps of
  -- tasks and ends of delays, as long as the middle task is ready whenever a task makes a step; every such
  -- step is one of the middle task.
  pub inversion :
      (num_of_mes : ℤ) (s t : Tasks) (xs : List Task)
      → Reached num_of_mes s
      → high_waits s ≡ true
      → Delayed core num_of_mes s xs t
      → (high_waits t ≡ true) × (t.low_at ≡ Low.working) × (xs ≡ replicate (length xs) middle)
  inversion num_of_mes s t xs r h d =
      let (b, only) =
        Delayed-IsBlocked num_of_mes s t xs d
          (IsSound-IsBlocked num_of_mes s (Reached-IsSound num_of_mes s r) h) in
      (waits t.high_at t.mutex_free b.high_there b.taken, b.low_there, only)
    where
      waits : (h : High) (free : Bool) → h ≡ High.taking → free ≡ false → blocked h free ≡ true
      waits h free p q = ground arith
