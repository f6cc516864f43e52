-- ===== src/Priority/Tasks/Shutdown.antt =====
-- The mutex and the end of the three tasks of lab4_priority_inheritance_kernel_module/utils.c.
use ctu_real_time_systems_pr.Base.{
  Bool, ap, arith, false, inl, inr, pos_part, refl, sym, true, ℕ, ℤ, ◌+◌, ◌<◌, ◌∙◌, ◌≡◌, ◌≤◌, ◌⊎◌,
}
use ctu_real_time_systems_pr.Priority.Tasks.{
  Reached, Middle, Low, High, Tasks, TaskStep, looping, holding,
}

abbrev pub low_holds : Low → ℕ
low_holds Low.working = 1
low_holds _ = 0

abbrev pub high_holds : High → ℕ
high_holds holding = 1
high_holds _ = 0

abbrev pub is_free : Bool → ℕ
is_free true = 1
is_free false = 0

-- The high task is within a round, or at its end.
abbrev pub in_round : High → Bool
in_round looping = false
in_round High.stopped = false
in_round _ = true

abbrev pub has_stopped : High → Bool
has_stopped High.stopped = true
has_stopped _ = false

pub record IsSound (num_of_mes : ℤ) (s : Tasks) : Type 0 where
  pub one_holder : is_free s.mutex_free + low_holds s.low_at + high_holds s.high_at ≡ 1
  pub end_told : s.ended ≡ has_stopped s.high_at
  pub counted : s.measured ≤ pos_part num_of_mes
  pub round_left : in_round s.high_at ≡ true → s.measured < pos_part num_of_mes
  pub all_measured : s.ended ≡ true → s.measured ≡ pos_part num_of_mes

pub step-IsSound :
    (num_of_mes : ℤ) (s t : Tasks)
    → TaskStep num_of_mes s t
    → IsSound num_of_mes s
    → IsSound num_of_mes t
step-IsSound num_of_mes s t (TaskStep.low_goes_on e e') v = ground (arith, ap low_holds e)
step-IsSound num_of_mes s t (TaskStep.low_stops e e') v = ground (arith, ap low_holds e)
step-IsSound num_of_mes s t (TaskStep.low_takes e e') v =
    ground (arith, ap low_holds e, ap is_free e')
step-IsSound num_of_mes s t (TaskStep.low_gives e) v = ground (arith, ap low_holds e)
step-IsSound num_of_mes s t (TaskStep.low_wakes e) v = ground (arith, ap low_holds e)
step-IsSound num_of_mes s t (TaskStep.middle_goes_on e e') v = ground arith
step-IsSound num_of_mes s t (TaskStep.middle_stops e e') v = ground arith
step-IsSound num_of_mes s t (TaskStep.middle_works e) v = ground arith
step-IsSound num_of_mes s t (TaskStep.middle_wakes e) v = ground arith
step-IsSound num_of_mes s t (TaskStep.high_goes_on e e') v =
    ground (arith, ap high_holds e, ap in_round e, ap has_stopped e)
step-IsSound num_of_mes s t (TaskStep.high_stops e e') v =
    ground (arith, ap high_holds e, ap in_round e, ap has_stopped e)
step-IsSound num_of_mes s t (TaskStep.high_takes e e') v =
    ground (arith, ap high_holds e, ap in_round e, ap has_stopped e, ap is_free e')
step-IsSound num_of_mes s t (TaskStep.high_gives e) v =
    ground (arith, ap high_holds e, ap in_round e, ap has_stopped e)
step-IsSound num_of_mes s t (TaskStep.high_wakes e) v =
    ground (arith, ap high_holds e, ap in_round e, ap has_stopped e)

-- In every reachable state the mutex is free, or exactly one of the low and the high task holds it;
-- `end` is set exactly when the high task has finished, no sooner than after all its measurements,
-- and no measurement is made beyond them.
pub Reached-IsSound : (num_of_mes : ℤ) (s : Tasks) → Reached num_of_mes s → IsSound num_of_mes s
Reached-IsSound num_of_mes s Reached.start = record {
  one_holder = refl;
  end_told = refl;
  counted = omega arith;
  round_left = λ e. ground arith;
  all_measured = λ e. ground arith;
}
Reached-IsSound num_of_mes _ (Reached.next s t r st) =
    step-IsSound num_of_mes s t st (Reached-IsSound num_of_mes s r)

-- How many steps a task may still make once `end` is set.
abbrev pub low_left : Low → ℕ
low_left Low.stopped = 0
low_left Low.testing = 1
low_left Low.delaying = 2
low_left Low.working = 3
low_left Low.taking = 4

abbrev pub middle_left : Middle → ℕ
middle_left Middle.stopped = 0
middle_left Middle.testing = 1
middle_left Middle.delaying = 2
middle_left Middle.working = 3

abbrev pub steps_left : Tasks → ℕ
steps_left s = low_left s.low_at + middle_left s.middle_at

step_counts :
    (num_of_mes : ℤ) (s t : Tasks)
    → has_stopped s.high_at ≡ true
    → s.ended ≡ true
    → TaskStep num_of_mes s t
    → (t.ended ≡ true) × (steps_left t + 1 ≡ steps_left s)
step_counts num_of_mes s t h k (TaskStep.low_goes_on e e') = ground arith
step_counts num_of_mes s t h k (TaskStep.low_stops e e') = ground (arith, ap low_left e)
step_counts num_of_mes s t h k (TaskStep.low_takes e e') = ground (arith, ap low_left e)
step_counts num_of_mes s t h k (TaskStep.low_gives e) = ground (arith, ap low_left e)
step_counts num_of_mes s t h k (TaskStep.low_wakes e) = ground (arith, ap low_left e)
step_counts num_of_mes s t h k (TaskStep.middle_goes_on e e') = ground arith
step_counts num_of_mes s t h k (TaskStep.middle_stops e e') = ground (arith, ap middle_left e)
step_counts num_of_mes s t h k (TaskStep.middle_works e) = ground (arith, ap middle_left e)
step_counts num_of_mes s t h k (TaskStep.middle_wakes e) = ground (arith, ap middle_left e)
step_counts num_of_mes s t h k (TaskStep.high_goes_on e e') = ground (arith, ap has_stopped e)
step_counts num_of_mes s t h k (TaskStep.high_stops e e') = ground (arith, ap has_stopped e)
step_counts num_of_mes s t h k (TaskStep.high_takes e e') = ground (arith, ap has_stopped e)
step_counts num_of_mes s t h k (TaskStep.high_gives e) = ground (arith, ap has_stopped e)
step_counts num_of_mes s t h k (TaskStep.high_wakes e) = ground (arith, ap has_stopped e)

-- Once the high task has finished, a task that has not is never blocked.
can_step :
    (num_of_mes : ℤ) (l : Low) (m : Middle) (h : High) (free ended : Bool) (n : ℕ)
    → let s : Tasks = record {
      low_at = l;
      middle_at = m;
      high_at = h;
      mutex_free = free;
      ended = ended;
      measured = n;
    } in
      has_stopped h ≡ true
      → ended ≡ true
      → is_free free + low_holds l + high_holds h ≡ 1
      → (steps_left s ≡ 0) ⊎ ((t : Tasks) × TaskStep num_of_mes s t)
can_step num_of_mes Low.testing m h free ended n stopped e one = inr (_, TaskStep.low_stops refl e)
can_step num_of_mes Low.taking m h free ended n stopped e one =
    inr (_, TaskStep.low_takes refl (is_given h free stopped one))
  where
    is_given :
        (h : High) (free : Bool)
        → has_stopped h ≡ true
        → is_free free + 0 + high_holds h ≡ 1
        → free ≡ true
    is_given h free p q = ground arith
can_step num_of_mes Low.working m h free ended n stopped e one = inr (_, TaskStep.low_gives refl)
can_step num_of_mes Low.delaying m h free ended n stopped e one = inr (_, TaskStep.low_wakes refl)
can_step num_of_mes Low.stopped Middle.testing h free ended n stopped e one =
    inr (_, TaskStep.middle_stops refl e)
can_step num_of_mes Low.stopped Middle.working h free ended n stopped e one =
    inr (_, TaskStep.middle_works refl)
can_step num_of_mes Low.stopped Middle.delaying h free ended n stopped e one =
    inr (_, TaskStep.middle_wakes refl)
can_step num_of_mes Low.stopped Middle.stopped h free ended n stopped e one = inl refl

-- Once `end` is set, in any reachable state, the tasks shut down: they make 7 steps at most, each
-- of which leaves one less, and as long as one is left a step can be made.
pub tasks_shut_down :
    (num_of_mes : ℤ) (s : Tasks)
    → Reached num_of_mes s
    → s.ended ≡ true
    → (steps_left s ≤ 7)
      × ((t : Tasks)
          → TaskStep num_of_mes s t
          → (t.ended ≡ true) × (steps_left t + 1 ≡ steps_left s))
      × ((steps_left s ≡ 0) ⊎ ((t : Tasks) × TaskStep num_of_mes s t))
tasks_shut_down num_of_mes s r e = (
  at_most s.low_at s.middle_at,
  (λ t st. step_counts num_of_mes s t (sym v.end_told ∙ e) e st),
  can_step num_of_mes s.low_at s.middle_at s.high_at s.mutex_free s.ended s.measured
      (sym v.end_told ∙ e) e v.one_holder,
)
  where
    v : IsSound num_of_mes s
    v = Reached-IsSound num_of_mes s r

    at_most : (l : Low) (m : Middle) → low_left l + middle_left m ≤ 7
    at_most l m = ground arith
