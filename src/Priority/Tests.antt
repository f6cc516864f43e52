-- ===== src/Priority/Tests.antt =====
-- The theorems on the times at readings that meet their hypotheses.
use ctu_real_time_systems_pr.Base.{
  Bool, List, Option, [], arith, false, if◌then◌else◌, inl, inr, ltb_ℤ, none, pos, refl, replicate,
  some, suc, true, zero, ℕ, ◌&&◌, ◌+◌, ◌-ℤ◌, ◌<◌, ◌∷◌, ◌≡◌, ◌≤◌, ◌⊎◌,
}
use ctu_real_time_systems_pr.Priority.Setup.{Task, low, middle, high}
use ctu_real_time_systems_pr.Priority.Scheduler.{
  current_priority, ready, low_ready, high_waits, owns, IsPreemptive, Wakes, RunningStep, Delayed,
  may_run,
}
use ctu_real_time_systems_pr.Priority.Scheduler.Inversion.{inheritance, inversion}
use ctu_real_time_systems_pr.Priority.Tasks.{Low, Middle, High, Tasks, TaskStep, Reached}
use ctu_real_time_systems_pr.Priority.Tasks.Shutdown.{steps_left, tasks_shut_down}
use ctu_real_time_systems_pr.Priority.{Timespec, timespec_subtract}
use ctu_real_time_systems_pr.Priority.Time.{at, nanoseconds, IsTime, timespec_subtract_lem}

timespec_subtract_lem_example :
    (nanoseconds (timespec_subtract (at (pos 7) 5) (at (pos 4) 999999999)).0
      ≡ nanoseconds (at (pos 7) 5) -ℤ nanoseconds (at (pos 4) 999999999))
    × IsTime (timespec_subtract (at (pos 7) 5) (at (pos 4) 999999999)).0
    × ((timespec_subtract (at (pos 7) 5) (at (pos 4) 999999999)).1
        ≡ ltb_ℤ (nanoseconds (at (pos 7) 5)) (nanoseconds (at (pos 4) 999999999)))
timespec_subtract_lem_example =
    timespec_subtract_lem (pos 7) (pos 4) 5 999999999 (omega arith) (omega arith)

abbrev waits : List (Timespec × Timespec)
waits = (at (pos 1) 0, at (pos 1) 5000000) ∷ (at (pos 2) 0, at (pos 2) 3000000) ∷ []

-- One measurement, in which the low task comes to wait for the mutex before the end.
abbrev before_end : Tasks
before_end = record {
  low_at = Low.taking;
  middle_at = Middle.testing;
  high_at = High.looping;
  mutex_free = true;
  ended = false;
  measured = 1;
}

before_end-Reached : Reached (pos 1) before_end
before_end-Reached =
    Reached.next _ _
      (Reached.next _ _
        (Reached.next _ _
          (Reached.next _ _ (Reached.next _ _ Reached.start (TaskStep.high_goes_on refl refl))
            (TaskStep.high_takes refl refl))
          (TaskStep.low_goes_on refl refl))
        (TaskStep.high_gives refl))
      (TaskStep.high_wakes refl)

abbrev after_end : Tasks
after_end = record before_end { high_at = High.stopped; ended = true }

after_end-Reached : Reached (pos 1) after_end
after_end-Reached = Reached.next _ _ before_end-Reached (TaskStep.high_stops refl refl)

tasks_shut_down_example :
    (steps_left after_end ≤ 7)
    × ((t : Tasks)
        → TaskStep (pos 1) after_end t
        → (t.ended ≡ true) × (steps_left t + 1 ≡ steps_left after_end))
    × ((steps_left after_end ≡ 0) ⊎ ((t : Tasks) × TaskStep (pos 1) after_end t))
tasks_shut_down_example = tasks_shut_down (pos 1) after_end after_end-Reached refl

-- A scheduler of two CPUs: CPU 1 is for the high task; CPU 0 goes to the low task with the priority of the
-- high one, the middle task, and the low task, in this order.
abbrev first_of : Bool → Bool → Bool → Option Task
first_of raised middle_can low_can =
    if raised
    then some low
    else (if middle_can then some middle else (if low_can then some low else none))

abbrev cores : Bool → Tasks → ℕ → Option Task
cores safe s zero =
    first_of (safe && (owns s.low_at && high_waits s)) (ready s middle) (ready s low)
cores safe s (suc zero) = if ready s high then some high else none
cores safe s (suc (suc n)) = none

first_ready :
    (s : Tasks) (w : Bool) (t : Task)
    → (w ≡ true → ready s low ≡ true)
    → first_of w (ready s middle) (ready s low) ≡ some t
    → (ready s t ≡ true) × (may_run t 0 ≡ true)
first_ready s w low k e = (go w (ready s middle) (ready s low) k e, refl)
  where
    go : (w m l : Bool) → (w ≡ true → l ≡ true) → first_of w m l ≡ some low → l ≡ true
    go w m l k e = ground arith
first_ready s w middle k e = (go w (ready s middle) (ready s low) e, refl)
  where
    go : (w m l : Bool) → first_of w m l ≡ some middle → m ≡ true
    go w m l e = ground arith
first_ready s w high k e = absurd (go w (ready s middle) (ready s low) e)
  where
    go : (w m l : Bool) → first_of w m l ≡ some high → ⊥
    go w m l e = ground arith

owner_ready :
    (safe b free : Bool) (l : Low) → (safe && (owns l && b)) ≡ true → low_ready l free ≡ true
owner_ready safe b free l h = ground arith

high_core :
    (s : Tasks) (t : Task)
    → (if ready s high then some high else none) ≡ some t
    → (ready s t ≡ true) × (may_run t 1 ≡ true)
high_core s low e = absurd (go (ready s high) e)
  where
    go : (h : Bool) → (if h then some high else none) ≡ some low → ⊥
    go h e = ground arith
high_core s middle e = absurd (go (ready s high) e)
  where
    go : (h : Bool) → (if h then some high else none) ≡ some middle → ⊥
    go h e = ground arith
high_core s high e = (go (ready s high) e, refl)
  where
    go : (h : Bool) → (if h then some high else none) ≡ some high → h ≡ true
    go h e = ground arith

core_task :
    (safe : Bool) (s : Tasks) (cpu : ℕ) (t : Task)
    → cores safe s cpu ≡ some t
    → (ready s t ≡ true) × (may_run t cpu ≡ true)
core_task safe s zero t e =
    first_ready s (safe && (owns s.low_at && high_waits s)) t
      (owner_ready safe (high_waits s) s.mutex_free s.low_at) e
core_task safe s (suc zero) t e = high_core s t e
core_task safe s (suc (suc n)) t e = cc

low_or_middle :
    (w m l : Bool)
    → l ≡ true
    → (first_of w m l ≡ some low) ⊎ ((first_of w m l ≡ some middle) × (w ≡ false))
low_or_middle true m l e = inl refl
low_or_middle false true l e = inr (refl, refl)
low_or_middle false false l e = inl (rw e refl)

middle_or_low :
    (w m l : Bool)
    → m ≡ true
    → (first_of w m l ≡ some middle) ⊎ ((first_of w m l ≡ some low) × (w ≡ true))
middle_or_low true m l e = inr (refl, refl)
middle_or_low false m l e = inl (rw e refl)

core_first :
    (safe : Bool) (s : Tasks) (cpu : ℕ) (u : Task)
    → cpu < 2
    → ready s u ≡ true
    → may_run u cpu ≡ true
    → ((c : ℕ) × (cores safe s c ≡ some u))
      ⊎ ((t : Task) × (cores safe s cpu ≡ some t)
          × (current_priority safe s t ≤ current_priority safe s u))
core_first safe s zero low lt r a =
    elim (low_or_middle (safe && (owns s.low_at && high_waits s)) (ready s middle) (ready s low)
      r) [ inl e ↦ inl (0, e) | inr (e, f) ↦ inr (middle, e, rw f (omega arith)) ]
core_first safe s zero middle lt r a =
    elim (middle_or_low (safe && (owns s.low_at && high_waits s)) (ready s middle) (ready s low)
      r) [ inl e ↦ inl (0, e) | inr (e, f) ↦ inr (low, e, rw f (omega arith)) ]
core_first safe s (suc n) low lt r a = absurd (ground (arith, a))
core_first safe s (suc n) middle lt r a = absurd (ground (arith, a))
core_first safe s cpu high lt r a = inl (1, rw r refl)

cores-IsPreemptive : (safe : Bool) → IsPreemptive safe 2 (cores safe)
cores-IsPreemptive safe = record {
  is_ready = λ s cpu t e. (core_task safe s cpu t e).0;
  is_allowed = λ s cpu t e. (core_task safe s cpu t e).1;
  is_first = λ s cpu u lt r a. core_first safe s cpu u lt r a;
}

-- The low task has the mutex, the high task comes to wait for it, and the middle task is ready.
abbrev crossed : Tasks
crossed = record {
  low_at = Low.working;
  middle_at = Middle.testing;
  high_at = High.taking;
  mutex_free = false;
  ended = false;
  measured = 0;
}

crossed-Reached : Reached (pos 1) crossed
crossed-Reached =
    Reached.next _ _
      (Reached.next _ _ (Reached.next _ _ Reached.start (TaskStep.low_goes_on refl refl))
        (TaskStep.low_takes refl refl))
      (TaskStep.high_goes_on refl refl)

abbrev given : Tasks
given = record crossed { low_at = Low.delaying; mutex_free = true }

abbrev woken : Tasks
woken = record given { low_at = Low.testing }

inheritance_example :
    (cores true crossed 0 ≡ some low)
    × (low ≡ low)
    × ((u : Tasks) × RunningStep (cores true) (pos 1) high woken u × (u.high_at ≡ High.holding))
inheritance_example =
    inheritance 2 (cores true) (cores-IsPreemptive true) (omega arith) (pos 1) crossed crossed given
      woken low crossed-Reached refl Wakes.asleep
      (RunningStep.step given 0 (TaskStep.low_gives refl) refl refl)
      (Wakes.wake given woken Wakes.asleep (TaskStep.low_wakes refl) refl)

-- The middle task makes two steps.
abbrev tested : Tasks
tested = record crossed { middle_at = Middle.working }

abbrev worked : Tasks
worked = record crossed { middle_at = Middle.delaying }

inversion_example :
    (high_waits worked ≡ true)
    × (worked.low_at ≡ Low.working)
    × ((middle ∷ middle ∷ []) ≡ replicate 2 middle)
inversion_example =
    inversion 2 (cores false) (cores-IsPreemptive false) (omega arith) (pos 1) crossed worked
      (middle ∷ middle ∷ []) crossed-Reached refl
      (Delayed.worked (middle ∷ []) tested worked middle
        (Delayed.worked [] crossed tested middle Delayed.at_first refl
          (RunningStep.step tested 0 (TaskStep.middle_goes_on refl refl) refl refl))
        refl (RunningStep.step worked 0 (TaskStep.middle_works refl) refl refl))
