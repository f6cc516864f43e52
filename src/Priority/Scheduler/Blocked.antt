-- ===== src/Priority/Scheduler/Blocked.antt =====
-- The high task of lab4_priority_inheritance_kernel_module at the mutex that the low task has, and what
-- the steps of the tasks and the ends of delays do then.
use ctu_real_time_systems_pr.Base.{
  Bool, ap, arith, false, none, refl, some, sym, true, ℤ, ◌+◌, ◌∙◌, ◌≡◌,
}
use ctu_real_time_systems_pr.Priority.Tasks.{Low, High, Tasks, TaskStep}
use ctu_real_time_systems_pr.Priority.Tasks.Shutdown.{IsSound, low_holds, high_holds, is_free}
use ctu_real_time_systems_pr.Priority.Scheduler.{
  middle, low, high_ready, high_waits, blocked, owns, actor, Wakes,
}

-- The high task is blocked, and the low task has the mutex.
pub record IsBlocked (s : Tasks) : Type 0 where
  pub high_there : s.high_at ≡ High.taking
  pub low_there : s.low_at ≡ Low.working
  pub taken : s.mutex_free ≡ false

blocked_places :
    (l : Low) (h : High) (free : Bool)
    → is_free free + low_holds l + high_holds h ≡ 1
    → blocked h free ≡ true
    → (h ≡ High.taking) × (l ≡ Low.working) × (free ≡ false)
blocked_places l h free one b = ground arith

pub IsSound-IsBlocked :
    (num_of_mes : ℤ) (s : Tasks) → IsSound num_of_mes s → high_waits s ≡ true → IsBlocked s
IsSound-IsBlocked num_of_mes s v h =
    let (p, q, r) = blocked_places s.low_at s.high_at s.mutex_free v.one_holder h in
    record { high_there = p; low_there = q; taken = r }

pub not_ready :
    (h : High) (free : Bool) → h ≡ High.taking → free ≡ false → high_ready h free ≡ true → ⊥
not_ready h free p q r = ground arith

-- The end of a delay, while the high task stands at the mutex.
pub wake_keeps :
    (num_of_mes : ℤ) (s t : Tasks) (st : TaskStep num_of_mes s t)
    → actor st ≡ none
    → s.high_at ≡ High.taking
    → (t.high_at ≡ High.taking)
      × (t.mutex_free ≡ s.mutex_free)
      × (s.low_at ≡ Low.working → t.low_at ≡ Low.working)
      × (owns s.low_at ≡ false → owns t.low_at ≡ false)
wake_keeps num_of_mes s t (TaskStep.low_goes_on p p') e h = cc
wake_keeps num_of_mes s t (TaskStep.low_stops p p') e h = cc
wake_keeps num_of_mes s t (TaskStep.low_takes p p') e h = cc
wake_keeps num_of_mes s t (TaskStep.low_gives p) e h = cc
wake_keeps num_of_mes s t (TaskStep.low_wakes p) e h =
    (h, refl, λ w. absurd (omega (arith, ap low_holds (sym w ∙ p))), λ o. refl)
wake_keeps num_of_mes s t (TaskStep.middle_goes_on p p') e h = cc
wake_keeps num_of_mes s t (TaskStep.middle_stops p p') e h = cc
wake_keeps num_of_mes s t (TaskStep.middle_works p) e h = cc
wake_keeps num_of_mes s t (TaskStep.middle_wakes p) e h = (h, refl, λ w. w, λ o. o)
wake_keeps num_of_mes s t (TaskStep.high_goes_on p p') e h = cc
wake_keeps num_of_mes s t (TaskStep.high_stops p p') e h = cc
wake_keeps num_of_mes s t (TaskStep.high_takes p p') e h = cc
wake_keeps num_of_mes s t (TaskStep.high_gives p) e h = cc
wake_keeps num_of_mes s t (TaskStep.high_wakes p) e h = ground (arith, h, p)

pub Wakes-IsBlocked :
    (num_of_mes : ℤ) (s t : Tasks) → Wakes num_of_mes s t → IsBlocked s → IsBlocked t
Wakes-IsBlocked num_of_mes s t Wakes.asleep b = b
Wakes-IsBlocked num_of_mes s _ (Wakes.wake t u w st e) b =
    let before = Wakes-IsBlocked num_of_mes s t w b in
    let (h, free, kept, _) = wake_keeps num_of_mes t u st e before.high_there in
    record { high_there = h; low_there = kept before.low_there; taken = free ∙ before.taken }

-- The mutex is free for the high task, which waits for the processor only.
pub record IsReleased (s : Tasks) : Type 0 where
  pub high_there : s.high_at ≡ High.taking
  pub not_owned : owns s.low_at ≡ false
  pub given : s.mutex_free ≡ true

pub Wakes-IsReleased :
    (num_of_mes : ℤ) (s t : Tasks) → Wakes num_of_mes s t → IsReleased s → IsReleased t
Wakes-IsReleased num_of_mes s t Wakes.asleep b = b
Wakes-IsReleased num_of_mes s _ (Wakes.wake t u w st e) b =
    let before = Wakes-IsReleased num_of_mes s t w b in
    let (h, free, _, kept) = wake_keeps num_of_mes t u st e before.high_there in
    record { high_there = h; not_owned = kept before.not_owned; given = free ∙ before.given }

-- A step of the low task that has the mutex.
pub low_step :
    (num_of_mes : ℤ) (s t : Tasks) (st : TaskStep num_of_mes s t)
    → actor st ≡ some low
    → IsBlocked s
    → IsReleased t
low_step num_of_mes s t (TaskStep.low_goes_on p p') e b =
    absurd (omega (arith, ap low_holds (sym b.low_there ∙ p)))
low_step num_of_mes s t (TaskStep.low_stops p p') e b =
    absurd (omega (arith, ap low_holds (sym b.low_there ∙ p)))
low_step num_of_mes s t (TaskStep.low_takes p p') e b =
    absurd (omega (arith, ap low_holds (sym b.low_there ∙ p)))
low_step num_of_mes s t (TaskStep.low_gives p) e b = record {
  high_there = b.high_there;
  not_owned = refl;
  given = refl;
}
low_step num_of_mes s t (TaskStep.low_wakes p) e b = ground arith
low_step num_of_mes s t (TaskStep.middle_goes_on p p') e b = ground arith
low_step num_of_mes s t (TaskStep.middle_stops p p') e b = ground arith
low_step num_of_mes s t (TaskStep.middle_works p) e b = ground arith
low_step num_of_mes s t (TaskStep.middle_wakes p) e b = ground arith
low_step num_of_mes s t (TaskStep.high_goes_on p p') e b = ground arith
low_step num_of_mes s t (TaskStep.high_stops p p') e b = ground arith
low_step num_of_mes s t (TaskStep.high_takes p p') e b = ground arith
low_step num_of_mes s t (TaskStep.high_gives p) e b = ground arith
low_step num_of_mes s t (TaskStep.high_wakes p) e b = ground arith

-- A step of the middle task changes neither of the others.
pub middle_step :
    (num_of_mes : ℤ) (s t : Tasks) (st : TaskStep num_of_mes s t)
    → actor st ≡ some middle
    → IsBlocked s
    → IsBlocked t
middle_step num_of_mes s t (TaskStep.low_goes_on p p') e b = ground arith
middle_step num_of_mes s t (TaskStep.low_stops p p') e b = ground arith
middle_step num_of_mes s t (TaskStep.low_takes p p') e b = ground arith
middle_step num_of_mes s t (TaskStep.low_gives p) e b = ground arith
middle_step num_of_mes s t (TaskStep.low_wakes p) e b = ground arith
middle_step num_of_mes s t (TaskStep.middle_goes_on p p') e b = record {
  high_there = b.high_there;
  low_there = b.low_there;
  taken = b.taken;
}
middle_step num_of_mes s t (TaskStep.middle_stops p p') e b = record {
  high_there = b.high_there;
  low_there = b.low_there;
  taken = b.taken;
}
middle_step num_of_mes s t (TaskStep.middle_works p) e b = record {
  high_there = b.high_there;
  low_there = b.low_there;
  taken = b.taken;
}
middle_step num_of_mes s t (TaskStep.middle_wakes p) e b = ground arith
middle_step num_of_mes s t (TaskStep.high_goes_on p p') e b = ground arith
middle_step num_of_mes s t (TaskStep.high_stops p p') e b = ground arith
middle_step num_of_mes s t (TaskStep.high_takes p p') e b = ground arith
middle_step num_of_mes s t (TaskStep.high_gives p) e b = ground arith
middle_step num_of_mes s t (TaskStep.high_wakes p) e b = ground arith
