-- ===== src/Motor/Fresh.antt =====
-- Whether the task `motor` of semestral_project/src/stepper_motor.c rests with the duty for its target, whatever the
-- handler and the receiver of semestral_project/src/server.c do meanwhile.
use ctu_real_time_systems_pr.Base.{
  Bool, ap, arith, false, i32, inl, inr, pos, refl, sym, true, ℕ, ℤ, ◌+◌, ◌-ℤ◌, ◌<◌, ◌∙◌, ◌≡◌, ◌⊎◌,
}
use ctu_real_time_systems_pr.Motor.{
  motor_start, get_pwm, MotorShared, Motor, motor_isr, set_motor_dutycycle, store_duty, wanted_duty,
}
use ctu_real_time_systems_pr.Motor.Isr.{isr_drives}
use ctu_real_time_systems_pr.Motor.Section.{AtPc, Reach-AtPc, motor_start_lem, started}
use ctu_real_time_systems_pr.Motor.Task.{
  Pc, Reach, Step, World, computed, driven, here, masked, next, recorded, retarget, waiting, woken,
}

-- The recorded duty is the one for the target.
abbrev pub IsFresh : Motor → Type 0
IsFresh m = m.shared.pwm_duty ≡ wanted_duty m

-- A request that the task has not taken yet.
abbrev pub IsAsked : ℕ → Bool → Type 0
IsAsked sem received = (0 < sem) ⊎ (received ≡ true)

-- What holds at each place of the loop.
abbrev FreshAt : Pc → Motor → ℕ → Bool → Type 0
FreshAt waiting m sem received = IsFresh m ⊎ IsAsked sem received
FreshAt woken m sem received = Unit {0}
FreshAt (computed d) m sem received = (d ≡ wanted_duty m) ⊎ IsAsked sem received
FreshAt (masked d) m sem received = (d ≡ wanted_duty m) ⊎ IsAsked sem received
FreshAt (driven d) m sem received = (d ≡ wanted_duty m) ⊎ IsAsked sem received
FreshAt recorded m sem received = IsFresh m ⊎ IsAsked sem received

abbrev pub is_computed : Pc → Bool
is_computed (computed d) = true
is_computed _ = false

-- A step that is no interrupt between the computation of the duty and the masking.
abbrev pub IsCalm : {v w : World} → Step v w → Type 0
IsCalm (Step.interrupt w a b on) = is_computed w.pc ≡ false
IsCalm st = Unit {0}

abbrev pub AllCalm : {v w : World} → Reach v w → Type 0
AllCalm here = Unit {0}
AllCalm (next r st) = AllCalm r × IsCalm st

set_keeps :
    (d : ℤ) (m : Motor)
    → ((set_motor_dutycycle d m).shared ≡ m.shared)
      × ((set_motor_dutycycle d m).set_position_to_desired ≡ m.set_position_to_desired)
unfolding set_motor_dutycycle
set_keeps d m = ground arith

set_wanted : (d : ℤ) (m : Motor) → wanted_duty (set_motor_dutycycle d m) ≡ wanted_duty m
unfolding wanted_duty
set_wanted d m =
    ap (λ (s : MotorShared). get_pwm (i32 (s.desired_position -ℤ s.position))) (set_keeps d m).0

Step-drives :
    {v w : World}
    → Step v w
    → v.motor.set_position_to_desired ≡ true
    → w.motor.set_position_to_desired ≡ true
unfolding store_duty
Step-drives (Step.sem_take w n p e) h = h
Step-drives (Step.compute w p) h = h
Step-drives (Step.mask w d p) h = h
Step-drives (Step.set_duty w d p) h = (set_keeps d w.motor).1 ∙ h
Step-drives (Step.record_duty w d p) h = h
Step-drives (Step.unmask w p) h = h
Step-drives (Step.interrupt w a b on) h = (isr_drives a b w.motor h).2
Step-drives (Step.receive w v ok idle) h = h
Step-drives (Step.sem_give w ready) h = h

-- An interrupt, a message and a request at each place of the loop.
isr_FreshAt :
    (p : Pc) (a b : ℕ) (m : Motor) (sem : ℕ) (received : Bool)
    → m.set_position_to_desired ≡ true
    → AtPc p true m
    → is_computed p ≡ false
    → FreshAt p m sem received
    → FreshAt p (motor_isr a b m) sem received
isr_FreshAt waiting a b m sem received drives at calm h = inl (isr_drives a b m drives).0
isr_FreshAt woken a b m sem received drives at calm h = tt
isr_FreshAt (computed d) a b m sem received drives at calm h = cc
isr_FreshAt (masked d) a b m sem received drives at calm h = cc
isr_FreshAt (driven d) a b m sem received drives at calm h = cc
isr_FreshAt recorded a b m sem received drives at calm h = cc

asked_FreshAt :
    (p : Pc) (m : Motor) (sem : ℕ) (received : Bool)
    → IsAsked sem received
    → FreshAt p m sem received
asked_FreshAt waiting m sem received h = inr h
asked_FreshAt woken m sem received h = tt
asked_FreshAt (computed d) m sem received h = inr h
asked_FreshAt (masked d) m sem received h = inr h
asked_FreshAt (driven d) m sem received h = inr h
asked_FreshAt recorded m sem received h = inr h

driven_FreshAt :
    (d : ℤ) (m : Motor) (sem : ℕ) (received : Bool)
    → FreshAt (masked d) m sem received
    → FreshAt (driven d) (set_motor_dutycycle d m) sem received
driven_FreshAt d m sem received (inl e) = inl (e ∙ sym (set_wanted d m))
driven_FreshAt d m sem received (inr asked) = inr asked

Step-FreshAt :
    {v w : World} (st : Step v w)
    → IsCalm st
    → v.motor.set_position_to_desired ≡ true
    → AtPc v.pc v.enabled v.motor
    → FreshAt v.pc v.motor v.sem v.received
    → FreshAt w.pc w.motor w.sem w.received
unfolding store_duty wanted_duty
Step-FreshAt (Step.sem_take w n p e) calm drives at h = rw drives tt
Step-FreshAt (Step.compute w p) calm drives at h = inl refl
Step-FreshAt (Step.mask w d p) calm drives at h = rw p at h
Step-FreshAt (Step.set_duty w d p) calm drives at h =
    driven_FreshAt d w.motor w.sem w.received (rw p at h)
Step-FreshAt (Step.record_duty w d p) calm drives at h = rw p at h
Step-FreshAt (Step.unmask w p) calm drives at h = rw p at h
Step-FreshAt (Step.interrupt w a b on) calm drives at h =
    isr_FreshAt w.pc a b w.motor w.sem w.received drives (rw on at at) calm h
Step-FreshAt (Step.receive w v ok idle) calm drives at h =
    asked_FreshAt w.pc (retarget v w.motor) w.sem true (inr refl)
Step-FreshAt (Step.sem_give w ready) calm drives at h =
    asked_FreshAt w.pc w.motor (w.sem + 1) false (inl (omega arith))

-- The mode and what holds at the place of the task, in every world that is reached.
Reach-FreshAt :
    {v w : World}
    → v.motor.set_position_to_desired ≡ true
    → AtPc v.pc v.enabled v.motor
    → FreshAt v.pc v.motor v.sem v.received
    → (r : Reach v w) → AllCalm r
    → (w.motor.set_position_to_desired ≡ true) × FreshAt w.pc w.motor w.sem w.received
Reach-FreshAt drives at h here calm = (drives, h)
Reach-FreshAt drives at h (next r st) (calm, c) =
    let (still, fresh) = Reach-FreshAt drives at h r calm in
    (Step-drives st still, Step-FreshAt st c still (Reach-AtPc at r) fresh)

resting :
    (w : World)
    → w.pc ≡ waiting
    → w.sem ≡ 0
    → w.received ≡ false
    → FreshAt w.pc w.motor w.sem w.received
    → IsFresh w.motor
resting w p none_left idle h =
    let now : IsFresh w.motor ⊎ IsAsked w.sem w.received = rw p at h in
    elim now [
      | inl fresh ↦ fresh
      | inr (inl some_left) ↦ absurd (omega (arith, none_left))
      | inr (inr got) ↦ cc
    ]

-- No request is lost: in every world that a driving task, started with no duty recorded and either at the duty for its
-- target or with a request, reaches together with the handler and the receiver, as long as no interrupt comes
-- between the computation of a duty and the masking: whenever the task waits, and no
-- request and no message are left, the recorded duty is the one for the target and the position of that
-- moment.
pub duty_fresh :
    (a b : ℕ) (m : Motor) (n : ℕ) {w : World}
    → m.shared.pwm_duty ≡ pos 0
    → IsFresh (motor_start true a b m) ⊎ (0 < n)
    → (r : Reach (started true a b m n) w) → AllCalm r
    → w.pc ≡ waiting
    → w.sem ≡ 0
    → w.received ≡ false
    → w.motor.shared.pwm_duty ≡ wanted_duty w.motor
duty_fresh a b m n {w} undriven start r calm waits none_left idle =
    let (at, state, mode) = motor_start_lem true a b m undriven in
    resting w waits none_left idle (Reach-FreshAt mode at (begun start) r calm).1
  where
    begun :
        IsFresh (motor_start true a b m) ⊎ (0 < n)
        → IsFresh (motor_start true a b m) ⊎ IsAsked n false
    begun (inl fresh) = inl fresh
    begun (inr some_left) = inr (inl some_left)
