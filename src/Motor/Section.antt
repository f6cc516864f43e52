-- ===== src/Motor/Section.antt =====
-- The critical section of `motor` in semestral_project/src/stepper_motor.c: what masking the interrupt
-- protects, and what it does not.
use ctu_real_time_systems_pr.Base.{
  Bool, List, Option, [], arith, false, i32, negsuc, none, pos, refl, some, true, ℕ, ℤ, ◌-ℤ◌, ◌∷◌,
  ◌≡◌, ◌≤ℤ◌, ◌⊎◌,
}
use ctu_real_time_systems_pr.Motor.{
  read_state, motor_start, store_duty, Motor, Access, write, pwm_duty_cr, duty_word, wanted_duty,
  motor_isr,
}
use ctu_real_time_systems_pr.Motor.Pwm.{get_pwm_bounds}
use ctu_real_time_systems_pr.Motor.Isr.{set_motor_dutycycle-in_range, isr_log, isr_keeps}
use ctu_real_time_systems_pr.Motor.Task.{
  here, next, Reach, Step, World, retarget, Pc, waiting, woken, computed, masked, driven, recorded,
}

-- What PWM_DUTY_CR was last set to.
abbrev pub duty_register : List Access → Option ℕ
duty_register [] = none
duty_register (write pwm_duty_cr v ∷ log) = some v
duty_register (_ ∷ log) = duty_register log

-- The hardware drives the motor by the duty that the shared data show; at the start, by none.
abbrev pub Agrees : Motor → Type 0
Agrees m =
    (duty_register m.log ≡ some (duty_word m.shared.pwm_duty))
    ⊎ (duty_register m.log ≡ some 0) × (m.shared.pwm_duty ≡ pos 0)

abbrev pub IsDuty : ℤ → Type 0
IsDuty d = (negsuc 99 ≤ℤ d) × (d ≤ℤ pos 100)

-- What holds at each place of the loop.
abbrev pub AtPc : Pc → Bool → Motor → Type 0
AtPc waiting enabled m = (enabled ≡ true) × Agrees m
AtPc woken enabled m = (enabled ≡ true) × Agrees m
AtPc (computed d) enabled m = (enabled ≡ true) × Agrees m × IsDuty d
AtPc (masked d) enabled m = (enabled ≡ false) × Agrees m × IsDuty d
AtPc (driven d) enabled m = (enabled ≡ false) × (duty_register m.log ≡ some (duty_word d))
AtPc recorded enabled m = (enabled ≡ false) × Agrees m

isr_Agrees : (a b : ℕ) (m : Motor) → Agrees m → Agrees (motor_isr a b m)
isr_Agrees a b m h = ground (arith, isr_log a b m, isr_keeps a b m)

pub wanted_duty-IsDuty : (m : Motor) → IsDuty (wanted_duty m)
unfolding wanted_duty
wanted_duty-IsDuty m = get_pwm_bounds (i32 (m.shared.desired_position -ℤ m.shared.position))

-- The steps, at each place of the loop where they can be taken.
isr_AtPc : (p : Pc) (a b : ℕ) (m : Motor) → AtPc p true m → AtPc p true (motor_isr a b m)
isr_AtPc waiting a b m h = (h.0, isr_Agrees a b m h.1)
isr_AtPc woken a b m h = (h.0, isr_Agrees a b m h.1)
isr_AtPc (computed d) a b m h = (h.0, isr_Agrees a b m h.1, h.2)
isr_AtPc (masked d) a b m h = cc
isr_AtPc (driven d) a b m h = cc
isr_AtPc recorded a b m h = cc

retarget-AtPc : (p : Pc) (e : Bool) (v : ℤ) (m : Motor) → AtPc p e m → AtPc p e (retarget v m)
retarget-AtPc waiting e v m h = h
retarget-AtPc woken e v m h = h
retarget-AtPc (computed d) e v m h = h
retarget-AtPc (masked d) e v m h = h
retarget-AtPc (driven d) e v m h = h
retarget-AtPc recorded e v m h = h

-- Every step of the task, the handler and the receiver keeps what holds at the place of the task.
pub Step-AtPc : {v w : World} → Step v w → AtPc v.pc v.enabled v.motor → AtPc w.pc w.enabled w.motor
unfolding store_duty
Step-AtPc (Step.sem_take w n p e) h = ground arith
Step-AtPc (Step.compute w p) h = ground (arith, wanted_duty-IsDuty w.motor)
Step-AtPc (Step.mask w d p) h = ground arith
Step-AtPc (Step.set_duty w d p) h = ground (arith, set_motor_dutycycle-in_range d w.motor)
Step-AtPc (Step.record_duty w d p) h = ground arith
Step-AtPc (Step.unmask w p) h = ground arith
Step-AtPc (Step.interrupt w a b on) h = ground (arith, isr_AtPc w.pc a b w.motor)
Step-AtPc (Step.receive w v ok idle) h = retarget-AtPc w.pc w.enabled v w.motor h
Step-AtPc (Step.sem_give w ready) h = h

pub Reach-AtPc :
    {v w : World} → AtPc v.pc v.enabled v.motor → Reach v w → AtPc w.pc w.enabled w.motor
Reach-AtPc h here = h
Reach-AtPc h (next r s) = Step-AtPc s (Reach-AtPc h r)

-- The task as it first waits, after `motor_init`, with `n` requests to come.
abbrev pub started : Bool → ℕ → ℕ → Motor → ℕ → World
started set_desired a b m n = record {
  motor = motor_start set_desired a b m;
  pc = waiting;
  enabled = true;
  sem = n;
  received = false;
}

-- `motor_init`, started with no duty recorded, leaves the hardware undriven and the interrupt
-- enabled, the state as the encoder shows it, and the mode as it is asked for.
pub motor_start_lem :
    (set_desired : Bool) (a b : ℕ) (m : Motor)
    → m.shared.pwm_duty ≡ pos 0
    → AtPc waiting true (motor_start set_desired a b m)
      × ((motor_start set_desired a b m).motor_state ≡ read_state a b)
      × ((motor_start set_desired a b m).set_position_to_desired ≡ set_desired)
unfolding motor_start read_state
motor_start_lem set_desired a b m h = (ground arith, ground arith, refl)

-- In every world that the task, the handler and the receiver reach from the start, if no duty was
-- recorded before it: whenever the interrupt is enabled, the hardware drives the motor by exactly
-- the duty that the shared data show, or, before the first duty, not at all while they show zero.
pub duty_consistent :
    (set_desired : Bool) (a b : ℕ) (m : Motor) (n : ℕ) {w : World}
    → m.shared.pwm_duty ≡ pos 0
    → Reach (started set_desired a b m n) w
    → w.enabled ≡ true
    → Agrees w.motor
duty_consistent set_desired a b m n {w} h r on =
    at_enabled w.pc (rw on at (Reach-AtPc (motor_start_lem set_desired a b m h).0 r))
  where
    at_enabled : (p : Pc) → AtPc p true w.motor → Agrees w.motor
    at_enabled waiting k = k.1
    at_enabled woken k = k.1
    at_enabled (computed d) k = k.1
    at_enabled (masked d) k = cc
    at_enabled (driven d) k = cc
    at_enabled recorded k = cc
