-- ===== src/Motor/Isr.antt =====
-- What `motor_isr` and `motor_init` of semestral_project/src/stepper_motor.c do to the hardware and to the shared data.
use ctu_real_time_systems_pr.Base.{
  arith, false, i32, if◌then◌else◌, negsuc, pos, true, ℕ, ℤ, ◌-ℤ◌, ◌∷◌, ◌≡◌, ◌≤ℤ◌,
}
use ctu_real_time_systems_pr.Motor.{
  Motor, write, gpio_int_status, pwm_duty_cr, motor_irq_pin, duty_word, wanted_duty, motor_isr,
  set_motor_dutycycle,
}
use ctu_real_time_systems_pr.Motor.Pwm.{get_pwm_bounds}

-- A duty within -100 .. 100 passes the guard of `set_motor_dutycycle`.
pub set_motor_dutycycle-in_range :
    (d : ℤ) (m : Motor)
    → (negsuc 99 ≤ℤ d) × (d ≤ℤ pos 100)
    → set_motor_dutycycle d m ≡ record m { log = write pwm_duty_cr (duty_word d) ∷ m.log }
unfolding set_motor_dutycycle
set_motor_dutycycle-in_range d m h = ground arith

-- In the mode that drives the motor, an interrupt recomputes the duty from the new position, keeps the target and the mode.
pub isr_drives :
    (a b : ℕ) (m : Motor)
    → m.set_position_to_desired ≡ true
    → ((motor_isr a b m).shared.pwm_duty ≡ wanted_duty (motor_isr a b m))
      × ((motor_isr a b m).shared.desired_position ≡ m.shared.desired_position)
      × ((motor_isr a b m).set_position_to_desired ≡ true)
unfolding motor_isr wanted_duty
isr_drives a b m h = ground arith

-- An interrupt always ends by acknowledging itself. Before that, where the motor is driven, the duty register is
-- written once, with the word of exactly the duty that is recorded in the shared data; where it is only
-- monitored, nothing else is written.
pub isr_log :
    (a b : ℕ) (m : Motor)
    → (motor_isr a b m).log
      ≡ write gpio_int_status motor_irq_pin
        ∷ (if m.set_position_to_desired
            then write pwm_duty_cr (duty_word (motor_isr a b m).shared.pwm_duty) ∷ m.log
            else m.log)
unfolding motor_isr wanted_duty
isr_log a b m =
    ground
      (arith, get_pwm_bounds (i32 (m.shared.desired_position -ℤ (motor_isr a b m).shared.position)))

-- Where the motor is only monitored, an interrupt leaves the recorded duty alone.
pub isr_keeps :
    (a b : ℕ) (m : Motor)
    → m.set_position_to_desired ≡ false
    → (motor_isr a b m).shared.pwm_duty ≡ m.shared.pwm_duty
unfolding motor_isr wanted_duty
isr_keeps a b m h = ground arith

-- An interrupt never changes the target.
pub isr_target :
    (a b : ℕ) (m : Motor) → (motor_isr a b m).shared.desired_position ≡ m.shared.desired_position
unfolding motor_isr
isr_target a b m = ground arith
