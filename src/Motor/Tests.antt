-- ===== src/Motor/Tests.antt =====
-- Runs of the motor driver, and its theorems at inputs that meet their hypotheses.
use ctu_real_time_systems_pr.Base.{
  List, [], arith, false, i32, inr, negsuc, pos, refl, true, ℕ, ℤ, ◌+ℤ◌, ◌-ℤ◌, ◌∷◌, ◌≡◌,
}
use ctu_real_time_systems_pr.Motor.{
  Motor, boot, motor_start, int_disable, int_enable, set_motor_dutycycle, store_duty, motor_isr,
  get_pwm, wanted_duty, read_state, table_at,
}
use ctu_real_time_systems_pr.Motor.Quadrature.{forth, back, run_isr, position_tracks}
use ctu_real_time_systems_pr.Motor.Control.{Driven, motor_reaches_target}
use ctu_real_time_systems_pr.Motor.Task.{
  World, waiting, computed, woken, masked, driven, recorded, put, Reach, here, next, Step,
}
use ctu_real_time_systems_pr.Motor.Fresh.{duty_fresh}
use ctu_real_time_systems_pr.Motor.Section.{Agrees, started, duty_consistent}

-- Two steps from the target, with the duty for that.
abbrev near_target : Motor
near_target = record boot {
  shared = record { irq_count = 0; position = pos 0; desired_position = pos 2; pwm_duty = pos 3 };
  set_position_to_desired = true;
}

-- The words of MOTOR_SR that show the phases 1 and 3.
abbrev readings : List (ℕ × ℕ)
readings = (256, 256) ∷ (256, 768) ∷ []

duties :
    (get_pwm (pos 100) ≡ pos 39) × (get_pwm (negsuc 99) ≡ negsuc 39) × (get_pwm (pos 5) ≡ pos 3)
unfolding get_pwm
duties = (refl, refl, refl)

near_target-Driven : Driven near_target 2
unfolding wanted_duty get_pwm i32 ◌-ℤ◌
near_target-Driven = record {
  driven = refl;
  phase = omega arith;
  at = omega arith;
  target = omega arith;
  duty = refl;
  distance = refl;
  no_overflow = omega arith;
}

motor_reaches_target_example :
    ((run_isr readings near_target).shared.position ≡ pos 2)
    × ((run_isr readings near_target).shared.pwm_duty ≡ pos 0)
unfolding motor_isr wanted_duty get_pwm i32 ◌-ℤ◌ ◌+ℤ◌ read_state table_at
motor_reaches_target_example =
    motor_reaches_target readings near_target-Driven (refl, (refl, tt)) (omega arith)

-- Forth, forth, and back.
position_tracks_example :
    (run_isr ((256, 0) ∷ (256, 512) ∷ (256, 0) ∷ []) boot).shared.position ≡ i32 (pos 0 +ℤ pos 1)
unfolding read_state ◌+ℤ◌
position_tracks_example =
    position_tracks ((256, 0) ∷ (256, 512) ∷ (256, 0) ∷ []) (forth ∷ forth ∷ back ∷ []) boot
      (omega arith) (omega arith) (refl, (refl, (refl, tt)))

-- After one interrupt.
abbrev once : World
once = record (started true 0 0 boot 0) {
  motor = motor_isr 256 256 (started true 0 0 boot 0).motor;
}

duty_consistent_example : Agrees once.motor
duty_consistent_example =
    duty_consistent true 0 0 boot 0 refl
      (next here (Step.interrupt (started true 0 0 boot 0) 256 256 refl)) refl

-- The task has computed 39 at the distance 100; then the shaft turns one step.
abbrev late : World
late = record {
  motor = record near_target {
    shared = record {
      irq_count = 0;
      position = pos 0;
      desired_position = pos 100;
      pwm_duty = pos 39;
    };
  };
  pc = computed (pos 39);
  enabled = true;
  sem = 0;
  received = false;
}

-- A request at the start, which the task serves, and an interrupt after it.
abbrev asked : World
asked = started true 0 0 boot 1

abbrev awake : World
awake = record asked { sem = 0; pc = woken }

abbrev its_duty : ℤ
its_duty = wanted_duty asked.motor

abbrev ready_to_set : World
ready_to_set = record awake {
  pc = masked its_duty;
  enabled = false;
  motor = put int_disable asked.motor;
}

abbrev set_once : World
set_once = record ready_to_set {
  pc = driven its_duty;
  motor = set_motor_dutycycle its_duty ready_to_set.motor;
}

abbrev stored : World
stored = record set_once { pc = recorded; motor = store_duty its_duty set_once.motor }

abbrev at_rest : World
at_rest = record stored { pc = waiting; enabled = true; motor = put int_enable stored.motor }

abbrev turned_after : World
turned_after = record at_rest { motor = motor_isr 256 256 at_rest.motor }

served_once : Reach asked turned_after
unfolding motor_start
served_once =
    next
      (next
        (next
          (next
            (next (next (next here (Step.sem_take asked 0 refl refl)) (Step.compute awake refl))
              (Step.mask (record awake { pc = computed its_duty }) its_duty refl))
            (Step.set_duty ready_to_set its_duty refl))
          (Step.record_duty set_once its_duty refl))
        (Step.unmask stored refl))
      (Step.interrupt at_rest 256 256 refl)

duty_fresh_example : turned_after.motor.shared.pwm_duty ≡ wanted_duty turned_after.motor
unfolding served_once motor_start
duty_fresh_example =
    duty_fresh 0 0 boot 1 refl (inr (omega arith)) served_once
      (((((((tt, tt), tt), tt), tt), tt), tt), refl) refl refl refl
