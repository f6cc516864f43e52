-- ===== src/Motor/Service.antt =====
-- A request at the task `motor` of semestral_project/src/stepper_motor.c, from the message of the receiver in
-- semestral_project/src/server.c to the duty for the new target.
use ctu_real_time_systems_pr.Base.{
  IsI32, List, [], abs, ap, false, if◌then◌else◌, refl, true, ℕ, ℤ, ◌-ℤ◌, ◌<◌, ◌^◌, ◌∷◌, ◌≡◌,
}
use ctu_real_time_systems_pr.Motor.{
  Motor, int_disable, int_enable, motor_isr, set_motor_dutycycle, store_duty, wanted_duty,
}
use ctu_real_time_systems_pr.Motor.Control.{Driven}
use ctu_real_time_systems_pr.Motor.Isr.{set_motor_dutycycle-in_range}
use ctu_real_time_systems_pr.Motor.Quadrature.{run_isr}
use ctu_real_time_systems_pr.Motor.Section.{wanted_duty-IsDuty}
use ctu_real_time_systems_pr.Motor.Task.{
  Reach, Step, World, computed, driven, here, masked, next, put, recorded, retarget, waiting, woken,
}

-- The motor after a message with the target `v`, served without an interrupt.
abbrev pub served : ℤ → Motor → Motor
served v m =
    let d = wanted_duty (retarget v m) in
    put int_enable (store_duty d (set_motor_dutycycle d (put int_disable (retarget v m))))

-- The task as it waits, without a request.
abbrev pub rest_with : Motor → World
rest_with m = record { motor = m; pc = waiting; enabled = true; sem = 0; received = false }

-- The steps of a message: it is received, the task is woken, computes the duty, sets it with the
-- interrupt masked, and waits again.
pub service_path :
    (v : ℤ) (m : Motor)
    → IsI32 v
    → m.set_position_to_desired ≡ true
    → Reach (rest_with m) (rest_with (served v m))
service_path v m ok drives =
    next
      (next
        (next
          (next
            (next
              (next (next (next here (Step.receive w v ok refl)) (Step.sem_give w1 refl))
                (Step.sem_take w2 0 refl refl))
              (Step.compute w3 (ap (λ b. if b then woken else waiting) drives)))
            (Step.mask w4 d refl))
          (Step.set_duty w5 d refl))
        (Step.record_duty w6 d refl))
      (Step.unmask w7 refl)
  where
    w : World
    w = rest_with m

    w1 : World
    w1 = record w { received = true; motor = retarget v m }

    w2 : World
    w2 = record w1 { received = false; sem = 1 }

    w3 : World
    w3 = record w2 { sem = 0; pc = if m.set_position_to_desired then woken else waiting }

    d : ℤ
    d = wanted_duty (retarget v m)

    w4 : World
    w4 = record w3 { pc = computed d }

    w5 : World
    w5 = record w4 { pc = masked d; enabled = false; motor = put int_disable w4.motor }

    w6 : World
    w6 = record w5 { pc = driven d; motor = set_motor_dutycycle d w5.motor }

    w7 : World
    w7 = record w6 { pc = recorded; motor = store_duty d w6.motor }

-- The motor is then driven by the duty for the new target.
pub served-Driven :
    (v : ℤ) (m : Motor) (n : ℕ)
    → m.set_position_to_desired ≡ true
    → m.motor_state < 4
    → IsI32 m.shared.position
    → IsI32 v
    → abs (v -ℤ m.shared.position) ≡ n
    → n < 2 ^ 31
    → Driven (served v m) n
unfolding store_duty wanted_duty
served-Driven v m n drives phase at ok far fits =
    rw
      (set_motor_dutycycle-in_range (wanted_duty (retarget v m)) (put int_disable (retarget v m))
        (wanted_duty-IsDuty (retarget v m)))
      (record {
        driven = drives;
        phase = phase;
        at = at;
        target = ok;
        duty = refl;
        distance = far;
        no_overflow = fits;
      })

pub served-target : (v : ℤ) (m : Motor) → (served v m).shared.desired_position ≡ v
unfolding store_duty
served-target v m =
    rw
      (set_motor_dutycycle-in_range (wanted_duty (retarget v m)) (put int_disable (retarget v m))
        (wanted_duty-IsDuty (retarget v m)))
      refl

-- Interrupts while the task waits.
pub interrupts_path :
    (rs : List (ℕ × ℕ)) (w : World) (m : Motor)
    → Reach w (rest_with m)
    → Reach w (rest_with (run_isr rs m))
interrupts_path [] w m r = r
interrupts_path ((a, b) ∷ rs) w m r =
    interrupts_path rs w (motor_isr a b m) (next r (Step.interrupt (rest_with m) a b refl))
