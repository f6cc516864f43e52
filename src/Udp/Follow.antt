-- ===== src/Udp/Follow.antt =====
-- Two boards of the semester project: from the position that semestral_project/src/server.c sends on one to
-- the motor of semestral_project/src/stepper_motor.c on the other.
use ctu_real_time_systems_pr.Base.{
  IsI32, List, abs, length, pos, refl, true, ℕ, ◌-ℤ◌, ◌<◌, ◌^◌, ◌∙◌, ◌≡◌, ◌≤◌,
}
use ctu_real_time_systems_pr.Motor.{Motor}
use ctu_real_time_systems_pr.Motor.Control.{Obeys, motor_reaches_target}
use ctu_real_time_systems_pr.Motor.Quadrature.{run_isr}
use ctu_real_time_systems_pr.Motor.Section.{Agrees, Reach-AtPc}
use ctu_real_time_systems_pr.Motor.Service.{
  interrupts_path, rest_with, served, served-Driven, served-target, service_path,
}
use ctu_real_time_systems_pr.Motor.Task.{Reach}
use ctu_real_time_systems_pr.Udp.{transmit}

-- A board whose task waits, whose hardware agrees with its shared data, and whose motor is driven and
-- obeys: when another board, `n` steps away for a number that fits in 31 bits, sends what the code sends,
-- its position and not its target, this board can serve the message and then, by `n` interrupts or more,
-- come to wait again where the other one stood. Its duty is then zero, and the hardware agrees with that.
pub board_follows :
    (there here : Motor) (n : ℕ) (rs : List (ℕ × ℕ))
    → here.set_position_to_desired ≡ true
    → here.motor_state < 4
    → IsI32 there.shared.position
    → IsI32 here.shared.position
    → abs (there.shared.position -ℤ here.shared.position) ≡ n
    → n < 2 ^ 31
    → Agrees here
    → Obeys (served (transmit there) here) rs
    → n ≤ length rs
    → (end : Motor) × Reach (rest_with here) (rest_with end)
      × (end.shared.position ≡ there.shared.position)
      × (end.shared.pwm_duty ≡ pos 0)
      × Agrees end
unfolding transmit
board_follows there here n rs drives phase sent at far fits agrees obeys enough =
    let path =
      interrupts_path rs (rest_with here) (served (transmit there) here)
        (service_path (transmit there) here sent drives) in
    let driven = served-Driven (transmit there) here n drives phase at sent far fits in
    let (arrived, stopped) = motor_reaches_target rs driven obeys enough in
    (
      run_isr rs (served (transmit there) here),
      path,
      arrived ∙ served-target (transmit there) here,
      stopped,
      (Reach-AtPc (refl, agrees) path).1,
    )
