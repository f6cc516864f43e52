-- ===== src/Udp/Tests.antt =====
-- The theorems on the two boards at runs of both.
use ctu_real_time_systems_pr.Base.{
  List, [], abs, arith, i32, inr, pos, refl, true, ℕ, ◌+ℤ◌, ◌-ℤ◌, ◌∷◌, ◌≡◌,
}
use ctu_real_time_systems_pr.Motor.{
  Motor, boot, write, pwm_duty_cr, motor_isr, wanted_duty, get_pwm, read_state, table_at,
  set_motor_dutycycle, store_duty,
}
use ctu_real_time_systems_pr.Motor.Control.{Obeys}
use ctu_real_time_systems_pr.Motor.Section.{Agrees}
use ctu_real_time_systems_pr.Motor.Service.{rest_with, served}
use ctu_real_time_systems_pr.Motor.Task.{Reach}
use ctu_real_time_systems_pr.Udp.{transmit}
use ctu_real_time_systems_pr.Udp.Follow.{board_follows}
use ctu_real_time_systems_pr.Udp.Steering.{
  Boards, Event, turned_there, turned_here, sent, arrived, interrupted, run, last_arrival,
  target_after, steered_lem,
}

abbrev both_at_rest : Boards
both_at_rest = record { there = boot; here = record { motor = boot; sem = 0 }; messages = [] }

-- The first message comes after the second one, when the board has turned on.
abbrev a_turn : List Event
a_turn =
    turned_there 256 0
    ∷ sent
    ∷ turned_there 256 512
    ∷ sent
    ∷ arrived 1
    ∷ turned_there 256 256
    ∷ interrupted
    ∷ turned_here 256 0
    ∷ arrived 0
    ∷ arrived 7
    ∷ []

steered_lem_example :
    (run a_turn both_at_rest).here.motor.shared.desired_position
    ≡ target_after
        (last_arrival 0 a_turn)
        a_turn
        boot
        both_at_rest.here.motor.shared.desired_position
steered_lem_example = steered_lem a_turn both_at_rest refl

-- A board that was turned by two steps, and one that is driven and stands at zero, undriven so far.
abbrev turned_board : Motor
turned_board = record boot {
  shared = record { irq_count = 2; position = pos 2; desired_position = pos 0; pwm_duty = pos 0 };
}

abbrev driven_board : Motor
driven_board = record boot { set_position_to_desired = true; log = write pwm_duty_cr 0 ∷ [] }

abbrev two_readings : List (ℕ × ℕ)
two_readings = (256, 256) ∷ (256, 768) ∷ []

two_readings-Obeys : Obeys (served (transmit turned_board) driven_board) two_readings
unfolding motor_isr wanted_duty get_pwm i32 ◌-ℤ◌ ◌+ℤ◌ read_state table_at set_motor_dutycycle
    store_duty transmit
two_readings-Obeys = (refl, (refl, tt))

two_steps : abs (pos 2 -ℤ pos 0) ≡ 2
unfolding ◌-ℤ◌
two_steps = refl

board_follows_example :
    (end : Motor) × Reach (rest_with driven_board) (rest_with end)
    × (end.shared.position ≡ pos 2)
    × (end.shared.pwm_duty ≡ pos 0)
    × Agrees end
board_follows_example =
    board_follows turned_board driven_board 2 two_readings refl (omega arith) (omega arith)
      (omega arith) two_steps (omega arith) (inr (refl, refl)) two_readings-Obeys (omega arith)
