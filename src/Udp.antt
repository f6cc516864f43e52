-- ===== src/Udp.antt =====
-- The UDP task, `run_udp_srv` of semestral_project/src/server.c, and `create_tasks` of
-- semestral_project/src/main.c, which starts it. What the calls of the kernel answer is an input.
pub mod Steering
pub mod Follow
pub mod Roles
mod Tests
use ctu_real_time_systems_pr.Base.{
  Bool, List, Option, [], false, if◌then◌else◌, none, not, some, true, ℕ, ℤ, ◌+◌, ◌∷◌,
}
use ctu_real_time_systems_pr.Motor.{Motor, motor_isr}
use ctu_real_time_systems_pr.Motor.Task.{retarget}

pub record Opening : Type 0 where
  pub timestamp_fails : Bool
  pub socket_fails : Bool
  pub bind_fails : Bool

-- How the opening part ends: by a return, an exit with a code, or in one of the two loops.
pub data Opened : Type 0 where
  returned receiving transmitting : Opened
  exited : ℕ → Opened

-- The part of `run_udp_srv` before its loops, and whether it leaves a socket open.
pub open_socket : Opening → Bool → Opened × Bool
open_socket k has_address =
    if k.timestamp_fails
    then (returned, false)
    else (if k.socket_fails
        then (exited 1, false)
        else (if k.bind_fails
            then (exited 2, false)
            else ((if has_address then transmitting else receiving), true)))

-- The receiving board: its motor, and the count of sem_motor_pwm_change.
pub record Receiver : Type 0 where
  pub motor : Motor
  pub sem : ℕ

-- A round of the receiver; `none` is a recvfrom that failed, after which the semaphore is given too.
pub receive : Option ℤ → Receiver → Receiver
receive none r = record r { sem = r.sem + 1 }
receive (some v) r = record { motor = retarget v r.motor; sem = r.sem + 1 }

-- A round of the transmitter: what it sends. The call has the position, the comments on it the desired
-- position.
unfoldable pub transmit : Motor → ℤ
transmit m = m.shared.position

-- The tasks that `create_tasks` spawns, in order: the driver with its mode, the UDP task with the
-- address and the port, the HTTP server, and the task of the statistics; each with its priority.
pub data Spawn : Type 0 where
  motor_driver : ℕ → Bool → Spawn
  udp_server : ℕ → Bool → ℕ → Spawn
  http_server : ℕ → Spawn
  statistics_monitor : ℕ → Spawn

abbrev pub default_port : ℕ
default_port = 8000

-- `has_address` says that ip_address is not NULL.
pub create_tasks : Bool → Bool → List Spawn
create_tasks transmiter has_address =
    motor_driver 100 (not transmiter)
    ∷ udp_server 151 has_address default_port
    ∷ (if transmiter then [] else http_server 153 ∷ statistics_monitor 152 ∷ [])
