-- ===== src/Udp/Roles.antt =====
-- How `run_udp_srv` of semestral_project/src/server.c opens, and which part a board has by the arguments
-- of `create_tasks` of semestral_project/src/main.c.
use ctu_real_time_systems_pr.Base.{Bool, List, [], arith, false, true, ◌∷◌, ◌≡◌}
use ctu_real_time_systems_pr.Udp.{
  Opening, Opened, receiving, transmitting, open_socket, Spawn, create_tasks, motor_driver,
}

-- How a board takes part: it is driven; it receives.
abbrev pub drives : List Spawn → Bool
drives [] = false
drives (motor_driver priority set_desired ∷ tasks) = set_desired
drives (_ ∷ tasks) = drives tasks

abbrev pub receives : Opened → Bool
receives receiving = true
receives _ = false

-- The arguments of create_tasks agree, so that a board is driven exactly if it receives, if it transmits exactly where
-- it is given an address.
pub roles_lem :
    (k : Opening) (transmiter : Bool)
    → k.timestamp_fails ≡ false
    → k.socket_fails ≡ false
    → k.bind_fails ≡ false
    → receives (open_socket k transmiter).0 ≡ drives (create_tasks transmiter transmiter)
unfolding open_socket create_tasks
roles_lem k false p q r = rw (p, q, r)
roles_lem k true p q r = rw (p, q, r)

-- A socket is left open only in one of the two loops.
abbrev pub loops : Opened → Bool
loops receiving = true
loops transmitting = true
loops _ = false

pub open_socket_lem :
    (k : Opening) (has_address : Bool)
    → (open_socket k has_address).1 ≡ loops (open_socket k has_address).0
unfolding open_socket
open_socket_lem k has_address = ground arith
