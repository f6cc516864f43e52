-- ===== src/Motor/Task.antt =====
-- The task `motor` of semestral_project/src/stepper_motor.c, interleaved with its interrupt handler
-- and with the receiver of semestral_project/src/server.c: which runs next is left open.
use ctu_real_time_systems_pr.Base.{
  Bool, IsI32, false, if◌then◌else◌, suc, true, ℕ, ℤ, ◌+◌, ◌∷◌, ◌≡◌,
}
use ctu_real_time_systems_pr.Motor.{
  Motor, Access, wanted_duty, motor_isr, set_motor_dutycycle, store_duty,
}

-- Where the loop of `motor` stands, with its local variable.
pub data Pc : Type 0 where
  waiting : Pc  -- at semTake
  woken : Pc  -- before get_pwm
  computed : ℤ → Pc  -- before intDisable
  masked : ℤ → Pc  -- before set_motor_dutycycle
  driven : ℤ → Pc  -- before the duty is recorded
  recorded : Pc  -- before intEnable

-- `sem` counts sem_motor_pwm_change; `received` says that the receiver stands between recvfrom and
-- semGive. A recvfrom that fails leaves the target as it is, as one that receives it again.
pub record World : Type 0 where
  pub motor : Motor
  pub pc : Pc
  pub enabled : Bool
  pub sem : ℕ
  pub received : Bool

abbrev pub put : Access → Motor → Motor
put a m = record m { log = a ∷ m.log }

abbrev pub retarget : ℤ → Motor → Motor
retarget v m = record m { shared = record (m.shared) { desired_position = v } }

-- One step of the task, the handler or the receiver. The handler is atomic for the task.
pub data Step : World → World → Type 0 where
  sem_take :
      (w : World) (n : ℕ)
      → w.pc ≡ waiting
      → w.sem ≡ suc n
      → Step w
          (record w { sem = n; pc = if w.motor.set_position_to_desired then woken else waiting })
  compute : (w : World) → w.pc ≡ woken → Step w (record w { pc = computed (wanted_duty w.motor) })
  mask :
      (w : World) (d : ℤ)
      → w.pc ≡ computed d
      → Step w (record w { pc = masked d; enabled = false; motor = put Access.int_disable w.motor })
  set_duty :
      (w : World) (d : ℤ)
      → w.pc ≡ masked d
      → Step w (record w { pc = driven d; motor = set_motor_dutycycle d w.motor })
  record_duty :
      (w : World) (d : ℤ)
      → w.pc ≡ driven d
      → Step w (record w { pc = recorded; motor = store_duty d w.motor })
  unmask :
      (w : World)
      → w.pc ≡ recorded
      → Step w (record w { pc = waiting; enabled = true; motor = put Access.int_enable w.motor })
  interrupt :
      (w : World) (a b : ℕ) → w.enabled ≡ true → Step w (record w { motor = motor_isr a b w.motor })
  receive :
      (w : World) (v : ℤ)
      → IsI32 v
      → w.received ≡ false
      → Step w (record w { received = true; motor = retarget v w.motor })
  sem_give :
      (w : World) → w.received ≡ true → Step w (record w { received = false; sem = w.sem + 1 })

pub data Reach (w : World) : World → Type 0 where
  here : Reach w w
  next : {u v : World} → Reach w u → Step u v → Reach w v
