-- ===== src/Motor.antt =====
-- The driver of the stepper motor, semestral_project/src/stepper_motor.c and the constants of
-- semestral_project/include/stepper_motor.h, over the shared data of include/shared.h.
-- A volatile register is an input where the code reads it, and an entry of a log, newest first,
-- where the code writes it; a call that (dis)connects or masks the interrupt is an entry too.
pub mod Pwm
pub mod Isr
mod Tests
pub mod Section
pub mod Service
pub mod Fresh
pub mod Task
pub mod Control
pub mod Quadrature
use Prim.Native.Nat.{bit_or}
use ctu_real_time_systems_pr.Base.{
  Bool, List, Option, [], abs, false, get_or, has_bit, i32, i8, if◌then◌else◌, ltb, ltb_ℤ, max_ℤ,
  min_ℤ, neg, neg_part, negsuc, none, pos, pos_part, replicate, set, shr_ℤ, some, true, u32, ℕ, ℤ,
  ◌&&◌, ◌*ℤ◌, ◌*◌, ◌+ℤ◌, ◌+◌, ◌-ℤ◌, ◌/◌, ◌==◌, ◌^◌, ◌||◌, ◌∷◌,
}

-- `motor_driver_shared_t`
pub record MotorShared : Type 0 where
  pub irq_count : ℕ  -- uint32_t
  pub position : ℤ  -- int32_t, as the next two
  pub desired_position : ℤ
  pub pwm_duty : ℤ

-- The registers that the driver writes.
pub data Reg : Type 0 where
  gpio_int_status gpio_dirm gpio_int_type gpio_int_polarity gpio_int_any : Reg
  gpio_int_enable gpio_int_disable pwm_period_register motor_cr pwm_duty_cr : Reg

pub data Access : Type 0 where
  write : Reg → ℕ → Access
  int_connect int_enable int_disable int_disconnect : Access

-- The globals of the driver, the shared structure, and what was done to the hardware so far.
pub record Motor : Type 0 where
  pub shared : MotorShared
  pub motor_state : ℕ
  pub prev_motor_state : ℕ
  pub set_position_to_desired : Bool
  pub log : List Access

abbrev pub pwm_period : ℕ
pwm_period = 5000

abbrev pub min_pwm_duty : ℕ
min_pwm_duty = 3

-- BIT(2), BIT(6), and the positions of the bits that the code names
abbrev pub motor_irq_pin : ℕ
motor_irq_pin = 2 ^ 2

abbrev pub motor_cr_pwm_enable : ℕ
motor_cr_pwm_enable = 6

abbrev pub motor_sr_irc_a_mon : ℕ
motor_sr_irc_a_mon = 8

abbrev pub motor_sr_irc_b_mon : ℕ
motor_sr_irc_b_mon = 9

abbrev pub duty_dir_r : ℕ
duty_dir_r = 31

abbrev pub duty_dir_f : ℕ
duty_dir_f = 30

-- TRANSITION(old, new)
unfoldable pub transition : ℕ → ℕ → ℕ
transition old new = bit_or (old * 2 ^ 2) new

-- TRANSITION_TABLE: the designated entries over a table of zeros
unfoldable pub transition_table : List ℤ
unfolding transition
transition_table =
    let ups =
      set
        (set (set (set (replicate 16 (pos 0)) (transition 0 1) (pos 1)) (transition 1 3) (pos 1))
          (transition 3 2) (pos 1))
        (transition 2 0) (pos 1) in
    set
      (set (set (set ups (transition 1 0) (negsuc 0)) (transition 3 1) (negsuc 0)) (transition 2 3)
        (negsuc 0))
      (transition 0 2) (negsuc 0)

-- TRANSITION_TABLE[TRANSITION(old, new)]; an index out of the table would give 0 here.
unfoldable pub table_at : ℕ → ℕ → ℤ
unfolding transition transition_table
table_at old new = get_or transition_table (transition old new) (pos 0)

put : Access → Motor → Motor
put a m = record m { log = a ∷ m.log }

-- The word that `set_motor_dutycycle` puts into PWM_DUTY_CR; DUTY_CYCLE is bit 0.
unfoldable pub duty_word : ℤ → ℕ
duty_word d =
    if ltb_ℤ d (pos 0)
    then bit_or (2 ^ duty_dir_r) (pwm_period * neg_part d / 100)
    else bit_or (2 ^ duty_dir_f) (pwm_period * pos_part d / 100)

unfoldable pub set_motor_dutycycle : ℤ → Motor → Motor
unfolding put
set_motor_dutycycle d m =
    if ltb_ℤ d (negsuc 99) || ltb_ℤ (pos 100) d then m else put (write pwm_duty_cr (duty_word d)) m

-- The distance, limited to -200 .. 200, times its absolute value, shifted right by 8 and limited.
power : ℤ → ℤ
unfolding ◌*ℤ◌ i8
power distance =
    let d = max_ℤ (min_ℤ distance (pos 200)) (negsuc 199) in
    i8 (min_ℤ (max_ℤ (shr_ℤ (d *ℤ pos (abs d)) 8) (negsuc 99)) (pos 100))

-- The tests look at the limited distance.
unfoldable pub get_pwm : ℤ → ℤ
unfolding power
get_pwm distance =
    let d = max_ℤ (min_ℤ distance (pos 200)) (negsuc 199) in
    let pwm = power distance in
    if ltb_ℤ d (pos 0) && ltb_ℤ (neg (pos min_pwm_duty)) pwm
    then neg (pos min_pwm_duty)
    else (if ltb_ℤ (pos 0) d && ltb_ℤ pwm (pos min_pwm_duty) then pos min_pwm_duty else pwm)

-- irc_a | irc_b, from the two reads of MOTOR_SR
unfoldable pub read_state : ℕ → ℕ → ℕ
read_state sr_a sr_b =
    let irc_a : ℕ = if has_bit sr_a motor_sr_irc_a_mon then 1 else 0 in
    let irc_b : ℕ = if has_bit sr_b motor_sr_irc_b_mon then 2 else 0 in bit_or irc_a irc_b

-- get_pwm(desired_position - position)
unfoldable pub wanted_duty : Motor → ℤ
wanted_duty m = get_pwm (i32 (m.shared.desired_position -ℤ m.shared.position))

-- Both the interrupt handler and the task set the duty and then record it.
unfoldable pub store_duty : ℤ → Motor → Motor
store_duty d m = record m { shared = record (m.shared) { pwm_duty = d } }

pub apply_duty : ℤ → Motor → Motor
unfolding store_duty set_motor_dutycycle
apply_duty d m = store_duty d (set_motor_dutycycle d m)

-- The part of `motor_isr` before the duty: the state, the position and the count.
count_step : ℕ → ℕ → Motor → Motor
count_step sr_a sr_b m =
    let state = read_state sr_a sr_b in
    record m {
      prev_motor_state = m.motor_state;
      motor_state = state;
      shared = record (m.shared) {
        position = i32 (m.shared.position +ℤ table_at m.motor_state state);
        irq_count = u32 (m.shared.irq_count + 1);
      };
    }

-- `motor_isr`; the two words are what MOTOR_SR reads as, first and then.
unfoldable pub motor_isr : ℕ → ℕ → Motor → Motor
unfolding count_step put apply_duty
motor_isr sr_a sr_b m =
    let m' = count_step sr_a sr_b m in
    put (write gpio_int_status motor_irq_pin)
      (if m'.set_position_to_desired then apply_duty (wanted_duty m') m' else m')

-- `motor_init`, with the accesses in the order of the code, the last one on top.
pub motor_init : ℕ → ℕ → Motor → Motor
motor_init sr_a sr_b m = record m {
  shared = record (m.shared) { position = pos 0; irq_count = 0 };
  motor_state =
      bit_or (if has_bit sr_a motor_sr_irc_a_mon then 1 else 0)
        ((if has_bit sr_b motor_sr_irc_b_mon then 1 else 0) * 2 ^ 1);
  log =
      int_enable
      ∷ int_connect
      ∷ write pwm_duty_cr 0
      ∷ write motor_cr (2 ^ motor_cr_pwm_enable)
      ∷ write pwm_period_register pwm_period
      ∷ write gpio_int_enable motor_irq_pin
      ∷ write gpio_int_any 0
      ∷ write gpio_int_polarity 0
      ∷ write gpio_int_type motor_irq_pin
      ∷ write gpio_dirm 0
      ∷ write gpio_int_status motor_irq_pin
      ∷ m.log;
}

-- `motor_cleanup`
pub motor_cleanup : Motor → Motor
motor_cleanup m = record m {
  log = int_disconnect ∷ int_disable ∷ write gpio_int_disable motor_irq_pin ∷ m.log;
}

-- `motor` up to its loop
unfoldable pub motor_start : Bool → ℕ → ℕ → Motor → Motor
unfolding motor_init
motor_start set_desired sr_a sr_b m =
    motor_init sr_a sr_b (record m { set_position_to_desired = set_desired })

-- `motor_driver_shared` of semestral_project/src/shared.c, and static storage
abbrev pub boot : Motor
boot = record {
  shared = record { irq_count = 0; position = pos 0; desired_position = pos 0; pwm_duty = pos 0 };
  motor_state = 0;
  prev_motor_state = 0;
  set_position_to_desired = false;
  log = [];
}
