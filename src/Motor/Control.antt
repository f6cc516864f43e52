-- ===== src/Motor/Control.antt =====
-- The closed loop of `motor_isr` in semestral_project/src/stepper_motor.c with a motor that obeys:
-- between two interrupts the shaft turns by one phase in the direction of the duty.
use ctu_real_time_systems_pr.Base.{
  IsI32, List, [], abs, ap, arith, i32, i32-IsI32, i32_id, if◌then◌else◌, inl, inr, int_laws,
  length, ltb_ℤ, negsuc, pos, true, ℕ, ℤ, ◌+ℤ◌, ◌-ℤ◌, ◌-◌, ◌<ℤ◌, ◌<◌, ◌^◌, ◌∙◌, ◌∷◌, ◌≡◌, ◌≤ℤ◌, ◌≤◌,
  ◌⊎◌,
}
use ctu_real_time_systems_pr.Motor.{Motor, get_pwm, wanted_duty, motor_isr, read_state, table_at}
use ctu_real_time_systems_pr.Motor.Pwm.{get_pwm_toward}
use ctu_real_time_systems_pr.Motor.Isr.{isr_drives}
use ctu_real_time_systems_pr.Motor.Quadrature.{
  Turn, forth, back, still, turned, steps, run_isr, isr_counts, table_turned, read_state-lt,
}

-- The turn that a motor makes which obeys the duty.
abbrev pub obeyed : ℤ → Turn
obeyed d = if ltb_ℤ (pos 0) d then forth else (if ltb_ℤ d (pos 0) then back else still)

-- Each reading shows the shaft turned as the duty of that moment asks.
abbrev pub Obeys : Motor → List (ℕ × ℕ) → Type 0
Obeys m [] = Unit {0}
Obeys m ((a, b) ∷ rs) =
    (read_state a b ≡ turned (obeyed m.shared.pwm_duty) m.motor_state) × Obeys (motor_isr a b m) rs

-- A driven motor whose duty is up to date, and whose distance is no overflow.
pub record Driven (m : Motor) (n : ℕ) : Type 0 where
  pub driven : m.set_position_to_desired ≡ true
  pub phase : m.motor_state < 4
  pub at : IsI32 m.shared.position
  pub target : IsI32 m.shared.desired_position
  pub duty : m.shared.pwm_duty ≡ wanted_duty m
  pub distance : abs (m.shared.desired_position -ℤ m.shared.position) ≡ n
  pub no_overflow : n < 2 ^ 31

obeyed_lem :
    (z : ℤ)
    → (pos 0 <ℤ z) × (obeyed z ≡ forth)
      ⊎ (z <ℤ pos 0) × (obeyed z ≡ back)
      ⊎ (z ≡ pos 0) × (obeyed z ≡ still)
obeyed_lem z = ground arith

-- How a position changes, and how far the target then is.
abbrev Nearer : ℤ → ℤ → ℤ → Type 0
Nearer p d s = IsI32 (p +ℤ s) × (abs (d -ℤ (p +ℤ s)) ≡ abs (d -ℤ p) - 1)

Nearer-forth : (p d : ℤ) → IsI32 p → IsI32 d → pos 0 <ℤ d -ℤ p → Nearer p d (pos 1)
unfolding ◌+ℤ◌ ◌-ℤ◌
Nearer-forth (pos p) (pos d) hp hd h = ground arith
Nearer-forth (pos p) (negsuc d) hp hd h = ground arith
Nearer-forth (negsuc p) (pos d) hp hd h = ground arith
Nearer-forth (negsuc p) (negsuc d) hp hd h = ground arith

Nearer-back : (p d : ℤ) → IsI32 p → IsI32 d → d -ℤ p <ℤ pos 0 → Nearer p d (negsuc 0)
unfolding ◌+ℤ◌ ◌-ℤ◌
Nearer-back (pos p) (pos d) hp hd h = ground arith
Nearer-back (pos p) (negsuc d) hp hd h = ground arith
Nearer-back (negsuc p) (pos d) hp hd h = ground arith
Nearer-back (negsuc p) (negsuc d) hp hd h = ground arith

+ℤ_zero : (a : ℤ) → a +ℤ pos 0 ≡ a
+ℤ_zero a = omega int_laws

-- The turn taken at a distance brings the position nearer by one, and never past the target.
nearer : (p d : ℤ) → IsI32 p → IsI32 d → Nearer p d (steps (obeyed (get_pwm (d -ℤ p))))
nearer p d hp hd = elim (get_pwm_toward (d -ℤ p)) [
  | inl (far, fast) ↦ rw (forward _ fast) (Nearer-forth p d hp hd far)
  | inr (inl (far, fast)) ↦ rw (backward _ fast) (Nearer-back p d hp hd far)
  | inr (inr (there, stop)) ↦ rw (stop, +ℤ_zero) (hp, rw there)
]
  where
    forward : (z : ℤ) → pos 3 ≤ℤ z → obeyed z ≡ forth
    forward z h = ground (arith, obeyed_lem z)

    backward : (z : ℤ) → z ≤ℤ negsuc 2 → obeyed z ≡ back
    backward z h = ground (arith, obeyed_lem z)

within : (z : ℤ) → abs z < 2 ^ 31 → IsI32 z
within z h = omega arith

-- One interrupt of a driven motor that obeys.
Driven-step :
    (a b : ℕ) {m : Motor} {n : ℕ}
    → Driven m n
    → read_state a b ≡ turned (obeyed m.shared.pwm_duty) m.motor_state
    → Driven (motor_isr a b m) (n - 1)
unfolding wanted_duty
Driven-step a b {m} {n} v e = record {
  driven = u.2;
  phase = rw c.1 (read_state-lt a b);
  at = rw c.0 (i32-IsI32 _);
  target = rw u.1 v.target;
  duty = u.0;
  distance = rw (u.1, moved) (near.1 ∙ ap (λ k. k - 1) v.distance);
  no_overflow = omega (arith, v.no_overflow);
}
  where
    open (m.shared) use {position, desired_position}

    c :
        ((motor_isr a b m).shared.position
          ≡ i32 (position +ℤ table_at m.motor_state (read_state a b)))
        × ((motor_isr a b m).motor_state ≡ read_state a b)
    c = isr_counts a b m

    u :
        ((motor_isr a b m).shared.pwm_duty ≡ wanted_duty (motor_isr a b m))
        × ((motor_isr a b m).shared.desired_position ≡ desired_position)
        × ((motor_isr a b m).set_position_to_desired ≡ true)
    u = isr_drives a b m v.driven

    near :
        Nearer position desired_position (steps (obeyed (get_pwm (desired_position -ℤ position))))
    near = nearer position desired_position v.at v.target

    fits : IsI32 (desired_position -ℤ position)
    fits = within _ (rw v.distance v.no_overflow)

    drive : m.shared.pwm_duty ≡ get_pwm (desired_position -ℤ position)
    drive = v.duty ∙ ap get_pwm (i32_id _ fits)

    moved :
        (motor_isr a b m).shared.position
        ≡ position +ℤ steps (obeyed (get_pwm (desired_position -ℤ position)))
    moved = c.0 ∙ rw (e, table_turned _ _ v.phase, drive) (i32_id _ near.0)

at_target :
    (m : Motor) → abs (m.shared.desired_position -ℤ m.shared.position) ≡ 0 → wanted_duty m ≡ pos 0
unfolding wanted_duty
at_target m h =
    rw (nought (m.shared.desired_position -ℤ m.shared.position) h, i32_id (pos 0) (omega arith))
      (stop (get_pwm_toward (pos 0)))
  where
    nought : (z : ℤ) → abs z ≡ 0 → z ≡ pos 0
    nought z q = ground arith

    stop :
        (pos 0 <ℤ pos 0) × (pos 3 ≤ℤ get_pwm (pos 0))
          ⊎ (pos 0 <ℤ pos 0) × (get_pwm (pos 0) ≤ℤ negsuc 2)
          ⊎ (pos 0 ≡ pos 0) × (get_pwm (pos 0) ≡ pos 0)
        → get_pwm (pos 0) ≡ pos 0
    stop t = ground arith

-- A motor that obeys reaches its target: once it is driven with an up-to-date duty, at a distance
-- of `n` that fits in 31 bits, then after `n` interrupts or more it stands at the target, and the
-- duty is zero.
pub motor_reaches_target :
    (rs : List (ℕ × ℕ)) {m : Motor} {n : ℕ}
    → Driven m n
    → Obeys m rs
    → n ≤ length rs
    → ((run_isr rs m).shared.position ≡ m.shared.desired_position)
      × ((run_isr rs m).shared.pwm_duty ≡ pos 0)
motor_reaches_target [] {m} v o h = (arrived _ _ there, v.duty ∙ stopped)
  where
    there : abs (m.shared.desired_position -ℤ m.shared.position) ≡ 0
    there = omega (arith, v.distance)

    arrived : (p d : ℤ) → abs (d -ℤ p) ≡ 0 → p ≡ d
    arrived p d q = omega int_laws

    stopped : wanted_duty m ≡ pos 0
    stopped = at_target m there
motor_reaches_target ((a, b) ∷ rs) {m} v o h =
    let (at, stop) = motor_reaches_target rs (Driven-step a b v o.0) o.1 (omega arith) in
    (at ∙ (isr_drives a b m v.driven).1, stop)
