-- ===== src/Motor/Pwm.antt =====
-- `get_pwm` and the duty register of semestral_project/src/stepper_motor.c.
use ctu_real_time_systems_pr.Base.{
  Bool, abs, all_below, all_below_at, ap, arith, dec_lt, if◌then◌else◌, inl, inr, leb, ltb_ℤ, min,
  neg_part, negsuc, pos, pos_part, refl, sub_ℕ, suc, true, zero, ℕ, ℤ, ◌%◌, ◌&&◌, ◌*◌, ◌+ℤ◌, ◌+◌,
  ◌-◌, ◌/◌, ◌<ℤ◌, ◌<◌, ◌==◌, ◌^◌, ◌∙◌, ◌≡◌, ◌≤ℤ◌, ◌≤◌, ◌⊎◌,
}
use ctu_real_time_systems_pr.Motor.{get_pwm, duty_word, pwm_period}

-- The answer depends on the distance limited to -200 .. 200.
pwm_pos : (n : ℕ) → get_pwm (pos n) ≡ get_pwm (pos (min n 200))
unfolding get_pwm
pwm_pos n = ground arith

pwm_neg : (n : ℕ) → get_pwm (negsuc n) ≡ get_pwm (negsuc (min n 199))
unfolding get_pwm
pwm_neg n = ground arith

-- What is checked of each distance from 1 to 200, on both sides of zero, and of the next one.
abbrev forward : ℕ → ℕ
forward n = pos_part (get_pwm (pos n))

abbrev backward : ℕ → ℕ
backward zero = neg_part (get_pwm (pos 0))
backward (suc n) = neg_part (get_pwm (negsuc n))

abbrev row : ℕ → Bool
row n =
    leb 3 (forward (suc n))
    && leb (forward (suc n)) 100
    && leb (forward n) (forward (suc n))
    && leb (forward (suc n)) (backward (suc n))
    && leb (backward (suc n)) (forward (suc n) + 1)
    && leb (backward (suc n)) 100
    && leb (backward n) (backward (suc n))
    && (neg_part (get_pwm (pos (suc n))) == 0)
    && (pos_part (get_pwm (negsuc n)) == 0)

rows : all_below row 200 ≡ true
unfolding get_pwm all_below
rows = refl

record Row (n : ℕ) : Type 0 where
  low : 3 ≤ forward (suc n)
  high : forward (suc n) ≤ 100
  rises : forward n ≤ forward (suc n)
  odd_low : forward (suc n) ≤ backward (suc n)
  odd_high : backward (suc n) ≤ forward (suc n) + 1
  back_high : backward (suc n) ≤ 100
  falls : backward n ≤ backward (suc n)
  ahead : neg_part (get_pwm (pos (suc n))) ≡ 0
  back : pos_part (get_pwm (negsuc n)) ≡ 0

row_at : (n : ℕ) → row n ≡ true → Row n
row_at n h = ground arith

Row_lem : (n : ℕ) → n < 200 → Row n
Row_lem n h = row_at n (all_below_at row 200 rows h)

pwm_zero : get_pwm (pos 0) ≡ pos 0
unfolding get_pwm
pwm_zero = refl

Row-all : (n : ℕ) → Row n
Row-all n = elim (dec_lt n 200) [ yes small ↦ Row_lem n small | no large ↦ far n (omega arith) ]
  where
    far : (n : ℕ) → 200 ≤ n → Row n
    far zero h = absurd (omega arith)
    far (suc n) h =
        let a : min (suc n) 200 ≡ 200 = omega arith in
        let b : min (suc (suc n)) 200 ≡ 200 = omega arith in
        let c : min (suc n) 199 ≡ 199 = omega arith in
        let d : min n 199 ≡ 199 = omega arith in
        let e = pwm_pos (suc n) ∙ ap (λ k. get_pwm (pos k)) a in
        let f = pwm_pos (suc (suc n)) ∙ ap (λ k. get_pwm (pos k)) b in
        let g = pwm_neg (suc n) ∙ ap (λ k. get_pwm (negsuc k)) c in
        let k = pwm_neg n ∙ ap (λ k. get_pwm (negsuc k)) d in
        ground (arith, e, f, g, k, Row_lem 199 (omega arith))

-- The duty is a percentage: `get_pwm` stays within -100 .. 100 at every distance.
pub get_pwm_bounds : (d : ℤ) → (negsuc 99 ≤ℤ get_pwm d) × (get_pwm d ≤ℤ pos 100)
get_pwm_bounds (pos zero) = rw pwm_zero (omega arith)
get_pwm_bounds (pos (suc n)) = omega (arith, Row-all n)
get_pwm_bounds (negsuc n) = omega (arith, Row-all n)

-- The motor is driven toward the target, by at least the least duty: 3 or more at a positive
-- distance, -3 or less at a negative one, and not at all exactly at the target.
pub get_pwm_toward :
    (d : ℤ)
    → (pos 0 <ℤ d) × (pos 3 ≤ℤ get_pwm d)
      ⊎ (d <ℤ pos 0) × (get_pwm d ≤ℤ negsuc 2)
      ⊎ (d ≡ pos 0) × (get_pwm d ≡ pos 0)
get_pwm_toward (pos zero) = inr (inr (refl, pwm_zero))
get_pwm_toward (pos (suc n)) = inl (omega arith, omega (arith, Row-all n))
get_pwm_toward (negsuc n) = inr (inl (omega arith, omega (arith, Row-all n)))

forward_mono : (k n : ℕ) → forward n ≤ forward (k + n)
forward_mono zero n = let e : zero + n ≡ n = omega arith in rw e (omega arith)
forward_mono (suc k) n =
    let e : suc k + n ≡ suc (k + n) = omega arith in
    rw e (omega (arith, forward_mono k n, Row-all (k + n)))

backward_mono : (k n : ℕ) → backward n ≤ backward (k + n)
backward_mono zero n = let e : zero + n ≡ n = omega arith in rw e (omega arith)
backward_mono (suc k) n =
    let e : suc k + n ≡ suc (k + n) = omega arith in
    rw e (omega (arith, backward_mono k n, Row-all (k + n)))

forward_le : (a b : ℕ) → a ≤ b → forward a ≤ forward b
forward_le a b h = let e : b - a + a ≡ b = omega arith in rw e at (forward_mono (b - a) a)

backward_le : (a b : ℕ) → a ≤ b → backward a ≤ backward b
backward_le a b h = let e : b - a + a ≡ b = omega arith in rw e at (backward_mono (b - a) a)

forward_sign : (n : ℕ) → neg_part (get_pwm (pos n)) ≡ 0
forward_sign zero = rw pwm_zero
forward_sign (suc n) = (Row-all n).ahead

-- A larger distance never gives a smaller duty.
get_pwm_mono : (a b : ℤ) → a ≤ℤ b → get_pwm a ≤ℤ get_pwm b
get_pwm_mono (pos m) (pos n) h =
    omega (arith, forward_le m n (omega arith), forward_sign m, forward_sign n)
get_pwm_mono (negsuc m) (pos n) h = omega (arith, (Row-all m).back, forward_sign n)
get_pwm_mono (pos m) (negsuc n) h = absurd (omega arith)
get_pwm_mono (negsuc m) (negsuc n) h =
    omega (arith, backward_le (suc n) (suc m) (omega arith), (Row-all m).back, (Row-all n).back)

-- The two directions are driven alike, but the shift rounds down: at opposite distances the duties
-- are opposite, or the backward one is stronger by one percent.
get_pwm_opposite :
    (n : ℕ)
    → (get_pwm (pos n) +ℤ get_pwm (sub_ℕ 0 n) ≡ pos 0)
      ⊎ (get_pwm (pos n) +ℤ get_pwm (sub_ℕ 0 n) ≡ negsuc 0)
unfolding ◌+ℤ◌
get_pwm_opposite zero = inl (rw pwm_zero)
get_pwm_opposite (suc n) =
    let e : sub_ℕ 0 (suc n) ≡ negsuc n = ground arith in rw e (ground (arith, Row-all n))

full_forward : (forward 160 ≡ 100) × (backward 160 ≡ 100)
unfolding get_pwm
full_forward = (refl, refl)

-- From 160 steps on, in either direction, the motor runs at its full duty.
pub get_pwm_full : (d : ℤ) → 160 ≤ abs d → abs (get_pwm d) ≡ 100
get_pwm_full (pos zero) h = absurd (omega arith)
get_pwm_full (pos (suc n)) h =
    omega (arith, forward_le 160 (suc n) (omega arith), full_forward, Row-all n)
get_pwm_full (negsuc n) h =
    omega (arith, backward_le 160 (suc n) (omega arith), full_forward, Row-all n)

-- What PWM_DUTY_CR holds for each duty of 0 to 100 percent, on both sides.
abbrev word_row : ℕ → Bool
word_row n =
    let f = duty_word (pos n) in
    let b = duty_word (negsuc n) in
    (f % 2 ^ 30 == 50 * n) && (f / 2 ^ 30 == 1) && (b % 2 ^ 30 == 50 * (n + 1)) && (b / 2 ^ 30 == 2)

word_rows : all_below word_row 101 ≡ true
unfolding duty_word all_below
word_rows = refl

word_at :
    (n : ℕ)
    → word_row n ≡ true
    → (duty_word (pos n) % 2 ^ 30 ≡ 50 * n)
      × (duty_word (pos n) / 2 ^ 30 ≡ 1)
      × (duty_word (negsuc n) % 2 ^ 30 ≡ 50 * (n + 1))
      × (duty_word (negsuc n) / 2 ^ 30 ≡ 2)
word_at n h = ground arith

-- For a duty of -100 .. 100 the register holds, in its low 30 bits, that percentage of the period
-- of 5000, and above them exactly one direction bit: bit 31 backward, bit 30 forward.
duty_word_fields :
    (d : ℤ)
    → abs d ≤ 100
    → (duty_word d % 2 ^ 30 ≡ pwm_period * abs d / 100)
      × (duty_word d / 2 ^ 30 ≡ (if ltb_ℤ d (pos 0) then 2 else 1))
duty_word_fields (pos n) h =
    let w = word_at n (all_below_at word_row 101 word_rows (omega arith)) in
    (omega arith, ground (arith, w))
duty_word_fields (negsuc n) h =
    let w = word_at n (all_below_at word_row 101 word_rows (omega arith)) in
    (omega arith, ground (arith, w))
