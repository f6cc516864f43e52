-- ===== src/Float/Rounding.antt =====
-- How far a rounded number is from the exact one.
use native.Mathlib.Nat.{
  div-one, mul-add-div_right, div-eq_of_lt, mul-add-mod_self_right, mod-eq_of_lt, div-add-mod',
  mod-lt, pow-le-pow_right, two-pow-succ, add-mul, mul-div-le, div-lt_iff_lt-mul, le-div_iff_mul-le,
  lt-mul-div-succ, one-mul, le-div_iff_mul-le, lt-mul-div-succ, one-mul, one-le-pow, mul_comm,
  mul_assoc, mul-le-mul_left,
}
use ctu_real_time_systems_pr.Base.{
  Bool-cases, ap, arith, dec_lt, false, inl, inr, leb, refl, suc, sym, zero, ℕ, ◌%◌, ◌*◌, ◌+◌, ◌-◌,
  ◌/◌, ◌<◌, ◌^◌, ◌∙◌, ◌≡◌, ◌≤◌,
}
use ctu_real_time_systems_pr.Float.{Format, log2, exponent, round_at, round}

pub pow_add : (a b : ℕ) → 2 ^ (a + b) ≡ 2 ^ a * 2 ^ b
pow_add zero b = grind arith
pow_add (suc a) b =
    let e : suc a + b ≡ suc (a + b) = omega arith in
    rw e (
      omega (
        arith,
        pow_add a b,
        two-pow-succ (a + b),
        ap (λ (t : ℕ). t * 2 ^ b) (two-pow-succ a),
        add-mul (2 ^ a) (2 ^ a) (2 ^ b),
      ))

pub pow_pos : (a : ℕ) → 0 < 2 ^ a
pow_pos a = omega (arith, one-le-pow a 2 (omega arith))

pub pow_lt : (a b : ℕ) → 2 ^ a < 2 ^ b → a < b
pow_lt a b h = elim (dec_lt a b) [
  | yes p ↦ p
  | no p ↦
      absurd (omega (arith, pow-le-pow_right {n = 2} (omega arith) {i = b} {j = a} (omega arith)))
]

pub pow_le : (a b : ℕ) → a ≤ b → 2 ^ a ≤ 2 ^ b
pow_le a b h = pow-le-pow_right {n = 2} (omega arith) {i = a} {j = b} h

scaled_low : (k g n : ℕ) → 2 ^ g ≤ n / 2 ^ k → 2 ^ (k + g) ≤ n
scaled_low k g n h = omega (arith, pow_add k g, mul-le-mul_left (2 ^ k) h, mul-div-le n (2 ^ k))

scaled_high : (k g n : ℕ) → n / 2 ^ k < 2 ^ g → n < 2 ^ (k + g)
scaled_high k g n h =
    let grow = λ (p : n / 2 ^ k + 1 ≤ 2 ^ g). mul-le-mul_left (2 ^ k) p in
    let room = grow (omega arith) in omega (arith, pow_add k g, room, lt-mul-div-succ n (pow_pos k))

quotient_pos : (k n : ℕ) → 2 ^ k ≤ n → 0 < n / 2 ^ k
quotient_pos k n h =
    (le-div_iff_mul-le {x = 1} {y = n} (pow_pos k)).1 (omega (arith, one-mul (2 ^ k)))

pub log2_low : (l n : ℕ) → 0 < n → 2 ^ log2 l n ≤ n
unfolding log2
log2_low zero n h = omega arith
log2_low (suc l) n h = elim (Bool-cases (leb (2 ^ 2 ^ l) n)) [
  | inl large ↦
      let k = quotient_pos (2 ^ l) n (ground arith) in
      rw (large, log2)
        (scaled_low (2 ^ l) (log2 l (n / 2 ^ 2 ^ l)) n (log2_low l (n / 2 ^ 2 ^ l) k))
  | inr small ↦ rw (small, log2) (log2_low l n h)
]

square_room : (l n : ℕ) → n < 2 ^ 2 ^ suc l → n / 2 ^ 2 ^ l < 2 ^ 2 ^ l
square_room l n h =
    let e : 2 ^ suc l ≡ 2 ^ l + 2 ^ l = two-pow-succ l in
    (div-lt_iff_lt-mul {x = n} {y = 2 ^ 2 ^ l} (pow_pos (2 ^ l))).1
      (omega (arith, ap (λ (t : ℕ). 2 ^ t) e, pow_add (2 ^ l) (2 ^ l)))

pub log2_high : (l n : ℕ) → n < 2 ^ 2 ^ l → n < 2 ^ (log2 l n + 1)
unfolding log2
log2_high zero n h = h
log2_high (suc l) n h = elim (Bool-cases (leb (2 ^ 2 ^ l) n)) [
  | inl large ↦
      let g = log2 l (n / 2 ^ 2 ^ l) in
      let e : 2 ^ l + g + 1 ≡ 2 ^ l + (g + 1) = omega arith in
      rw (large, log2)
        (rw e (scaled_high (2 ^ l) (g + 1) n (log2_high l (n / 2 ^ 2 ^ l) (square_room l n h))))
  | inr small ↦ rw (small, log2) (log2_high l n (ground arith))
]

log2_zero : (l : ℕ) → log2 l 0 ≡ 0
unfolding log2
log2_zero zero = refl
log2_zero (suc l) =
    let e : leb (2 ^ 2 ^ l) 0 ≡ false = ground (arith, pow_pos (2 ^ l)) in
    rw (e, log2) (log2_zero l)

-- The last digit that is kept of a number below 2 ^ m.
pub exponent_le :
    (f : Format) (n m : ℕ)
    → n < 2 ^ m
    → 0 < f.digits
    → f.finest + f.digits ≤ m
    → exponent f n ≤ m - f.digits
unfolding exponent
exponent_le f zero m h d p = omega (arith, log2_zero 13)
exponent_le f (suc n) m h d p =
    let low = log2_low 13 (suc n) (omega arith) in
    let below = pow_lt (log2 13 (suc n)) m (omega arith) in omega arith

pub exponent_eq :
    (f : Format) (n m : ℕ)
    → 2 ^ m ≤ n
    → n < 2 ^ (m + 1)
    → m < 8191
    → f.finest + f.digits ≤ m + 1
    → exponent f n ≡ m + 1 - f.digits
unfolding exponent
exponent_eq f n m low high small fits =
    let lower =
      pow_lt (log2 13 n) (m + 1) (omega (arith, log2_low 13 n (omega (arith, pow_pos m)))) in
    let top = λ (p : m + 1 ≤ 2 ^ 13). pow_le (m + 1) (2 ^ 13) p in
    let upper =
      pow_lt m (log2 13 n + 1) (omega (arith, log2_high 13 n (omega (arith, top (omega arith))))) in
    omega arith

module _ (k a b : ℕ) (positive : 0 < b) where
  step_pos : 0 < b * 2 ^ k
  step_pos = grind (arith, pow_pos k)

  -- The two neighbours of the quotient, times b.
  below : a / (b * 2 ^ k) * 2 ^ k * b ≡ a / (b * 2 ^ k) * (b * 2 ^ k)
  below = grind arith

  above : (a / (b * 2 ^ k) + 1) * 2 ^ k * b ≡ a / (b * 2 ^ k) * (b * 2 ^ k) + b * 2 ^ k
  above = grind arith

  -- A rounded quotient is off by half a step at most.
  pub round_at_error :
      (2 * (round_at k a b * b) ≤ 2 * a + b * 2 ^ k)
      × (2 * a ≤ 2 * (round_at k a b * b) + b * 2 ^ k)
  unfolding round_at
  round_at_error = ground (arith, below, above, div-add-mod' a (b * 2 ^ k), mod-lt a step_pos)

-- A remainder of less than half a step is dropped.
pub round_at_near : (k q r : ℕ) → 2 * r < 2 ^ k → round_at k (q * 2 ^ k + r) 1 ≡ q * 2 ^ k
unfolding round_at
round_at_near k q r h =
    let d : 1 * 2 ^ k ≡ 2 ^ k = one-mul (2 ^ k) in
    let quotient : (q * 2 ^ k + r) / 2 ^ k ≡ q =
      omega (
        arith,
        mul-add-div_right (pow_pos k) q r,
        div-eq_of_lt {n = r} {m = 2 ^ k} (omega arith),
      ) in
    let rest : (q * 2 ^ k + r) % 2 ^ k ≡ r =
      omega (
        arith,
        mul-add-mod_self_right q (2 ^ k) r,
        mod-eq_of_lt {n = r} {m = 2 ^ k} (omega arith),
      ) in
    rw d (rw (quotient, rest) (ground arith))

-- A multiple of the step is kept.
round_at_self : (k q n : ℕ) → n ≡ q * 2 ^ k → round_at k n 1 ≡ n
round_at_self k q n e =
    let zero_rest : q * 2 ^ k ≡ q * 2 ^ k + 0 = omega arith in
    ap (λ (t : ℕ). round_at k t 1) (e ∙ zero_rest) ∙ round_at_near k q 0 (pow_pos k) ∙ sym e

finer : (c k e : ℕ) → e ≤ k → c * 2 ^ k ≡ c * 2 ^ (k - e) * 2 ^ e
finer c k e h =
    let split : k ≡ k - e + e = omega arith in
    let powers = ap (λ (t : ℕ). 2 ^ t) split ∙ pow_add (k - e) e in
    ap (λ (t : ℕ). c * t) powers ∙ sym (mul_assoc c (2 ^ (k - e)) (2 ^ e))

-- What is rounded of numbers below 2 ^ m, where the format keeps digits down to 2 ^ k.
module _ (f : Format) (m k : ℕ) (some_digits : 0 < f.digits) (room : k + f.digits ≡ m)
    (coarse : f.finest ≤ k) where
  pub round_error :
      (a b : ℕ)
      → 0 < b
      → a < b * 2 ^ m
      → (2 * (round f a b * b) ≤ 2 * a + b * 2 ^ k) × (2 * a ≤ 2 * (round f a b * b) + b * 2 ^ k)
  unfolding round
  round_error a b h bound =
      let e = exponent f (a / b) in
      let quotient =
        (div-lt_iff_lt-mul {x = a} {y = 2 ^ m} h).1 (omega (arith, mul_comm b (2 ^ m))) in
      let fine : e ≤ k =
        omega (arith, exponent_le f (a / b) m quotient some_digits (omega arith)) in
      omega (arith, round_at_error e a b h, mul-le-mul_left b (pow_le e k fine))

  -- A multiple of 2 ^ k is kept.
  pub round_exact : (c : ℕ) → c * 2 ^ k < 2 ^ m → round f (c * 2 ^ k) 1 ≡ c * 2 ^ k
  unfolding round
  round_exact c small =
      let e = exponent f (c * 2 ^ k / 1) in
      let n = div-one (c * 2 ^ k) in
      let fine : e ≤ k =
        omega (arith, exponent_le f (c * 2 ^ k / 1) m (omega arith) some_digits (omega arith)) in
      round_at_self e (c * 2 ^ (k - e)) (c * 2 ^ k) (finer c k e fine)
