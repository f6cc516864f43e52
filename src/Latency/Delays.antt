-- ===== src/Latency/Delays.antt =====
-- The histogram of lab7_ethernet_communication_latency/latency_measurement.c.
use ctu_real_time_systems_pr.Base.{
  List, [], arith, dec_lt, false, get_or, get_or-replicate, get_or-set, if◌then◌else◌, length,
  length-replicate, length-set, ltb, refl, suc, true, u32, u64, zero, ℕ, ◌%◌, ◌*◌, ◌+◌, ◌-◌, ◌/◌,
  ◌<◌, ◌==◌, ◌^◌, ◌∙◌, ◌∷◌, ◌≡◌,
}
use ctu_real_time_systems_pr.Latency.{
  idle, Sender, elapsed_us, count_delay, run, print_delays, printed, max_delay_size,
}

-- The histogram has its size, and is empty above the greatest delay so far.
pub record IsValid (s : Sender) : Type 0 where
  pub size : length s.delays ≡ max_delay_size
  pub greatest : s.max_delay < max_delay_size
  pub empty_above : (k : ℕ) → s.max_delay < k → get_or s.delays k 0 ≡ 0

pub idle-IsValid : IsValid idle
idle-IsValid = record {
  size = length-replicate {A = ℕ} max_delay_size 0;
  greatest = omega arith;
  empty_above = λ k h. get_or-replicate {A = ℕ} max_delay_size k 0;
}

-- Every round keeps that.
pub count_delay-IsValid : (t : ℕ) (s : Sender) → IsValid s → IsValid (count_delay t s)
unfolding count_delay
count_delay-IsValid t s v = elim (dec_lt t max_delay_size) [
  | yes h ↦
      let e : ltb t max_delay_size ≡ true = ground arith in
      rw e (record {
        size = length-set s.delays t (u32 (get_or s.delays t 0 + 1)) ∙ v.size;
        greatest = ground (arith, v.greatest);
        empty_above = λ k q. ground (
          arith,
          get_or-set s.delays t k (u32 (get_or s.delays t 0 + 1)) 0,
          v.size,
          v.empty_above k,
        );
      })
  | no h ↦ let e : ltb t max_delay_size ≡ false = ground arith in rw e v
]

-- A reading of the counter that is not less than the one before it gives the true time in microseconds.
pub elapsed_us_lem :
    (freq start ticks : ℕ)
    → start + ticks < 2 ^ 32
    → ticks * 1000000 / freq < 2 ^ 32
    → elapsed_us freq start (start + ticks) ≡ ticks * 1000000 / freq
unfolding elapsed_us
elapsed_us_lem freq start ticks h k =
    let a : (start + ticks + 2 ^ 64 - start) % 2 ^ 64 ≡ ticks = omega arith in
    let b : u64 (ticks * 1000000) ≡ ticks * 1000000 = omega arith in rw (a, b) (omega arith)

print_delays_lem :
    (n i : ℕ) (delays : List ℕ) (k : ℕ)
    → (length (print_delays i n delays) ≡ n)
      × (get_or (print_delays i n delays) k 0 ≡ (if ltb k n then get_or delays (i + k) 0 else 0))
unfolding print_delays
print_delays_lem zero i delays k = (refl, ground arith)
print_delays_lem (suc n) i delays zero =
    let e : i + 0 ≡ i = omega arith in
    (omega (arith, print_delays_lem n (i + 1) delays zero), rw e (ground arith))
print_delays_lem (suc n) i delays (suc k) =
    let e : i + 1 + k ≡ i + suc k = omega arith in
    (
      omega (arith, print_delays_lem n (i + 1) delays k),
      (print_delays_lem n (i + 1) delays k).1 ∙ rw e (ground arith),
    )

-- The line that is printed of a valid histogram ends at the greatest delay, and loses nothing of the histogram: read
-- at any delay, with 0 behind its end, it shows the bin of that delay.
pub printed_lem :
    (s : Sender) (k : ℕ)
    → IsValid s
    → (length (printed s) ≡ s.max_delay + 1) × (get_or (printed s) k 0 ≡ get_or s.delays k 0)
unfolding printed
printed_lem s zero v = (omega (arith, print_delays_lem (s.max_delay + 1 - 1) 1 s.delays zero), refl)
printed_lem s (suc k) v =
    let e : 1 + k ≡ suc k = omega arith in
    (
      omega (arith, print_delays_lem (s.max_delay + 1 - 1) 1 s.delays k),
      (print_delays_lem (s.max_delay + 1 - 1) 1 s.delays k).1
          ∙ rw e (shown (v.empty_above (suc k))),
    )
  where
    shown :
        (s.max_delay < suc k → get_or s.delays (suc k) 0 ≡ 0)
        → (if ltb k (s.max_delay + 1 - 1) then get_or s.delays (suc k) 0 else 0)
          ≡ get_or s.delays (suc k) 0
    shown f = ground arith

-- How many of the rounds took the time `k`.
abbrev pub hits : ℕ → ℕ → List (ℕ × ℕ) → ℕ
hits freq k [] = 0
hits freq k ((start, end) ∷ rounds) =
    (if elapsed_us freq start end == k then 1 else 0) + hits freq k rounds

one_round :
    (t : ℕ) (s : Sender) (k : ℕ)
    → IsValid s
    → k < max_delay_size
    → get_or (count_delay t s).delays k 0
      ≡ (if t == k then u32 (get_or s.delays k 0 + 1) else get_or s.delays k 0)
unfolding count_delay
one_round t s k v h =
    ground (arith, get_or-set s.delays t k (u32 (get_or s.delays t 0 + 1)) 0, v.size)

-- After any rounds on a valid histogram it is valid, and each bin, if it was a number of 32 bits, has
-- grown by the number of rounds that took its time, wrapped to 32 bits.
pub run_lem :
    (freq : ℕ) (rounds : List (ℕ × ℕ)) (s : Sender) (k : ℕ)
    → IsValid s
    → k < max_delay_size
    → get_or s.delays k 0 < 2 ^ 32
    → IsValid (run freq rounds s)
      × (get_or (run freq rounds s).delays k 0 ≡ u32 (get_or s.delays k 0 + hits freq k rounds))
run_lem freq [] s k v h w = (v, omega arith)
run_lem freq ((start, end) ∷ rounds) s k v h w =
    let ih =
      run_lem freq rounds (count_delay t s) k (count_delay-IsValid t s v) h
        (ground (arith, one_round t s k v h)) in
    (ih.0, ih.1 ∙ ground (arith, one_round t s k v h))
  where
    t : ℕ
    t = elapsed_us freq start end
