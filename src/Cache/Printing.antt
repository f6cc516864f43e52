-- ===== src/Cache/Printing.antt =====
-- `measureCache` of lab5_cache_memory_influences/main.c with what it prints.
use mathlib.Core.Option
use native.Mathlib.Nat.{pow-le-pow_right, two-pow-succ}
use ctu_real_time_systems_pr.Base.{
  List, Option, [], ap, arith, false, if◌then◌else◌, leb, map, none, refl, some, suc, true, u32,
  zero, ℕ, ◌*◌, ◌++◌, ◌+◌, ◌/◌, ◌<◌, ◌==◌, ◌^◌, ◌∙◌, ◌∷◌, ◌≡◌,
}
use ctu_real_time_systems_pr.Cache.{
  seq_array, ran_array, random_indexes, measurement, elem_size, max_array_len,
}
use ctu_real_time_systems_pr.Cache.Measure.{measurement_jumps, count_up}

-- global_array and random_indexes
pub record Memory : Type 0 where
  pub array : List ℕ
  pub indexes : List ℕ

-- A line that is printed: "Measurement started", a size with a time, or "Measurement finished".
pub data Line : Type 0 where
  started finished : Line
  row : ℕ → ℕ → Line

-- What the kernel readings in the round of a size: the pairs of random numbers, and the counter
-- before and after the measurement.
pub record Readings : Type 0 where
  pub random : ℕ → ℕ × ℕ
  pub start : ℕ
  pub end : ℕ

-- The linking of the array in the mode SEQUENTIAL, 0, or RANDOM, 1; in another one the task returns.
pub set_up : ℕ → (ℕ → ℕ × ℕ) → ℕ → Memory → Option Memory
set_up mode rand n m =
    if mode == 0
    then some (record m { array = seq_array m.array n })
    else (if mode == 1
        then some (record {
          array = ran_array rand m.indexes m.array n;
          indexes = random_indexes rand n m.indexes;
        })
        else none)

-- The loop of `measureCache` from the size i, on fuel; `jumps` is at least 0.
pub cache_loop : ℕ → ℕ → ℕ → (ℕ → Readings) → ℕ → Memory → Option (List Line)
cache_loop zero mode jumps readings i m = none
cache_loop (suc fuel) mode jumps readings i m = elim (leb i max_array_len) [
  | false ↦ some (finished ∷ [])
  | true ↦ elim (set_up mode (readings i).random i m) [
    | none ↦ some []
    | some m' ↦ elim (measurement m'.array jumps (readings i).start (readings i).end) [
      | none ↦ none
      | some (p, time) ↦
          Option.map (λ lines. row (i * elem_size) time ∷ lines)
            (cache_loop fuel mode jumps readings (i * 2) m')
    ]
  ]
]

-- `measureCache`
pub measure_cache : ℕ → ℕ → ℕ → (ℕ → Readings) → Memory → Option (List Line)
measure_cache fuel mode jumps readings m =
    Option.map (λ lines. started ∷ lines) (cache_loop fuel mode jumps readings 256 m)

-- The line of the k-th size.
abbrev pub row_of : (ℕ → ℕ) → ℕ → ℕ → Line
row_of ticks jumps k = row (2 ^ (10 + k)) (ticks (2 ^ (8 + k)) / jumps)

set_up-some :
    (mode : ℕ) (rand : ℕ → ℕ × ℕ) (n : ℕ) (m : Memory)
    → mode < 2
    → (m' : Memory) × (set_up mode rand n m ≡ some m')
unfolding set_up
set_up-some zero rand n m h = (_, refl)
set_up-some (suc zero) rand n m h = (_, refl)
set_up-some (suc (suc mode)) rand n m h = absurd (omega arith)

-- What a kernel readings whose counter shows s i and, ticks i later, the end of the measurement.
abbrev pub counter : (ℕ → ℕ → ℕ × ℕ) → (ℕ → ℕ) → (ℕ → ℕ) → ℕ → Readings
counter rand s ticks i = record { random = rand i; start = u32 (s i); end = u32 (s i + ticks i) }

cache_loop_end :
    (fuel mode jumps i : ℕ) (readings : ℕ → Readings) (m : Memory)
    → 0 < fuel
    → leb i max_array_len ≡ false
    → cache_loop fuel mode jumps readings i m ≡ some (finished ∷ [])
unfolding cache_loop
cache_loop_end zero mode jumps i readings m f h = absurd (omega arith)
cache_loop_end (suc fuel) mode jumps i readings m f h = rw (cache_loop, h) refl

-- A round in which every call gives a result.
cache_loop_round :
    (fuel mode jumps i p time : ℕ) (readings : ℕ → Readings) (m m' : Memory)
    → leb i max_array_len ≡ true
    → set_up mode (readings i).random i m ≡ some m'
    → measurement m'.array jumps (readings i).start (readings i).end ≡ some (p, time)
    → cache_loop (suc fuel) mode jumps readings i m
      ≡ Option.map
          (λ lines. row (i * elem_size) time ∷ lines)
          (cache_loop fuel mode jumps readings (i * 2) m')
unfolding cache_loop
cache_loop_round fuel mode jumps i p time readings m m' h e e' = rw (cache_loop, h, e, e') refl

-- The sizes of the rounds.
within : (k : ℕ) → k < 13 → leb (2 ^ (8 + k)) max_array_len ≡ true
within k h =
    let grown = pow-le-pow_right {n = 2} (omega arith) {i = 8 + k} {j = 20} (omega (arith, h)) in
    ground (arith, grown)

doubled : (k : ℕ) → 2 ^ (8 + k) * 2 ≡ 2 ^ (8 + (k + 1))
doubled k =
    let next : 8 + (k + 1) ≡ suc (8 + k) = omega arith in
    omega (arith, ap (λ (n : ℕ). 2 ^ n) next, two-pow-succ (8 + k))

bytes : (k : ℕ) → 2 ^ (8 + k) * elem_size ≡ 2 ^ (10 + k)
bytes k =
    let next : 10 + k ≡ suc (suc (8 + k)) = omega arith in
    omega (arith, ap (λ (n : ℕ). 2 ^ n) next, two-pow-succ (8 + k), two-pow-succ (suc (8 + k)))

module _ (mode jumps : ℕ) (rand : ℕ → ℕ → ℕ × ℕ) (s ticks : ℕ → ℕ) (known : mode < 2)
    (some_jumps : 0 < jumps) (short : (i : ℕ) → ticks i < 2 ^ 32) where
  cache_loop-rows :
      (n k fuel : ℕ) (m : Memory)
      → k + n ≡ 13
      → n < fuel
      → cache_loop fuel mode jumps (counter rand s ticks) (2 ^ (8 + k)) m
        ≡ some (map (row_of ticks jumps) (count_up k n) ++ (finished ∷ []))
  cache_loop-rows zero k fuel m e f =
      cache_loop_end fuel mode jumps (2 ^ (8 + k)) (counter rand s ticks) m f
        (past k (omega (arith, e)))
    where
      past : (k : ℕ) → k ≡ 13 → leb (2 ^ (8 + k)) max_array_len ≡ false
      past k e = rw e refl
  cache_loop-rows (suc n) k zero m e f = absurd (omega (arith, f))
  cache_loop-rows (suc n) k (suc fuel) m e f =
      let i = 2 ^ (8 + k) in
      let (m', made) = set_up-some mode (rand i) i m known in
      let rest = cache_loop-rows n (k + 1) fuel m' (omega (arith, e)) (omega (arith, f)) in
      cache_loop_round fuel mode jumps i _ _ (counter rand s ticks) m m'
        (within k (omega (arith, e))) made
        (measurement_jumps m'.array jumps (s i) (ticks i) some_jumps (short i))
      ∙ ap
          (λ (j : ℕ).
            Option.map (λ lines. row (i * elem_size) (ticks i / jumps) ∷ lines)
              (cache_loop fuel mode jumps (counter rand s ticks) j m'))
          (doubled k)
      ∙ ap (Option.map (λ lines. row (i * elem_size) (ticks i / jumps) ∷ lines)) rest
      ∙ ap
          (λ (b : ℕ). some (
            row b (ticks i / jumps)
            ∷ (map (row_of ticks jumps) (count_up (k + 1) n) ++ (finished ∷ []))))
          (bytes k)

  -- In a known mode, with one jump at least and measurements shorter than a turn of the counter, and
  -- with fuel for 14 rounds, `measureCache` prints 13 rows between its two texts: the sizes from 1 KiB
  -- to 4 MiB, each twice the one before, with the true time of its measurement divided by `jumps`.
  pub measure_cache-rows :
      (fuel : ℕ) (m : Memory)
      → 13 < fuel
      → measure_cache fuel mode jumps (counter rand s ticks) m
        ≡ some (started ∷ (map (row_of ticks jumps) (count_up 0 13) ++ (finished ∷ [])))
  unfolding measure_cache
  measure_cache-rows fuel m enough =
      ap (Option.map (λ lines. started ∷ lines)) (cache_loop-rows 13 0 fuel m refl enough)
