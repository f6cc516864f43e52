-- ===== src/Cache/Measure.antt =====
-- `measurement` and `measureCache` of lab5_cache_memory_influences/main.c.
use ctu_real_time_systems_pr.Base.{
  List, [], arith, get_or, map, refl, some, sub_u32, suc, u32, zero, ℕ, ◌*◌, ◌+◌, ◌-◌, ◌/◌, ◌<◌,
  ◌^◌, ◌∷◌, ◌≡◌, ◌≤◌,
}
use ctu_real_time_systems_pr.Cache.{follow, measure_loop, measurement, sizes, elem_size}

measure_loop_lem :
    (array : List ℕ) (k p : ℕ) → measure_loop array (suc k) p ≡ some (follow array k p)
unfolding measure_loop
measure_loop_lem array zero p = refl
measure_loop_lem array (suc k) p = measure_loop_lem array k (get_or array p 0)

-- A measurement of `jumps` jumps, at least one, ends; it follows one pointer less than `jumps`, and divides
-- the true time, if that is below a turn of the counter, by `jumps`.
pub measurement_jumps :
    (array : List ℕ) (jumps start ticks : ℕ)
    → 0 < jumps
    → ticks < 2 ^ 32
    → measurement array jumps (u32 start) (u32 (start + ticks))
      ≡ some (follow array (jumps - 1) 0, ticks / jumps)
unfolding measurement
measurement_jumps array zero start ticks h lt = elim h [ ]
measurement_jumps array (suc k) start ticks h lt =
    let e : suc k - 1 ≡ k = omega arith in
    let true_time : sub_u32 (u32 (start + ticks)) (u32 start) ≡ ticks = omega arith in
    rw (measure_loop_lem array k 0, true_time, e)

sizes_end : (fuel : ℕ) → sizes fuel (2 ^ 21) ≡ []
unfolding sizes
sizes_end zero = refl
sizes_end (suc fuel) = refl

abbrev pub count_up : ℕ → ℕ → List ℕ
count_up i zero = []
count_up i (suc n) = i ∷ count_up (i + 1) n

-- With fuel for 13 rounds or more, the loop of `measureCache` ends after the 13 working sets of 1 KiB
-- to 4 MiB, each twice as large as the one before.
pub sizes_lem :
    (fuel : ℕ)
    → 13 ≤ fuel
    → map (λ n. n * elem_size) (sizes fuel 256) ≡ map (λ k. 2 ^ (10 + k)) (count_up 0 13)
unfolding sizes
sizes_lem fuel h = let e : fuel ≡ sum_of (fuel - 13) = omega arith in rw (e, sizes_end)
  where
    sum_of : ℕ → ℕ
    sum_of f = suc (suc (suc (suc (suc (suc (suc (suc (suc (suc (suc (suc (suc f))))))))))))
