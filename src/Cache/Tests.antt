-- ===== src/Cache/Tests.antt =====
-- The theorems on the measurement of the cache at inputs that meet their hypotheses.
use ctu_real_time_systems_pr.Base.{List, [], arith, map, some, ℕ, ◌*◌, ◌++◌, ◌+◌, ◌∷◌, ◌≡◌}
use ctu_real_time_systems_pr.Cache.{ran_array}
use ctu_real_time_systems_pr.Cache.Cycle.{IsRound}
use ctu_real_time_systems_pr.Cache.Link.{ran_array-IsRound}
use ctu_real_time_systems_pr.Cache.Measure.{count_up}
use ctu_real_time_systems_pr.Cache.Printing.{
  Memory, started, finished, counter, row_of, measure_cache, measure_cache-rows,
}

abbrev some_rand : ℕ → ℕ × ℕ
some_rand i = (i * 7 + 3, 1)

abbrev zeros : List ℕ
zeros = 0 ∷ 0 ∷ 0 ∷ 0 ∷ 0 ∷ []

abbrev shuffled : List ℕ
shuffled = ran_array some_rand zeros zeros 5

ran_array-IsRound_example : IsRound 5 shuffled
ran_array-IsRound_example =
    ran_array-IsRound some_rand zeros zeros 5 (omega arith) (omega arith) (omega arith)

abbrev memory : Memory
memory = record { array = zeros; indexes = zeros }

-- Every measurement takes 3000 ticks, over the wrap of the counter.
measure_cache-rows_example :
    measure_cache 20 1 100 (counter (λ i. some_rand) (λ i. 4294967290) (λ i. 3000)) memory
    ≡ some (started ∷ (map (row_of (λ i. 3000) 100) (count_up 0 13) ++ (finished ∷ [])))
measure_cache-rows_example =
    measure_cache-rows 1 100 (λ i. some_rand) (λ i. 4294967290) (λ i. 3000) (omega arith)
      (omega arith) (λ i. omega arith) 20 memory (omega arith)
