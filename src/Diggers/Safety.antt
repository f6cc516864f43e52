-- ===== src/Diggers/Safety.antt =====
-- What holds at every reachable site of the workers of lab2_mutex_semaphore/task2.c.
use ctu_real_time_systems_pr.Base.{
  List, [], arith, get_elem?, refl, some, total, total-append, total-set, ℕ, ◌+◌, ◌<◌, ◌∷◌, ◌≡◌,
  ◌≤◌,
}
use ctu_real_time_systems_pr.Diggers.{
  Site, Lower, Upper, LowerStep, UpperStep, Step, Reach, start, later, lower_step, upper_step,
  hire_lower, hire_upper, shovel_count, digging, dug, before_soil, timed_out, carrying, carried,
}

-- Who holds a shovel, and who holds soil that is in no heap.
abbrev pub lower_holds : Lower → ℕ
lower_holds digging = 1
lower_holds dug = 1
lower_holds _ = 0

abbrev pub upper_holds : Upper → ℕ
upper_holds carrying = 1
upper_holds carried = 1
upper_holds _ = 0

abbrev pub upper_loaded : Upper → ℕ
upper_loaded Upper.before_safe = 1
upper_loaded Upper.before_shovel = 1
upper_loaded timed_out = 1
upper_loaded carrying = 1
upper_loaded _ = 0

pub record Inv (s : Site) : Type 0 where
  pub shovels_kept :
      s.shovels + total lower_holds s.lower + total upper_holds s.upper ≡ shovel_count
  pub soil_kept : s.heap + total upper_loaded s.upper + s.soil_done + s.soil_lost ≡ s.soil_dug

-- What a step does to the counts, in terms of the worker's old and new place.
LowerStep-counts :
    {s t : Site} {p q : Lower}
    → LowerStep s t p q
    → (t.shovels + lower_holds q ≡ s.shovels + lower_holds p)
      × (t.heap + t.soil_done + t.soil_lost + s.soil_dug
          ≡ s.heap + s.soil_done + s.soil_lost + t.soil_dug)
      × (t.upper ≡ s.upper)
LowerStep-counts (LowerStep.take_shovel n e) = ground arith
LowerStep-counts st = ground arith

UpperStep-counts :
    {s t : Site} {p q : Upper}
    → UpperStep s t p q
    → (t.shovels + upper_holds q ≡ s.shovels + upper_holds p)
      × (t.heap + upper_loaded q + t.soil_done + t.soil_lost
          ≡ s.heap + upper_loaded p + s.soil_done + s.soil_lost)
      × (t.soil_dug ≡ s.soil_dug)
      × (t.lower ≡ s.lower)
UpperStep-counts (UpperStep.take_shovel n e) = ground arith
UpperStep-counts (UpperStep.take_soil n e) = ground arith
UpperStep-counts st = ground arith

newcomers :
    (total lower_holds (Lower.before_safe ∷ []) ≡ 0)
    × (total upper_holds (before_soil ∷ []) ≡ 0)
    × (total upper_loaded (before_soil ∷ []) ≡ 0)
unfolding total
newcomers = (refl, refl, refl)

-- Every step keeps the number of shovels and the amount of soil.
pub Step-Inv : {s t : Site} → Step s t → Inv s → Inv t
Step-Inv {s} (lower_step i {q = q} e st) v =
    ground (arith, LowerStep-counts st, total-set lower_holds s.lower i q e)
Step-Inv {s} (upper_step i {q = q} e st) v = ground (
  arith,
  UpperStep-counts st,
  total-set upper_holds s.upper i q e,
  total-set upper_loaded s.upper i q e,
)
Step-Inv {s} hire_lower v =
    ground (arith, total-append lower_holds s.lower (Lower.before_safe ∷ []), newcomers)
Step-Inv {s} hire_upper v = ground (
  arith,
  total-append upper_holds s.upper (before_soil ∷ []),
  total-append upper_loaded s.upper (before_soil ∷ []),
  newcomers,
)

-- At every reachable site the shovels are all there, in the semaphore or with a worker who holds
-- one, and so is the soil that was dug: in the heap, with a worker, brought away or lost.
pub Reach-Inv : {s : Site} → Reach s → Inv s
unfolding total
Reach-Inv start = record { shovels_kept = refl; soil_kept = refl }
Reach-Inv (later r st) = Step-Inv st (Reach-Inv r)

-- Whoever is at work.
abbrev pub lower_works : Lower → ℕ
lower_works digging = 1
lower_works _ = 0

abbrev pub upper_works : Upper → ℕ
upper_works carrying = 1
upper_works _ = 0

total_le {ℓ} :
    {A : Type ℓ} (f g : A → ℕ) → ((a : A) → f a ≤ g a) → (xs : List A) → total f xs ≤ total g xs
unfolding total
total_le f g h [] = omega arith
total_le f g h (x ∷ xs) = omega (arith, h x, total_le f g h xs)

-- However many workers there are, and whichever are deleted: never more than three are at work.
pub at_most_three_work :
    {s : Site} → Reach s → total lower_works s.lower + total upper_works s.upper ≤ shovel_count
at_most_three_work {s} r = omega (
  arith,
  Reach-Inv r,
  total_le lower_works lower_holds (λ p. ground arith) s.lower,
  total_le upper_works upper_holds (λ p. ground arith) s.upper,
)

-- A digger up the hole takes its soil before it is safe from deletion. One that is deleted in
-- between takes the soil away with it: less is then in the heap, with the workers and brought away
-- together than was dug.
deletion_loses_soil :
    {s : Site} (i : ℕ)
    → Reach s
    → get_elem? s.upper i ≡ some Upper.before_safe
    → (t : Site) × Step s t × (t.heap + total upper_loaded t.upper + t.soil_done < t.soil_dug)
deletion_loses_soil {s} i r e = (
  _,
  upper_step i e UpperStep.delete_loaded,
  omega (arith, Step-Inv (upper_step i e UpperStep.delete_loaded) (Reach-Inv r)),
)
