-- ===== src/Diggers/Progress.antt =====
-- The workers of lab2_mutex_semaphore/task2.c and lab3_real_time_processes/company.c never wait for each
-- other in a circle.
use ctu_real_time_systems_pr.Base.{
  Bool, List, [], arith, dec_lt, false, get_elem?, refl, some, suc, take, total, true, ℕ, ◌-◌, ◌<◌,
  ◌∷◌, ◌≡◌, ◌≢◌,
}
use ctu_real_time_systems_pr.Diggers.{
  Lower, LowerStep, Reach, Site, Upper, UpperStep, before_soil, carried, carrying, digging, dug,
  given_up, timed_out,
}
use ctu_real_time_systems_pr.Diggers.Safety.{Reach-Inv, lower_holds, upper_holds}

-- The steps that a worker takes by itself: not its deletion, and not the end of a wait by its timeout.
abbrev pub lower_by_itself : {s t : Site} {p q : Lower} → LowerStep s t p q → Bool
lower_by_itself LowerStep.delete_new = false
lower_by_itself LowerStep.delete_resting = false
lower_by_itself st = true

abbrev pub upper_by_itself : {s t : Site} {p q : Upper} → UpperStep s t p q → Bool
upper_by_itself UpperStep.time_out = false
upper_by_itself UpperStep.delete_waiting = false
upper_by_itself UpperStep.delete_loaded = false
upper_by_itself UpperStep.delete_resting = false
upper_by_itself st = true

-- Some worker can go on by itself.
pub data CanMove (s : Site) : Type 0 where
  lower_moves :
      (i : ℕ) {p q : Lower} {t : Site}
      → get_elem? s.lower i ≡ some p
      → (st : LowerStep s t p q) → lower_by_itself st ≡ true
      → CanMove s
  upper_moves :
      (i : ℕ) {p q : Upper} {t : Site}
      → get_elem? s.upper i ≡ some p
      → (st : UpperStep s t p q) → upper_by_itself st ≡ true
      → CanMove s

-- A worker that is there for a step: it is not deleted, and up the hole it has soil to wait for.
pub data IsActive (s : Site) : Type 0 where
  in_hole : (i : ℕ) (p : Lower) → get_elem? s.lower i ≡ some p → p ≢ Lower.deleted → IsActive s
  up_hole :
      (i : ℕ) (p : Upper)
      → get_elem? s.upper i ≡ some p
      → p ≢ Upper.deleted
      → (p ≡ before_soil → 0 < s.heap)
      → IsActive s

-- Where a total is not 0, there is one that adds to it.
pub total_witness {ℓ} :
    {A : Type ℓ} (f : A → ℕ) (xs : List A)
    → 0 < total f xs
    → (i : ℕ) × (x : A) × (get_elem? xs i ≡ some x) × (0 < f x)
unfolding total
total_witness f [] h = absurd (omega arith)
total_witness f (x ∷ xs) h = elim (dec_lt 0 (f x)) [
  | yes adds ↦ (0, x, refl, adds)
  | no idle ↦
      let (i, y, at, adds) = total_witness f xs (omega (arith, idle)) in (suc i, y, at, adds)
]

lower_holder :
    (s : Site) (i : ℕ) (p : Lower) → get_elem? s.lower i ≡ some p → 0 < lower_holds p → CanMove s
lower_holder s i digging at h = lower_moves i at LowerStep.give_soil refl
lower_holder s i dug at h = lower_moves i at LowerStep.give_shovel refl
lower_holder s i Lower.before_safe at h = absurd (omega arith)
lower_holder s i Lower.before_shovel at h = absurd (omega arith)
lower_holder s i Lower.before_unsafe at h = absurd (omega arith)
lower_holder s i Lower.resting at h = absurd (omega arith)
lower_holder s i Lower.deleted at h = absurd (omega arith)

upper_holder :
    (s : Site) (i : ℕ) (p : Upper) → get_elem? s.upper i ≡ some p → 0 < upper_holds p → CanMove s
upper_holder s i carrying at h = upper_moves i at UpperStep.count refl
upper_holder s i carried at h = upper_moves i at UpperStep.give_shovel refl
upper_holder s i before_soil at h = absurd (omega arith)
upper_holder s i Upper.before_safe at h = absurd (omega arith)
upper_holder s i Upper.before_shovel at h = absurd (omega arith)
upper_holder s i timed_out at h = absurd (omega arith)
upper_holder s i given_up at h = absurd (omega arith)
upper_holder s i Upper.before_unsafe at h = absurd (omega arith)
upper_holder s i Upper.resting at h = absurd (omega arith)
upper_holder s i Upper.deleted at h = absurd (omega arith)

-- Where no shovel is left, one who holds one can go on.
no_shovel : {s : Site} → Reach s → s.shovels ≡ 0 → CanMove s
no_shovel {s} r none_left = elim (dec_lt 0 (total lower_holds s.lower)) [
  | yes below ↦
      let (i, p, at, holds) = total_witness lower_holds s.lower below in lower_holder s i p at holds
  | no nobody ↦
      let (i, p, at, holds) = total_witness upper_holds s.upper (omega (arith, Reach-Inv r)) in
      upper_holder s i p at holds
]

-- One who waits for a shovel gets one, or one who holds one can go on.
at_shovels : {s : Site} → Reach s → ((n : ℕ) → s.shovels ≡ suc n → CanMove s) → CanMove s
at_shovels {s} r take = elim (dec_lt 0 s.shovels) [
  | yes left ↦ take (s.shovels - 1) (omega arith)
  | no none_left ↦ no_shovel r (omega (arith, none_left))
]

lower_active :
    {s : Site}
    → Reach s
    → (i : ℕ) (p : Lower) → get_elem? s.lower i ≡ some p
    → p ≢ Lower.deleted
    → CanMove s
lower_active r i Lower.before_safe at h = lower_moves i at LowerStep.safe refl
lower_active r i Lower.before_shovel at h =
    at_shovels r (λ n left. lower_moves i at (LowerStep.take_shovel n left) refl)
lower_active r i digging at h = lower_moves i at LowerStep.give_soil refl
lower_active r i dug at h = lower_moves i at LowerStep.give_shovel refl
lower_active r i Lower.before_unsafe at h = lower_moves i at LowerStep.unsafe refl
lower_active r i Lower.resting at h = lower_moves i at LowerStep.rest refl
lower_active r i Lower.deleted at h = absurd (h refl)

upper_active :
    {s : Site}
    → Reach s
    → (i : ℕ) (p : Upper) → get_elem? s.upper i ≡ some p
    → p ≢ Upper.deleted
    → (p ≡ before_soil → 0 < s.heap)
    → CanMove s
upper_active {s} r i before_soil at h soil =
    upper_moves i at (UpperStep.take_soil (s.heap - 1) (omega (arith, soil refl))) refl
upper_active r i Upper.before_safe at h soil = upper_moves i at UpperStep.safe refl
upper_active r i Upper.before_shovel at h soil =
    at_shovels r (λ n left. upper_moves i at (UpperStep.take_shovel n left) refl)
upper_active r i timed_out at h soil = upper_moves i at UpperStep.give_back refl
upper_active r i given_up at h soil = upper_moves i at UpperStep.retry refl
upper_active r i carrying at h soil = upper_moves i at UpperStep.count refl
upper_active r i carried at h soil = upper_moves i at UpperStep.give_shovel refl
upper_active r i Upper.before_unsafe at h soil = upper_moves i at UpperStep.unsafe refl
upper_active r i Upper.resting at h soil = upper_moves i at UpperStep.rest refl
upper_active r i Upper.deleted at h soil = absurd (h refl)

-- The workers never wait for each other in a circle: at every reachable site where a digger lives in the
-- hole, or one up the hole that does not wait at an empty heap, some worker can go on by itself,
-- without a timeout, a deletion or a new worker.
no_deadlock : {s : Site} → Reach s → IsActive s → CanMove s
no_deadlock r (in_hole i p at h) = lower_active r i p at h
no_deadlock r (up_hole i p at h soil) = upper_active r i p at h soil
