-- ===== src/Diggers/Supply.antt =====
-- Steps that the diggers of lab2_mutex_semaphore/task2.c and lab3_real_time_processes/company.c take by
-- themselves, and how one of them gets a shovel.
pub mod Soil
use ctu_real_time_systems_pr.Base.{
  List, [], arith, dec_lt, get_elem?, refl, set, some, suc, total, true, zero, ℕ, ◌+◌, ◌<◌, ◌∷◌,
  ◌≡◌, ◌≤◌,
}
use ctu_real_time_systems_pr.Diggers.{
  Lower, LowerStep, Reach, Site, Upper, UpperStep, before_soil, carried, carrying, digging, dug,
  given_up, timed_out, later, lower_step, upper_step,
}
use ctu_real_time_systems_pr.Diggers.Safety.{Reach-Inv, lower_holds, upper_holds}
use ctu_real_time_systems_pr.Diggers.Progress.{lower_by_itself, total_witness, upper_by_itself}

-- Some steps that workers take by themselves, one after the other.
pub data Moves : Site → Site → Type 0 where
  done : {s : Site} → Moves s s
  lower_then :
      {s u : Site} (i : ℕ) {p q : Lower} {t : Site}
      → get_elem? s.lower i ≡ some p
      → (st : LowerStep s t p q) → lower_by_itself st ≡ true
      → Moves (record t { lower = set s.lower i q }) u
      → Moves s u
  upper_then :
      {s u : Site} (i : ℕ) {p q : Upper} {t : Site}
      → get_elem? s.upper i ≡ some p
      → (st : UpperStep s t p q) → upper_by_itself st ≡ true
      → Moves (record t { upper = set s.upper i q }) u
      → Moves s u

-- Such steps bring more soil away.
abbrev pub Comes : Site → Type 0
Comes s = (t : Site) × Moves s t × (s.soil_done < t.soil_done)

LowerStep-soil : {s t : Site} {p q : Lower} → LowerStep s t p q → t.soil_done ≡ s.soil_done
LowerStep-soil (LowerStep.take_shovel n e) = refl
LowerStep-soil st = refl

UpperStep-soil : {s t : Site} {p q : Upper} → UpperStep s t p q → s.soil_done ≤ t.soil_done
UpperStep-soil (UpperStep.take_shovel n e) = omega arith
UpperStep-soil (UpperStep.take_soil n e) = omega arith
UpperStep-soil st = omega arith

-- A step first, and then the others.
lower_first :
    {s : Site} (i : ℕ) {p q : Lower} {t : Site}
    → Reach s
    → get_elem? s.lower i ≡ some p
    → (st : LowerStep s t p q) → lower_by_itself st ≡ true
    → (Reach (record t { lower = set s.lower i q }) → Comes (record t { lower = set s.lower i q }))
    → Comes s
lower_first i r at st own rest =
    let (u, moves, more) = rest (later r (lower_step i at st)) in
    (u, lower_then i at st own moves, omega (arith, LowerStep-soil st))

upper_first :
    {s : Site} (i : ℕ) {p q : Upper} {t : Site}
    → Reach s
    → get_elem? s.upper i ≡ some p
    → (st : UpperStep s t p q) → upper_by_itself st ≡ true
    → (Reach (record t { upper = set s.upper i q }) → Comes (record t { upper = set s.upper i q }))
    → Comes s
upper_first i r at st own rest =
    let (u, moves, more) = rest (later r (upper_step i at st)) in
    (u, upper_then i at st own moves, omega (arith, UpperStep-soil st))

-- One who carries brings it away.
bring : {s : Site} (i : ℕ) → get_elem? s.upper i ≡ some carrying → Comes s
bring {s} i at = (
  record s { soil_done = s.soil_done + 1; upper = set s.upper i carried },
  upper_then i at UpperStep.count refl done,
  omega arith,
)

-- A worker after its step, and the others.
get_elem?-set_at {ℓ} :
    {A : Type ℓ} (xs : List A) (i : ℕ) {x : A} (y : A)
    → get_elem? xs i ≡ some x
    → get_elem? (set xs i y) i ≡ some y
get_elem?-set_at [] i y e = cc
get_elem?-set_at (x ∷ xs) zero y e = refl
get_elem?-set_at (x ∷ xs) (suc i) y e = get_elem?-set_at xs i y e

idle_kept {ℓ} :
    {A : Type ℓ} (holds : A → ℕ) (xs : List A) (k i : ℕ) {x y : A} (z : A)
    → get_elem? xs k ≡ some x
    → 0 < holds x
    → get_elem? xs i ≡ some y
    → holds y ≡ 0
    → get_elem? (set xs k z) i ≡ some y
idle_kept holds [] k i z e h f g = cc
idle_kept holds (w ∷ xs) zero zero {x} {y} z e h f g =
    let same : holds x ≡ holds y = cc in absurd (omega (arith, same))
idle_kept holds (w ∷ xs) zero (suc i) z e h f g = f
idle_kept holds (w ∷ xs) (suc k) zero z e h f g = f
idle_kept holds (w ∷ xs) (suc k) (suc i) z e h f g = idle_kept holds xs k i z e h f g

-- Who holds no shovel stands where he stood.
record Keeps (s t : Site) : Type 0 where
  lower_kept :
      (i : ℕ) (p : Lower)
      → get_elem? s.lower i ≡ some p
      → lower_holds p ≡ 0
      → get_elem? t.lower i ≡ some p
  upper_kept :
      (i : ℕ) (p : Upper)
      → get_elem? s.upper i ≡ some p
      → upper_holds p ≡ 0
      → get_elem? t.upper i ≡ some p

-- What can be done with a shovel left.
abbrev Then : Site → Type 0
Then s = (t : Site) → Reach t → 0 < t.shovels → Keeps s t → Comes t

lower_frees :
    {s : Site}
    → Reach s
    → (k : ℕ) (p : Lower) → get_elem? s.lower k ≡ some p
    → 0 < lower_holds p
    → Then s
    → Comes s
lower_frees {s} r k digging at h rest = lower_first k r at LowerStep.give_soil refl (λ r'.
    lower_first k r' (get_elem?-set_at s.lower k dug at) LowerStep.give_shovel refl (λ r''.
      rest _ r'' (omega arith) (record {
        lower_kept = λ i p e g.
            idle_kept lower_holds (set s.lower k dug) k i Lower.before_unsafe
              (get_elem?-set_at s.lower k dug at) (omega arith)
              (idle_kept lower_holds s.lower k i dug at h e g) g;
        upper_kept = λ i p e g. e;
      })))
lower_frees {s} r k dug at h rest = lower_first k r at LowerStep.give_shovel refl (λ r'.
    rest _ r' (omega arith) (record {
      lower_kept = λ i p e g. idle_kept lower_holds s.lower k i Lower.before_unsafe at h e g;
      upper_kept = λ i p e g. e;
    }))
lower_frees r k Lower.before_safe at h rest = absurd (omega arith)
lower_frees r k Lower.before_shovel at h rest = absurd (omega arith)
lower_frees r k Lower.before_unsafe at h rest = absurd (omega arith)
lower_frees r k Lower.resting at h rest = absurd (omega arith)
lower_frees r k Lower.deleted at h rest = absurd (omega arith)

upper_frees :
    {s : Site}
    → Reach s
    → (k : ℕ) (p : Upper) → get_elem? s.upper k ≡ some p
    → 0 < upper_holds p
    → Then s
    → Comes s
upper_frees r k carrying at h rest = bring k at
upper_frees {s} r k carried at h rest = upper_first k r at UpperStep.give_shovel refl (λ r'.
    rest _ r' (omega arith) (record {
      lower_kept = λ i p e g. e;
      upper_kept = λ i p e g. idle_kept upper_holds s.upper k i Upper.before_unsafe at h e g;
    }))
upper_frees r k before_soil at h rest = absurd (omega arith)
upper_frees r k Upper.before_safe at h rest = absurd (omega arith)
upper_frees r k Upper.before_shovel at h rest = absurd (omega arith)
upper_frees r k timed_out at h rest = absurd (omega arith)
upper_frees r k given_up at h rest = absurd (omega arith)
upper_frees r k Upper.before_unsafe at h rest = absurd (omega arith)
upper_frees r k Upper.resting at h rest = absurd (omega arith)
upper_frees r k Upper.deleted at h rest = absurd (omega arith)

with_shovel : {s : Site} → Reach s → Then s → Comes s
with_shovel {s} r rest = elim (dec_lt 0 s.shovels) [
  | yes left ↦ rest s r left (record { lower_kept = λ i p e g. e; upper_kept = λ i p e g. e })
  | no none_left ↦ elim (dec_lt 0 (total lower_holds s.lower)) [
    | yes below ↦
        let (k, p, at, h) = total_witness lower_holds s.lower below in lower_frees r k p at h rest
    | no nobody ↦
        let (k, p, at, h) =
          total_witness upper_holds s.upper (omega (arith, none_left, Reach-Inv r)) in
        upper_frees r k p at h rest
  ]
]
