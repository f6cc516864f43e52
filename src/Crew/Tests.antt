-- ===== src/Crew/Tests.antt =====
-- The theorems on the command loop at crews that meet their hypotheses.
use native.Mathlib.Nat.{pow-suc}
use ctu_real_time_systems_pr.Base.{
  List, [], arith, dec_lt, false, if◌then◌else◌, inr, length, length-append, ltb, none, refl,
  replicate, set, some, suc, true, zero, ℕ, ◌%◌, ◌++◌, ◌+◌, ◌/◌, ◌<◌, ◌^◌, ◌∷◌, ◌≡◌, ◌≤◌,
}
use ctu_real_time_systems_pr.Crew.{run, Crew, nobody}
use ctu_real_time_systems_pr.Crew.Laws.{IsValid}
use ctu_real_time_systems_pr.Crew.Names.{AllNamed, IsDecimal, names_fit}
use ctu_real_time_systems_pr.Crew.Overrun.{only_upper, upper_overruns}
use ctu_real_time_systems_pr.Crew.Stacks.{meant_all, stacks}
use ctu_real_time_systems_pr.Crew.Stacks.Refine.{crew_refines}

-- Three diggers in the hole, fifty up the hole.
abbrev crowded : Crew
crowded = record nobody { l_diggers_count = 3; u_diggers_count = 50 }

crowded-IsValid : IsValid crowded
crowded-IsValid = record { l_size = refl; u_size = refl; l_few = omega arith; u_few = omega arith }

upper_overruns_example : run (only_upper (7 ∷ [])) crowded ≡ none
upper_overruns_example = upper_overruns (7 ∷ []) crowded crowded-IsValid (omega arith) (omega arith)

-- Two tasks in the hole, one up the hole.
abbrev few : Crew
few = record nobody {
  l_diggers_count = 2;
  u_diggers_count = 1;
  l_diggers_ids = set (set (replicate 50 0) 0 11) 1 12;
  u_diggers_ids = set (replicate 50 0) 0 21;
}

few-IsValid : IsValid few
few-IsValid = record { l_size = refl; u_size = refl; l_few = omega arith; u_few = omega arith }

-- One comes into the hole, one up the hole leaves, one comes there, and all leave.
abbrev typed : List (ℕ × ℕ)
typed = (b'i', 31) ∷ (b'O', 0) ∷ (b'I', 41) ∷ (b'o', 0) ∷ (b'E', 0) ∷ []

crew_refines_example :
    (d : Crew) × (run typed few ≡ some d) × (stacks d ≡ meant_all typed (stacks few)) × IsValid d
crew_refines_example = crew_refines typed few few-IsValid (
  (λ e. absurd (omega (arith, e))),
  (
    (λ e. absurd (omega (arith, e))),
    (
      (λ e. inr (omega arith)),
      ((λ e. absurd (omega (arith, e))), ((λ e. absurd (omega (arith, e))), tt)),
    ),
  ),
)

-- The digits of a number, the least last.
abbrev digits : ℕ → ℕ → List ℕ
digits zero n = []
digits (suc fuel) n =
    if ltb n 10 then (b'0' + n) ∷ [] else digits fuel (n / 10) ++ ((b'0' + n % 10) ∷ [])

abbrev decimal : ℕ → List ℕ
decimal n = digits (n + 1) n

few_digits : (fuel n k : ℕ) → 0 < k → n < 10 ^ k → length (digits fuel n) ≤ k
few_digits zero n k p h = omega arith
few_digits (suc fuel) n zero p h = absurd (omega arith)
few_digits (suc fuel) n (suc zero) p h =
    let one : ltb n 10 ≡ true = ground arith in rw one (omega arith)
few_digits (suc fuel) n (suc (suc k)) p h = elim (dec_lt n 10) [
  | yes small ↦ let one : ltb n 10 ≡ true = ground arith in rw one (omega arith)
  | no more ↦
      let long : ltb n 10 ≡ false = ground arith in
      let shorter : n / 10 < 10 ^ suc k = omega (arith, pow-suc 10 (suc k)) in
      rw long (
        omega (
          arith,
          length-append (digits fuel (n / 10)) ((b'0' + n % 10) ∷ []),
          few_digits fuel (n / 10) (suc k) (omega arith) shorter,
        ))
]

decimal-IsDecimal : IsDecimal decimal
decimal-IsDecimal n k p h = few_digits (n + 1) n k p h

names_fit_example : (d : Crew) × (run typed few ≡ some d) × AllNamed decimal d.calls
names_fit_example =
    names_fit decimal typed few decimal-IsDecimal few-IsValid
      (
        (λ e. absurd (omega (arith, e))),
        (
          (λ e. absurd (omega (arith, e))),
          (
            (λ e. inr (omega arith)),
            ((λ e. absurd (omega (arith, e))), ((λ e. absurd (omega (arith, e))), tt)),
          ),
        ),
      )
      tt
