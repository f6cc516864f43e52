-- ===== src/Registry/Counts.antt =====
-- The soil of one company of lab3_real_time_processes while others come, dig and go.
use ctu_real_time_systems_pr.Base.{
  ==_iff, List, [], ap, arith, false, get_or, i32, i32_id, if◌then◌else◌, none, pos, refl, some,
  suc, true, zero, ℕ, ℕ_discrete, ℤ, ◌+ℤ◌, ◌+◌, ◌<◌, ◌==◌, ◌^◌, ◌∙◌, ◌∷◌, ◌≡◌, ◌≢◌,
}
use ctu_real_time_systems_pr.Registry.{Companies}
use ctu_real_time_systems_pr.Registry.Shared.{
  AllMayHappen, Event, IsClean, Place, apply_all, at_place, enter, gone, join, meant_all, one_more,
  places, registry_refines, soil,
}

-- How often soil is counted at a place, and that nobody leaves it.
abbrev pub soils : ℕ → List Event → ℕ
soils i [] = 0
soils i (join c_name ∷ es) = soils i es
soils i (soil m_id ∷ es) = (if m_id == i then 1 else 0) + soils i es
soils i (gone m_id ∷ es) = soils i es

abbrev pub Keeps : ℕ → List Event → Type 0
Keeps i [] = Unit {0}
Keeps i (gone m_id ∷ es) = (m_id ≢ i) × Keeps i es
Keeps i (e ∷ es) = Keeps i es

enter_keeps :
    (c_name : List ℕ) (ps : List Place) (i : ℕ) (p : List ℕ × ℤ)
    → get_or ps i none ≡ some p
    → get_or (enter c_name ps) i none ≡ some p
enter_keeps c_name [] i p e = e
enter_keeps c_name (none ∷ ps) zero p e = cc
enter_keeps c_name (none ∷ ps) (suc i) p e = e
enter_keeps c_name (some q ∷ ps) zero p e = e
enter_keeps c_name (some q ∷ ps) (suc i) p e = enter_keeps c_name ps i p e

at_place_other :
    (m : ℕ) (f : Place → Place) (ps : List Place) (i : ℕ)
    → m ≢ i
    → get_or (at_place m f ps) i none ≡ get_or ps i none
at_place_other m f [] i h = refl
at_place_other zero f (p ∷ ps) zero h = absurd (h refl)
at_place_other zero f (p ∷ ps) (suc i) h = refl
at_place_other (suc m) f (p ∷ ps) zero h = refl
at_place_other (suc m) f (p ∷ ps) (suc i) h = at_place_other m f ps i (λ e. h (ap suc e))

at_place_same :
    (f : Place → Place) (ps : List Place) (i : ℕ) (p : List ℕ × ℤ)
    → get_or ps i none ≡ some p
    → get_or (at_place i f ps) i none ≡ f (some p)
at_place_same f [] i p e = cc
at_place_same f (q ∷ ps) zero p e = ap f e
at_place_same f (q ∷ ps) (suc i) p e = at_place_same f ps i p e

one_more_soil : (done : ℕ) → done + 1 < 2 ^ 31 → i32 (pos done +ℤ pos 1) ≡ pos (done + 1)
unfolding ◌+ℤ◌
one_more_soil done few =
    let sum : pos done +ℤ pos 1 ≡ pos (done + 1) = ground arith in
    ap i32 sum ∙ i32_id (pos (done + 1)) (omega arith, omega arith)

places_count :
    (es : List Event) (ps : List Place) (i : ℕ) (c_name : List ℕ) (done : ℕ)
    → get_or ps i none ≡ some (c_name, pos done)
    → Keeps i es
    → done + soils i es < 2 ^ 31
    → get_or (meant_all es ps) i none ≡ some (c_name, pos (done + soils i es))
places_count [] ps i c_name done at keeps few = at ∙ ap (λ n. some (c_name, pos n)) (omega arith)
places_count (join d_name ∷ es) ps i c_name done at keeps few =
    places_count es (enter d_name ps) i c_name done (enter_keeps d_name ps i (c_name, pos done) at)
      keeps few
places_count (gone m ∷ es) ps i c_name done at (other, keeps) few =
    places_count es (at_place m (λ p. none) ps) i c_name done
      (at_place_other m (λ p. none) ps i other ∙ at) keeps few
places_count (soil m ∷ es) ps i c_name done at keeps few = elim (ℕ_discrete m i) [
  | yes same ↦
      let hit : (m == i) ≡ true = (==_iff m i).1 same in
      let adds : soils i (soil m ∷ es) ≡ 1 + soils i es =
        ap (λ b. (if b then 1 else 0) + soils i es) hit in
      let counted : get_or (at_place m one_more ps) i none ≡ some (c_name, pos (done + 1)) =
        rw same (
          at_place_same one_more ps i (c_name, pos done) at
          ∙ ap (λ z. some (c_name, z)) (one_more_soil done (omega (arith, adds)))) in
      places_count es (at_place m one_more ps) i c_name (done + 1) counted keeps
        (omega (arith, adds))
      ∙ ap (λ n. some (c_name, pos n)) (omega (arith, adds))
  | no other ↦
      let missed : (m == i) ≡ false = ground arith in
      let misses : soils i (soil m ∷ es) ≡ soils i es =
        ap (λ b. (if b then 1 else 0) + soils i es) missed ∙ omega arith in
      places_count es (at_place m one_more ps) i c_name done
        (at_place_other m one_more ps i other ∙ at) keeps (omega (arith, misses))
      ∙ ap (λ n. some (c_name, pos n)) (omega (arith, misses))
]

-- From a registry whose empty places show no soil, as long as every process counts and leaves only at a
-- place that is held then, and the names of those who join fit, the soil of a company that stays is
-- counted exactly: in whichever order workers count and other companies come and go under these
-- conditions, the company keeps its place and its name, and its soil grows by the number of times that it
-- was counted there, as long as an int holds it.
pub registry_counts :
    (es : List Event) (cs : Companies) (i : ℕ) (c_name : List ℕ) (done : ℕ)
    → AllMayHappen es (places cs)
    → IsClean cs
    → get_or (places cs) i none ≡ some (c_name, pos done)
    → Keeps i es
    → done + soils i es < 2 ^ 31
    → (cs' : Companies) × (apply_all es cs ≡ some cs')
      × (get_or (places cs') i none ≡ some (c_name, pos (done + soils i es)))
registry_counts es cs i c_name done may clean at keeps few =
    let (cs', e, means, still) = registry_refines es cs may clean in
    (
      cs',
      e,
      ap (λ ps. get_or ps i none) means ∙ places_count es (places cs) i c_name done at keeps few,
    )
