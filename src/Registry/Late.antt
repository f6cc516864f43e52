-- ===== src/Registry/Late.antt =====
-- Soil of lab3_real_time_processes/company.c that is counted after the company has given up its place.
use mathlib.Core.Option
use ctu_real_time_systems_pr.Base.{
  List, [], ap, arith, get_elem?-of_lt, get_elem?-set_self, i32, length, pos, refl, set, some, take,
  ℕ, ◌+ℤ◌, ◌<◌, ◌∙◌, ◌∷◌, ◌≡◌,
}
use ctu_real_time_systems_pr.Registry.{Company, Companies, claim, count_soil, leave, name_size}
use ctu_real_time_systems_pr.Registry.Shared.{apply, apply_all, gone, join, soil}
use ctu_real_time_systems_pr.Registry.Slots.{IsFull, claim_at, set-set, take-set_same}

-- A worker that still waits for the lock when its company gives the place up counts one soil more
-- there: the next company that gets the place starts with a soil that it never did.
pub late_soil :
    (cs : Companies) (i : ℕ) (c_name : List ℕ)
    → length c_name < name_size
    → i < length cs
    → IsFull (take i cs)
    → apply_all (gone i ∷ soil i ∷ join c_name ∷ []) cs
      ≡ some (set cs i (record { n_of_soil_done = pos 1; name = c_name; is_empty = 0 }))
unfolding apply count_soil leave Option.bind i32 ◌+ℤ◌
late_soil cs i c_name h lt full =
    let (c, at) = get_elem?-of_lt cs i lt in
    let left : Company = record c { is_empty = 1; n_of_soil_done = pos 0 } in
    let counted : Company = record left { n_of_soil_done = pos 1 } in
    let taken : Company = record counted { name = c_name; is_empty = 0 } in
    let gives_up : leave i cs ≡ some (set cs i left) = rw at refl in
    let counts : count_soil i (set cs i left) ≡ some (set cs i counted) =
      rw (get_elem?-set_self cs i left lt) (ap some (set-set cs i left counted)) in
    let comes : claim c_name (set cs i counted) ≡ some (i, set cs i taken) =
      claim_at c_name (set cs i counted) i counted h (rw take-set_same full)
        (get_elem?-set_self cs i counted lt) (ground arith)
      ∙ ap (λ l. some (i, l)) (set-set cs i counted taken) in
    ap (λ o. Option.bind o (apply_all (soil i ∷ join c_name ∷ []))) gives_up
    ∙ ap (λ o. Option.bind o (apply_all (join c_name ∷ []))) counts
    ∙ ap (λ o. Option.bind (Option.map (λ (r : ℕ × Companies). r.1) o) (apply_all [])) comes
