-- ===== src/Registry/Shared.antt =====
-- The registry of lab3_real_time_processes as its companies and the monitor share it: what company.c
-- and shm.c do to it, in any order, against a list of places that are empty or hold a company.
use mathlib.Core.Option
use ctu_real_time_systems_pr.Base.{
  ==_iff, Bool, List, Option, [], ap, arith, false, get_elem?, i32, if◌then◌else◌, length, ltb, map,
  none, pos, refl, set, some, suc, true, zero, ℕ, ℕ_discrete, ℤ, ◌+ℤ◌, ◌+◌, ◌<◌, ◌==◌, ◌∙◌, ◌∷◌,
  ◌≡◌, ◌≢◌,
}
use ctu_real_time_systems_pr.Registry.{Company, Companies, claim, count_soil, leave, name_size}

-- What one of the processes does to the registry, each time under the lock.
pub data Event : Type 0 where
  join : List ℕ → Event
  soil gone : ℕ → Event

unfoldable pub apply : Event → Companies → Option Companies
apply (join c_name) cs = Option.map (λ (r : ℕ × Companies). r.1) (claim c_name cs)
apply (soil m_id) cs = count_soil m_id cs
apply (gone m_id) cs = leave m_id cs

abbrev pub apply_all : List Event → Companies → Option Companies
apply_all [] cs = some cs
apply_all (e ∷ es) cs = Option.bind (apply e cs) (apply_all es)

-- A place: empty, or a company with its name and its soil.
abbrev pub Place : Type 0
Place = Option (List ℕ × ℤ)

abbrev pub place_of : Company → Place
place_of c = if c.is_empty == 0 then some (c.name, c.n_of_soil_done) else none

abbrev pub places : Companies → List Place
places cs = map place_of cs

-- The same on the places: a company joins at the first empty place with no soil, counts its soil
-- there, and leaves the place empty.
abbrev pub enter : List ℕ → List Place → List Place
enter c_name [] = []
enter c_name (none ∷ ps) = some (c_name, pos 0) ∷ ps
enter c_name (some p ∷ ps) = some p ∷ enter c_name ps

abbrev pub one_more : Place → Place
one_more none = none
one_more (some (c_name, done)) = some (c_name, i32 (done +ℤ pos 1))

abbrev pub at_place : ℕ → (Place → Place) → List Place → List Place
at_place i f [] = []
at_place zero f (p ∷ ps) = f p ∷ ps
at_place (suc i) f (p ∷ ps) = p ∷ at_place i f ps

abbrev pub meant : Event → List Place → List Place
meant (join c_name) ps = enter c_name ps
meant (soil m_id) ps = at_place m_id one_more ps
meant (gone m_id) ps = at_place m_id (λ p. none) ps

-- A process counts and leaves at a place that it holds; the name of a new company fits.
abbrev pub holds : ℕ → List Place → Bool
holds i [] = false
holds zero (none ∷ ps) = false
holds zero (some p ∷ ps) = true
holds (suc i) (p ∷ ps) = holds i ps

abbrev pub MayHappen : Event → List Place → Type 0
MayHappen (join c_name) ps = length c_name < name_size
MayHappen (soil m_id) ps = holds m_id ps ≡ true
MayHappen (gone m_id) ps = holds m_id ps ≡ true

abbrev pub AllMayHappen : List Event → List Place → Type 0
AllMayHappen [] ps = Unit {0}
AllMayHappen (e ∷ es) ps = MayHappen e ps × AllMayHappen es (meant e ps)

-- An empty place shows no soil.
abbrev pub IsClean : Companies → Type 0
IsClean [] = Unit {0}
IsClean (c ∷ cs) = (c.is_empty ≢ 0 → c.n_of_soil_done ≡ pos 0) × IsClean cs

-- What an event does, and what it means.
abbrev Follows : Event → Companies → Type 0
Follows e cs =
    (cs' : Companies) × (apply e cs ≡ some cs') × (places cs' ≡ meant e (places cs)) × IsClean cs'

-- A place before those that an event changes.
after_place :
    {A : Type 0} (c : Company) (o : Option A) (f : A → Companies) (cs' : Companies)
    → Option.map f o ≡ some cs'
    → Option.map (λ a. c ∷ f a) o ≡ some (c ∷ cs')
after_place c none f cs' e = cc
after_place c (some a) f cs' e = ground arith

join-Follows :
    (c_name : List ℕ) (cs : Companies)
    → length c_name < name_size
    → IsClean cs
    → Follows (join c_name) cs
unfolding apply claim
join-Follows c_name [] h clean = ([], refl, refl, tt)
join-Follows c_name (c ∷ cs) h clean = elim (ℕ_discrete c.is_empty 0) [
  | yes taken ↦
      let (cs', e, means, still) = join-Follows c_name cs h clean.1 in
      let shown : (c.is_empty == 0) ≡ true = (==_iff c.is_empty 0).1 taken in
      (
        c ∷ cs',
        rw shown (later c (claim c_name cs) cs' e),
        rw shown (ap (λ ps. some (c.name, c.n_of_soil_done) ∷ ps) means),
        (clean.0, still),
      )
  | no free ↦
      let hidden : (c.is_empty == 0) ≡ false = ground arith in
      let fits : ltb (length c_name) name_size ≡ true = ground arith in
      (
        record c { name = c_name; is_empty = 0 } ∷ cs,
        rw (hidden, fits) refl,
        rw (hidden, clean.0 free) refl,
        ((λ e. absurd (e refl)), clean.1),
      )
]
  where
    later :
        (c : Company) (o : Option (ℕ × Companies)) (cs' : Companies)
        → Option.map (λ (r : ℕ × Companies). r.1) o ≡ some cs'
        → Option.map
            (λ (r : ℕ × Companies). r.1)
            (Option.map (λ (r : ℕ × Companies). (r.0 + 1, c ∷ r.1)) o)
          ≡ some (c ∷ cs')
    later c none cs' e = cc
    later c (some r) cs' e = ground arith

-- A change of the company at a place that is held.
module _ (f : Company → Company) (g : Place → Place)
    (agree : (c : Company) → c.is_empty ≡ 0 → place_of (f c) ≡ g (some (c.name, c.n_of_soil_done)))
    (clean_after : (c : Company)
      → c.is_empty ≡ 0
      → (f c).is_empty ≢ 0
      → (f c).n_of_soil_done ≡ pos 0) where
  change_follows :
      (i : ℕ) (cs : Companies)
      → holds i (places cs) ≡ true
      → IsClean cs
      → (cs' : Companies) × (Option.map (λ c. set cs i (f c)) (get_elem? cs i) ≡ some cs')
        × (places cs' ≡ at_place i g (places cs))
        × IsClean cs'
  change_follows i [] h clean = ground arith
  change_follows zero (c ∷ cs) h clean =
      let held : c.is_empty ≡ 0 = taken c.is_empty h in
      let shown : (c.is_empty == 0) ≡ true = (==_iff c.is_empty 0).1 held in
      (
        f c ∷ cs,
        refl,
        rw shown (ap (λ p. p ∷ places cs) (agree c held)),
        (clean_after c held, clean.1),
      )
    where
      taken :
          (n : ℕ)
          → holds 0 ((if n == 0 then some (c.name, c.n_of_soil_done) else none) ∷ places cs) ≡ true
          → n ≡ 0
      taken n h = ground arith
  change_follows (suc i) (c ∷ cs) h clean =
      let (cs', e, means, still) = change_follows i cs (below (place_of c) h) clean.1 in
      (
        c ∷ cs',
        after_place c (get_elem? cs i) (λ d. set cs i (f d)) cs' e,
        ap (λ ps. place_of c ∷ ps) means,
        (clean.0, still),
      )
    where
      below : (p : Place) → holds (suc i) (p ∷ places cs) ≡ true → holds i (places cs) ≡ true
      below none h = h
      below (some p) h = h

soil-Follows :
    (i : ℕ) (cs : Companies) → holds i (places cs) ≡ true → IsClean cs → Follows (soil i) cs
unfolding apply count_soil
soil-Follows i cs h clean =
    change_follows (λ c. record c { n_of_soil_done = i32 (c.n_of_soil_done +ℤ pos 1) }) one_more
      (λ c e. ground (arith, e)) (λ c e k. absurd (k e)) i cs h clean

gone-Follows :
    (i : ℕ) (cs : Companies) → holds i (places cs) ≡ true → IsClean cs → Follows (gone i) cs
unfolding apply leave
gone-Follows i cs h clean =
    change_follows (λ c. record c { is_empty = 1; n_of_soil_done = pos 0 }) (λ p. none)
      (λ c e. refl) (λ c e k. refl) i cs h clean

event-Follows : (e : Event) (cs : Companies) → MayHappen e (places cs) → IsClean cs → Follows e cs
event-Follows (join c_name) cs h clean = join-Follows c_name cs h clean
event-Follows (soil i) cs h clean = soil-Follows i cs h clean
event-Follows (gone i) cs h clean = gone-Follows i cs h clean

abbrev pub meant_all : List Event → List Place → List Place
meant_all [] ps = ps
meant_all (e ∷ es) ps = meant_all es (meant e ps)

-- Whatever companies do to a registry whose empty places show no soil, in any order: as long as a
-- process counts and leaves only at a place that it holds, and the names fit, no access goes behind an
-- array, and the registry shows exactly the companies that are there, each at its place with its name
-- and the soil that it has counted since it came, and again no soil at an empty place.
pub registry_refines :
    (es : List Event) (cs : Companies)
    → AllMayHappen es (places cs)
    → IsClean cs
    → (cs' : Companies) × (apply_all es cs ≡ some cs')
      × (places cs' ≡ meant_all es (places cs))
      × IsClean cs'
unfolding Option.bind
registry_refines [] cs h clean = (cs, refl, refl, clean)
registry_refines (e ∷ es) cs (h, hs) clean =
    let (d, step, means, still) = event-Follows e cs h clean in
    let (cs', rest, all, end) = registry_refines es d (rw means hs) still in
    (cs', ap (λ o. Option.bind o (apply_all es)) step ∙ rest, all ∙ ap (meant_all es) means, end)
