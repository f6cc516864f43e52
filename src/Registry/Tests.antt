-- ===== src/Registry/Tests.antt =====
-- The theorems on the registry at inputs that meet their hypotheses.
use ctu_real_time_systems_pr.Base.{
  List, [], arith, false, get_or, if◌then◌else◌, none, pos, refl, replicate, set, some, suc, true,
  zero, ℕ, ◌+◌, ◌<◌, ◌==◌, ◌∷◌, ◌≡◌, ◌≢◌,
}
use ctu_real_time_systems_pr.Registry.{
  initialised, Companies, Kernel, Outcome, init_shm, count_soil, zeroed, companies_size,
}
use ctu_real_time_systems_pr.Registry.Shared.{
  Event, Place, join, soil, gone, apply_all, places, meant_all, IsClean, registry_refines,
}
use ctu_real_time_systems_pr.Registry.Late.{late_soil}
use ctu_real_time_systems_pr.Registry.Counts.{registry_counts}
use ctu_real_time_systems_pr.Registry.Monitor.{monitor_main, shown}
use ctu_real_time_systems_pr.Registry.Monitor.Watching.{RoundMayHappen, monitor_refines, watch_all}
use ctu_real_time_systems_pr.Registry.Init.{sound, full_registry_overruns}

abbrev acme : List ℕ
acme = b'a' ∷ b'c' ∷ b'm' ∷ b'e' ∷ []

-- The first place is taken, the second is empty.
abbrev half : Companies
half =
    record { n_of_soil_done = pos 4; name = b'x' ∷ []; is_empty = 0 }
    ∷ record zeroed { is_empty = 1 }
    ∷ []

-- mmap fails.
abbrev no_map : Kernel
no_map = record sound { mmap_fails = true }

abbrev full : Companies
full = zeroed ∷ zeroed ∷ []

full_registry_overruns_example :
    ((init_shm sound true (some acme) (record { object = some full; locked = false })).0
      ≡ Outcome.id 2)
    × (count_soil 2 full ≡ none)
full_registry_overruns_example = full_registry_overruns acme full (omega arith) (refl, (refl, tt))

abbrev initech : List ℕ
initech = b'i' ∷ b'n' ∷ b'i' ∷ []

half-IsClean : IsClean half
half-IsClean = ((λ h. absurd (h refl)), ((λ h. refl), tt))

-- A company comes, digs, the other one leaves, and a third one takes its place.
registry_refines_example :
    (cs' : Companies) × (apply_all (join acme ∷ soil 1 ∷ gone 0 ∷ join initech ∷ soil 1 ∷ []) half
      ≡ some cs')
    × (places cs'
        ≡ meant_all (join acme ∷ soil 1 ∷ gone 0 ∷ join initech ∷ soil 1 ∷ []) (places half))
    × IsClean cs'
registry_refines_example =
    registry_refines (join acme ∷ soil 1 ∷ gone 0 ∷ join initech ∷ soil 1 ∷ []) half
      (omega arith, (refl, (refl, (omega arith, (refl, tt))))) half-IsClean

late_soil_example :
    apply_all (gone 1 ∷ soil 1 ∷ join initech ∷ []) full
    ≡ some (set full 1 (record { n_of_soil_done = pos 1; name = initech; is_empty = 0 }))
late_soil_example = late_soil full 1 initech (omega arith) (omega arith) (refl, tt)

-- A company comes before the first entry of a round is read, and digs before the second.
abbrev busy : ℕ → List Event
busy i = if i == 0 then join acme ∷ [] else (if i == 1 then soil 0 ∷ [] else [])

busy_later : (i left : ℕ) (ps : List Place) → 1 < i → RoundMayHappen i left busy ps
busy_later i zero ps h = tt
busy_later i (suc left) ps h =
    let not_zero : (i == 0) ≡ false = ground arith in
    let not_one : (i == 1) ≡ false = ground arith in
    rw (not_zero, not_one) (tt, busy_later (i + 1) left ps (omega arith))

empty-IsClean : (n : ℕ) → IsClean (replicate n (record zeroed { is_empty = 1 }))
empty-IsClean zero = tt
empty-IsClean (suc n) = ((λ h. refl), empty-IsClean n)

monitor_refines_example :
    monitor_main sound (record { object = some initialised; locked = false }) (busy ∷ [])
    ≡ shown (some (watch_all (busy ∷ []) (places initialised)))
monitor_refines_example =
    monitor_refines (busy ∷ []) initialised
      (
        (
          (omega arith, tt),
          (
            (refl, tt),
            busy_later 2 48 (meant_all (busy 1) (meant_all (busy 0) (places initialised)))
                (omega arith),
          ),
        ),
        tt,
      )
      (empty-IsClean companies_size) refl

zero_not_one : ◌≢◌ {A = ℕ} 0 1
zero_not_one = omega arith

-- The second company stays while the first one digs and leaves, and another one comes.
registry_counts_example :
    (cs' : Companies) × (apply_all (soil 1 ∷ soil 0 ∷ gone 0 ∷ join acme ∷ soil 1 ∷ []) full
      ≡ some cs')
    × (get_or (places cs') 1 none ≡ some ([], pos 2))
registry_counts_example =
    registry_counts (soil 1 ∷ soil 0 ∷ gone 0 ∷ join acme ∷ soil 1 ∷ []) full 1 [] 0
      (refl, (refl, (refl, (omega arith, (refl, tt)))))
      ((λ h. absurd (h refl)), ((λ h. absurd (h refl)), tt)) refl (zero_not_one, tt) (omega arith)
