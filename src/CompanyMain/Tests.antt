-- ===== src/CompanyMain/Tests.antt =====
-- The theorems on the program of a company at inputs that meet their hypotheses.
use mathlib.Core.Option
use ctu_real_time_systems_pr.Base.{List, [], arith, false, pos, refl, some, ℕ, ◌++◌, ◌∷◌, ◌≡◌, ◌≢◌}
use ctu_real_time_systems_pr.Crew.{nobody, run, start_crew}
use ctu_real_time_systems_pr.Registry.{claim, Companies, zeroed}
use ctu_real_time_systems_pr.Registry.Init.{sound}
use ctu_real_time_systems_pr.Registry.Shared.{apply_all, gone, join, soil}
use ctu_real_time_systems_pr.CompanyMain.{Round, company_main, returned}
use ctu_real_time_systems_pr.CompanyMain.Lifetime.{company_lifetime, events, keys}

abbrev acme : List ℕ
acme = b'a' ∷ b'c' ∷ b'm' ∷ b'e' ∷ []

abbrev program : List ℕ
program = b'c' ∷ []

-- The first place is taken, the second is empty.
abbrev half : Companies
half =
    record { n_of_soil_done = pos 4; name = b'x' ∷ []; is_empty = 0 }
    ∷ record zeroed { is_empty = 1 }
    ∷ []

abbrev joined : Companies
joined =
    record { n_of_soil_done = pos 4; name = b'x' ∷ []; is_empty = 0 }
    ∷ record { n_of_soil_done = pos 0; name = acme; is_empty = 0 }
    ∷ []

-- One more digger in the hole, while both companies dig; then one less; then the end.
abbrev working : List Round
working =
    record { a = b'i'; id = 13; others = soil 1 ∷ soil 0 ∷ [] }
    ∷ record { a = b'o'; id = 0; others = soil 1 ∷ [] }
    ∷ []

abbrev ends : Round
ends = record { a = b'E'; id = 0; others = gone 0 ∷ [] }

abbrev ignored : List Round
ignored = record { a = b'i'; id = 14; others = [] } ∷ []

claims : claim acme half ≡ some (1, joined)
unfolding claim
claims = refl

i_not_end : ◌≢◌ {A = ℕ} b'i' b'E'
i_not_end = omega arith

o_not_end : ◌≢◌ {A = ℕ} b'o' b'E'
o_not_end = omega arith

company_lifetime_example :
    company_main
      (program ∷ acme ∷ [])
      sound
      (record { object = some half; locked = false })
      11
      12
      (working ++ (ends ∷ ignored))
    ≡ Option.bind (Option.bind (start_crew 11 12 nobody) (run (keys working))) (λ d.
      Option.map
        (returned d)
        (apply_all (join acme ∷ (events working ++ (gone 0 ∷ gone 1 ∷ []))) half))
company_lifetime_example =
    company_lifetime program acme half joined 1 11 12 working ends ignored claims
      (i_not_end, (o_not_end, tt)) refl
