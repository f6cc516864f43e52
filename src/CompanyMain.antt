-- ===== src/CompanyMain.antt =====
-- The program of a company, `main` of lab3_real_time_processes/company.c: its arguments, its place in
-- the shared registry, its crew of diggers, and its command loop.
pub mod Lifetime
mod Tests
use mathlib.Core.Option
use ctu_real_time_systems_pr.Base.{List, Option, [], if◌then◌else◌, map, some, true, ℕ, ◌==◌, ◌∷◌}
use ctu_real_time_systems_pr.Registry.{Companies, Kernel, Outcome, Shm, init_shm, leave}
use ctu_real_time_systems_pr.Registry.Shared.{Event, apply_all}
use ctu_real_time_systems_pr.Crew.{
  Crew, add_lower, add_upper, nobody, remove_lower, remove_upper, start_crew,
}

-- What a command leads to: the next round, or the end of main, which leaves the registry behind.
pub data Next : Type 0 where
  goes_on : Crew → Next
  returns : Crew → Companies → Next

-- The body of the loop: a character, the id that taskSpawn returns if it is called, and the registry
-- as it is then. `none` is an access outside of an array.
pub company_command : ℕ → ℕ → ℕ → Companies → Crew → Option Next
company_command m_id a id cs c =
    if a == b'i'
    then Option.map goes_on (add_lower id c)
    else (if a == b'I'
        then Option.map goes_on (add_upper id c)
        else (if a == b'o'
            then Option.map goes_on (remove_lower c)
            else (if a == b'O'
                then Option.map goes_on (remove_upper c)
                else (if a == b'E'
                    then Option.map (returns c) (leave m_id cs)
                    else some (goes_on c)))))

-- A round: the character, the id, and what has been done to the registry since the round before, by
-- the workers of this company and by all others.
pub record Round : Type 0 where
  pub a : ℕ
  pub id : ℕ
  pub others : List Event

-- How far the program comes with the characters that are typed; `exited` has what init_shm came to where
-- it gave no id, also a wait for the lock.
pub data Ending : Type 0 where
  waits : Crew → Companies → Ending
  returned : Crew → Companies → Ending
  wrong_arguments : Ending
  exited : Outcome → Ending

-- How a round goes on after its command.
unfoldable pub proceed : (Crew → Option Ending) → Next → Option Ending
proceed rest (goes_on c) = rest c
proceed rest (returns c cs) = some (returned c cs)

-- while (1)
pub company_loop : ℕ → List Round → Companies → Crew → Option Ending
unfolding proceed
company_loop m_id [] cs c = some (waits c cs)
company_loop m_id (r ∷ rounds) cs c =
    Option.bind (apply_all r.others cs) (λ ds.
      Option.bind (company_command m_id r.a r.id ds c) (proceed (company_loop m_id rounds ds)))

-- After init_shm: the crew starts with two tasks, whose ids are `lower` and `upper`, and the loop works
-- on the registry that is mapped.
pub with_place : Outcome → Option Companies → ℕ → ℕ → List Round → Option Ending
unfolding company_loop
with_place (Outcome.id m_id) object lower upper rounds =
    Option.bind object
      (λ cs. Option.bind (start_crew lower upper nobody) (company_loop m_id rounds cs))
with_place outcome object lower upper rounds = some (exited outcome)

-- `main`; argv[1] is the name of the company.
pub company_main : List (List ℕ) → Kernel → Shm → ℕ → ℕ → List Round → Option Ending
unfolding with_place
company_main (program ∷ c_name ∷ []) k s lower upper rounds =
    let (outcome, after) = init_shm k true (some c_name) s in
    with_place outcome after.object lower upper rounds
company_main argv k s lower upper rounds = some wrong_arguments
