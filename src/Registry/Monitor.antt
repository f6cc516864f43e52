-- ===== src/Registry/Monitor.antt =====
-- The program of lab3_real_time_processes/monitor.c.
pub mod Watching
use mathlib.Core.Option
use ctu_real_time_systems_pr.Base.{
  List, Option, [], ap, arith, false, get_elem?, get_elem?-of_lt, get_or, if◌then◌else◌, length,
  length-map, map, none, refl, some, suc, sym, zero, ℕ, ℤ, ◌++◌, ◌+◌, ◌==◌, ◌∙◌, ◌∷◌, ◌≡◌, ◌≤◌,
}
use ctu_real_time_systems_pr.Registry.{
  Company, Companies, Kernel, Outcome, Shm, init_shm, companies_size,
}
use ctu_real_time_systems_pr.Registry.Init.{sound, init_shm-watch}
use ctu_real_time_systems_pr.Registry.Shared.{
  enter, at_place, meant, one_more, join, soil, gone, AllMayHappen, Event, IsClean, Place,
  apply_all, meant_all, place_of, places, registry_refines,
}

-- What the printf of an entry prints: nothing for an empty company.
pub print_company : Company → List (List ℕ × ℤ)
print_company c = if c.is_empty == 0 then (c.name, c.n_of_soil_done) ∷ [] else []

-- The line of an entry, before what comes after it.
abbrev before :
    Company → Option (List (List ℕ × ℤ) × Companies) → Option (List (List ℕ × ℤ) × Companies)
before c o = Option.map (λ (r : List (List ℕ × ℤ) × Companies). (print_company c ++ r.0, r.1)) o

-- The loop over the entries, from `i` on, with the entries left: `others i` is what has been done to
-- the registry since the entry before. What is printed, and the registry after it; none is an access behind the array.
pub monitor_round : ℕ → ℕ → (ℕ → List Event) → Companies → Option (List (List ℕ × ℤ) × Companies)
unfolding print_company
monitor_round i zero others cs = some ([], cs)
monitor_round i (suc left) others cs =
    Option.bind (apply_all (others i) cs)
      (λ ds. Option.bind (get_elem? ds i) (λ c. before c (monitor_round (i + 1) left others ds)))

-- while (1), over the rounds that are made: the lines of each.
pub monitor_loop : List (ℕ → List Event) → Companies → Option (List (List (List ℕ × ℤ)))
unfolding monitor_round
monitor_loop [] cs = some []
monitor_loop (others ∷ rounds) cs =
    Option.bind (monitor_round 0 companies_size others cs)
      (λ r. Option.map (λ lines. r.0 ∷ lines) (monitor_loop rounds r.1))

-- How `main` comes out: what init_shm came to where it gave no id, its own exit(10), or the lines of its
-- rounds.
pub data Monitored : Type 0 where
  exited : Outcome → Monitored
  exit_10 : Monitored
  shown : Option (List (List (List ℕ × ℤ))) → Monitored

pub with_registry : Outcome → Option Companies → List (ℕ → List Event) → Monitored
unfolding monitor_loop
with_registry (Outcome.id n) object rounds =
    if n == 0 then shown (Option.bind object (monitor_loop rounds)) else exit_10
with_registry outcome object rounds = exited outcome

-- `main`
pub monitor_main : Kernel → Shm → List (ℕ → List Event) → Monitored
unfolding with_registry
monitor_main k s rounds =
    let (outcome, after) = init_shm k false (some []) s in with_registry outcome after.object rounds
