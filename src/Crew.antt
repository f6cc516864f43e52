-- ===== src/Crew.antt =====
-- The command loop of the digging company: `CreateTasks` of lab2_mutex_semaphore/task2.c, and `main`
-- of lab3_real_time_processes/company.c, which differs in its command 'E'.
pub mod Laws
pub mod Stacks
pub mod Overrun
pub mod Names
mod Tests
use mathlib.Core.Option
use ctu_real_time_systems_pr.Base.{
  List, Option, [], get_elem?, if◌then◌else◌, leb, length, ltb, map, none, replicate, set, some,
  suc, zero, ℕ, ◌+◌, ◌-◌, ◌==◌, ◌∷◌,
}

abbrev pub max_num_of_diggers : ℕ
max_num_of_diggers = 50

pub data Call : Type 0 where
  spawned_lower spawned_upper : (number task : ℕ) → Call
  deleted : (task : ℕ) → Call

-- The globals of the loop, and the kernel calls so far, newest first. The arrays have 50 entries.
pub record Crew : Type 0 where
  pub l_diggers_count : ℕ
  pub u_diggers_count : ℕ
  pub l_diggers_ids : List ℕ
  pub u_diggers_ids : List ℕ
  pub calls : List Call

-- `create_lower` and `create_upper` with the assignment of the id and the increment: `id` is what
-- taskSpawn returns. `none` is a write behind the end of the array.
unfoldable pub hire_lower : ℕ → Crew → Option Crew
hire_lower id c =
    if ltb c.l_diggers_count (length c.l_diggers_ids)
    then some (record c {
      l_diggers_ids = set c.l_diggers_ids c.l_diggers_count id;
      l_diggers_count = c.l_diggers_count + 1;
      calls = spawned_lower c.l_diggers_count id ∷ c.calls;
    })
    else none

unfoldable pub hire_upper : ℕ → Crew → Option Crew
hire_upper id c =
    if ltb c.u_diggers_count (length c.u_diggers_ids)
    then some (record c {
      u_diggers_ids = set c.u_diggers_ids c.u_diggers_count id;
      u_diggers_count = c.u_diggers_count + 1;
      calls = spawned_upper c.u_diggers_count id ∷ c.calls;
    })
    else none

-- case 'i', case 'I', case 'o' and case 'O'
pub add_lower : ℕ → Crew → Option Crew
unfolding hire_lower
add_lower id c = if leb max_num_of_diggers c.l_diggers_count then some c else hire_lower id c

-- The guard is the one of the code: it looks at the other count.
pub add_upper : ℕ → Crew → Option Crew
unfolding hire_upper
add_upper id c = if leb max_num_of_diggers c.l_diggers_count then some c else hire_upper id c

pub remove_lower : Crew → Option Crew
remove_lower c =
    if c.l_diggers_count == 0
    then some c
    else Option.map
        (λ id. record c { calls = deleted id ∷ c.calls; l_diggers_count = c.l_diggers_count - 1 })
        (get_elem? c.l_diggers_ids (c.l_diggers_count - 1))

pub remove_upper : Crew → Option Crew
remove_upper c =
    if c.u_diggers_count == 0
    then some c
    else Option.map
        (λ id. record c { calls = deleted id ∷ c.calls; u_diggers_count = c.u_diggers_count - 1 })
        (get_elem? c.u_diggers_ids (c.u_diggers_count - 1))

-- One of the loops of case 'E': the first `n` ids of the array, in order. A read behind its end
-- stops the model.
pub delete_all : ℕ → List ℕ → List Call → Option (List Call)
delete_all zero ids calls = some calls
delete_all (suc n) [] calls = none
delete_all (suc n) (id ∷ ids) calls = delete_all n ids (deleted id ∷ calls)

-- case 'E' of task2.c
pub dismiss : Crew → Option Crew
unfolding delete_all
dismiss c =
    Option.map (λ calls. record c { calls = calls; u_diggers_count = 0; l_diggers_count = 0 })
      (Option.bind (delete_all c.l_diggers_count c.l_diggers_ids c.calls)
        (delete_all c.u_diggers_count c.u_diggers_ids))

-- The body of the loop of task2.c: a character, and the id that taskSpawn returns if it is called.
unfoldable pub command : ℕ → ℕ → Crew → Option Crew
unfolding add_lower add_upper remove_lower remove_upper dismiss
command char id c =
    if char == b'i'
    then add_lower id c
    else (if char == b'I'
        then add_upper id c
        else (if char == b'o'
            then remove_lower c
            else (if char == b'O'
                then remove_upper c
                else (if char == b'E' then dismiss c else some c))))

-- The commands before the loop: one digger of each kind.
pub start_crew : ℕ → ℕ → Crew → Option Crew
unfolding hire_lower hire_upper
start_crew lower upper c = Option.bind (hire_lower lower c) (hire_upper upper)

-- The loop, over the characters that are typed, each with the next id of the kernel.
abbrev pub run : List (ℕ × ℕ) → Crew → Option Crew
run [] c = some c
run ((char, id) ∷ rest) c = Option.bind (command char id c) (run rest)

-- Static storage
abbrev pub nobody : Crew
nobody = record {
  l_diggers_count = 0;
  u_diggers_count = 0;
  l_diggers_ids = replicate max_num_of_diggers 0;
  u_diggers_ids = replicate max_num_of_diggers 0;
  calls = [];
}
