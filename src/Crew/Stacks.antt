-- ===== src/Crew/Stacks.antt =====
-- The command loop of lab2_mutex_semaphore/task2.c against two stacks of tasks.
pub mod Refine
use mathlib.Core.Option
use mathlib.Core.List.{reverse, map}
use ctu_real_time_systems_pr.Base.{
  Bool, List, Option, [], if◌then◌else◌, leb, length, map, none, some, ℕ, ◌++◌, ◌<◌, ◌==◌, ◌∷◌, ◌≡◌,
  ◌≤◌, ◌⊎◌,
}
use ctu_real_time_systems_pr.Crew.{
  Call, Crew, add_lower, add_upper, command, deleted, dismiss, max_num_of_diggers, remove_lower,
  remove_upper, run, spawned_lower, spawned_upper,
}
use ctu_real_time_systems_pr.Crew.Laws.{
  IsValid, command-IsValid, dismiss_lem, lower_tasks, take-set_end, upper_tasks,
}

-- The tasks that live, the newest last, and the calls of the kernel, newest first.
pub record Stacks : Type 0 where
  pub lower : List ℕ
  pub upper : List ℕ
  pub calls : List Call

abbrev pub stacks : Crew → Stacks
stacks c = record { lower = lower_tasks c; upper = upper_tasks c; calls = c.calls }

abbrev pub newest : List ℕ → Option ℕ
newest [] = none
newest (x ∷ []) = some x
newest (x ∷ y ∷ xs) = newest (y ∷ xs)

abbrev pub older : List ℕ → List ℕ
older [] = []
older (x ∷ []) = []
older (x ∷ y ∷ xs) = x ∷ older (y ∷ xs)

-- What each command is meant to do. Both limits are those of the diggers in the hole.
abbrev pub is_full : Stacks → Bool
is_full s = leb max_num_of_diggers (length s.lower)

abbrev pub pop_lower : Option ℕ → Stacks → Stacks
pop_lower none s = s
pop_lower (some id) s = record s { lower = older s.lower; calls = deleted id ∷ s.calls }

abbrev pub pop_upper : Option ℕ → Stacks → Stacks
pop_upper none s = s
pop_upper (some id) s = record s { upper = older s.upper; calls = deleted id ∷ s.calls }

abbrev pub meant : ℕ → ℕ → Stacks → Stacks
meant char id s =
    if char == b'i'
    then (if is_full s then s else record s {
      lower = s.lower ++ (id ∷ []);
      calls = spawned_lower (length s.lower) id ∷ s.calls;
    })
    else (if char == b'I'
        then (if is_full s then s else record s {
          upper = s.upper ++ (id ∷ []);
          calls = spawned_upper (length s.upper) id ∷ s.calls;
        })
        else (if char == b'o'
            then pop_lower (newest s.lower) s
            else (if char == b'O'
                then pop_upper (newest s.upper) s
                else (if char == b'E'
                    then record {
                      lower = [];
                      upper = [];
                      calls = reverse (map deleted (s.lower ++ s.upper)) ++ s.calls;
                    }
                    else s))))

abbrev pub meant_all : List (ℕ × ℕ) → Stacks → Stacks
meant_all [] s = s
meant_all ((char, id) ∷ keys) s = meant_all keys (meant char id s)

-- There is room for a digger up the hole, or none is taken on.
abbrev pub MayType : ℕ → Stacks → Type 0
MayType char s =
    (char ≡ b'I') → (max_num_of_diggers ≤ length s.lower) ⊎ (length s.upper < max_num_of_diggers)

abbrev pub AllMayType : List (ℕ × ℕ) → Stacks → Type 0
AllMayType [] s = Unit {0}
AllMayType ((char, id) ∷ keys) s = MayType char s × AllMayType keys (meant char id s)
