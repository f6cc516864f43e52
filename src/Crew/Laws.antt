-- ===== src/Crew/Laws.antt =====
-- The command loop of lab2_mutex_semaphore/task2.c as two stacks of tasks, and where it goes wrong.
use mathlib.Core.Option
use mathlib.Core.List.{reverse, reverse-append, reverse-cons, append_assoc, map-append, map}
use ctu_real_time_systems_pr.Base.{
  List, Option-cases, [], ap, arith, get_elem?-of_lt, get_elem?-set_self, inl, inr, length,
  length-set, map, none, refl, set, some, suc, sym, take, zero, ℕ, ◌++◌, ◌+◌, ◌-◌, ◌<◌, ◌∙◌, ◌∷◌,
  ◌≡◌, ◌≢◌, ◌≤◌, ◌⊎◌,
}
use ctu_real_time_systems_pr.Crew.{
  spawned_lower, Call, deleted, delete_all, hire_upper, Crew, add_lower, add_upper, remove_lower,
  remove_upper, dismiss, command, max_num_of_diggers,
}

-- The tasks that live, the newest last.
abbrev pub lower_tasks : Crew → List ℕ
lower_tasks c = take c.l_diggers_count c.l_diggers_ids

abbrev pub upper_tasks : Crew → List ℕ
upper_tasks c = take c.u_diggers_count c.u_diggers_ids

pub record IsValid (c : Crew) : Type 0 where
  pub l_size : length c.l_diggers_ids ≡ max_num_of_diggers
  pub u_size : length c.u_diggers_ids ≡ max_num_of_diggers
  pub l_few : c.l_diggers_count ≤ max_num_of_diggers
  pub u_few : c.u_diggers_count ≤ max_num_of_diggers

add_lower-IsValid : (id : ℕ) (c : Crew) {d : Crew} → IsValid c → add_lower id c ≡ some d → IsValid d
unfolding add_lower
add_lower-IsValid id c v e = ground (arith, length-set c.l_diggers_ids c.l_diggers_count id)

add_upper-IsValid : (id : ℕ) (c : Crew) {d : Crew} → IsValid c → add_upper id c ≡ some d → IsValid d
unfolding add_upper
add_upper-IsValid id c v e = ground (arith, length-set c.u_diggers_ids c.u_diggers_count id)

remove_lower-IsValid : (c : Crew) {d : Crew} → IsValid c → remove_lower c ≡ some d → IsValid d
unfolding remove_lower
remove_lower-IsValid c v e = ground arith

remove_upper-IsValid : (c : Crew) {d : Crew} → IsValid c → remove_upper c ≡ some d → IsValid d
unfolding remove_upper
remove_upper-IsValid c v e = ground arith

dismiss-IsValid : (c : Crew) {d : Crew} → IsValid c → dismiss c ≡ some d → IsValid d
unfolding dismiss Option.bind
dismiss-IsValid c v e = ground arith

-- Whatever is typed, as long as no write goes behind an array, the counts stay within the arrays.
pub command-IsValid :
    (char id : ℕ) (c : Crew) {d : Crew} → IsValid c → command char id c ≡ some d → IsValid d
unfolding command
command-IsValid char id c {d = d} v e = ground (
  arith,
  add_lower-IsValid id c {d = d},
  add_upper-IsValid id c {d = d},
  remove_lower-IsValid c {d = d},
  remove_upper-IsValid c {d = d},
  dismiss-IsValid c {d = d},
)

delete_all_lem :
    (n : ℕ) (ids : List ℕ) (calls : List Call)
    → n ≤ length ids
    → delete_all n ids calls ≡ some (reverse (map deleted (take n ids)) ++ calls)
unfolding delete_all
delete_all_lem zero ids calls h = refl
delete_all_lem (suc n) [] calls h = absurd (omega arith)
delete_all_lem (suc n) (id ∷ ids) calls h =
    delete_all_lem n ids (deleted id ∷ calls) (omega arith)
    ∙ ap some (
        sym (
          ap (λ l. l ++ calls) (reverse-cons (deleted id) (map deleted (take n ids)))
          ∙ append_assoc (reverse (map deleted (take n ids))) (deleted id ∷ []) calls))

-- In a valid state case 'E' deletes every living task, those in the hole first and each group
-- from the oldest on, and no other task; then no task is left.
pub dismiss_lem :
    (c : Crew)
    → IsValid c
    → dismiss c
      ≡ some (record c {
        calls = reverse (map deleted (lower_tasks c ++ upper_tasks c)) ++ c.calls;
        u_diggers_count = 0;
        l_diggers_count = 0;
      })
unfolding dismiss Option.bind
dismiss_lem c v =
    rw
      (
        delete_all_lem c.l_diggers_count c.l_diggers_ids c.calls (omega (arith, v.l_few, v.l_size)),
        delete_all_lem c.u_diggers_count c.u_diggers_ids
            (reverse (map deleted (lower_tasks c)) ++ c.calls) (omega (arith, v.u_few, v.u_size)),
      )
      (ap (λ calls. some (record c { calls = calls; u_diggers_count = 0; l_diggers_count = 0 }))
        (simp (map-append, reverse-append, append_assoc)))

pub take-set_end :
    (xs : List ℕ) (n x : ℕ) → n < length xs → take (suc n) (set xs n x) ≡ take n xs ++ (x ∷ [])
take-set_end [] n x h = elim h [ ]
take-set_end (y ∷ xs) zero x h = refl
take-set_end (y ∷ xs) (suc n) x h = ap (λ l. y ∷ l) (take-set_end xs n x (omega arith))

take-set_same : (xs : List ℕ) (n x : ℕ) → take n (set xs n x) ≡ take n xs
take-set_same [] zero x = refl
take-set_same [] (suc n) x = refl
take-set_same (y ∷ xs) zero x = refl
take-set_same (y ∷ xs) (suc n) x = ap (λ l. y ∷ l) (take-set_same xs n x)

-- Case 'i' with room left puts the new task on the stack of those in the hole; case 'o' right
-- after it deletes that very task, and the living tasks are again what they were.
pub remove-add_lower :
    (id : ℕ) (c : Crew)
    → IsValid c
    → c.l_diggers_count < max_num_of_diggers
    → (d e : Crew) × (add_lower id c ≡ some d)
      × (lower_tasks d ≡ lower_tasks c ++ (id ∷ []))
      × (remove_lower d ≡ some e)
      × (e.calls ≡ deleted id ∷ d.calls)
      × (lower_tasks e ≡ lower_tasks c)
      × (upper_tasks e ≡ upper_tasks c)
unfolding add_lower remove_lower
remove-add_lower id c v h = (
  d,
  record d { calls = deleted id ∷ d.calls; l_diggers_count = d.l_diggers_count - 1 },
  ground (arith, v.l_size),
  rw one_more (take-set_end c.l_diggers_ids c.l_diggers_count id room),
  ground (arith, get_elem?-set_self c.l_diggers_ids c.l_diggers_count id room, back),
  refl,
  rw back (take-set_same c.l_diggers_ids c.l_diggers_count id),
  refl,
)
  where
    d : Crew
    d = record c {
      l_diggers_ids = set c.l_diggers_ids c.l_diggers_count id;
      l_diggers_count = c.l_diggers_count + 1;
      calls = spawned_lower c.l_diggers_count id ∷ c.calls;
    }

    room : c.l_diggers_count < length c.l_diggers_ids
    room = omega (arith, v.l_size)

    one_more : c.l_diggers_count + 1 ≡ suc c.l_diggers_count
    one_more = omega arith

    back : c.l_diggers_count + 1 - 1 ≡ c.l_diggers_count
    back = omega arith

-- The guard of case 'I' reads the count of the diggers in the hole. In a valid state with 50
-- diggers up the hole and fewer in it, 'I' writes behind the end of the array of ids.
pub add_upper_overruns :
    (id : ℕ) (c : Crew)
    → IsValid c
    → c.u_diggers_count ≡ max_num_of_diggers
    → c.l_diggers_count < max_num_of_diggers
    → command b'I' id c ≡ none
unfolding command add_upper hire_upper
add_upper_overruns id c v u l = ground arith

-- In a valid state of the crew any other command than 'I', and 'I' with fewer than 50 diggers
-- up the hole, stays within the arrays and leads to a next state.
command_total :
    (char id : ℕ) (c : Crew)
    → IsValid c
    → (char ≢ b'I') ⊎ (c.u_diggers_count < max_num_of_diggers)
    → (d : Crew) × (command char id c ≡ some d)
unfolding command add_lower add_upper remove_lower remove_upper
command_total char id c v h = elim (Option-cases (command char id c)) [
  | inl stopped ↦ absurd (never stopped)
  | inr found ↦ found
]
  where
    never : command char id c ≢ none
    never e = ground (
      arith,
      dismiss_lem c v,
      get_elem?-of_lt c.l_diggers_ids (c.l_diggers_count - 1),
      get_elem?-of_lt c.u_diggers_ids (c.u_diggers_count - 1),
      v.l_size,
      v.u_size,
    )
