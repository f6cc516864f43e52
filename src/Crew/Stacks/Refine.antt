-- ===== src/Crew/Stacks/Refine.antt =====
-- The commands of lab2_mutex_semaphore/task2.c do to their arrays what they are meant to do to two stacks.
use mathlib.Core.Option
use mathlib.Core.List.{reverse, map}
use ctu_real_time_systems_pr.Base.{
  ==_iff, Bool, List, Option, [], ap, arith, false, get_elem?, get_elem?-of_lt, if◌then◌else◌, inl,
  inr, leb, length, length-take, ltb, map, none, refl, set, some, suc, sym, take, true, zero, ℕ,
  ◌++◌, ◌+◌, ◌-◌, ◌<◌, ◌==◌, ◌∙◌, ◌∷◌, ◌≡◌, ◌≤◌, ◌⊎◌,
}
use ctu_real_time_systems_pr.Crew.{
  Crew, add_lower, add_upper, command, deleted, dismiss, max_num_of_diggers, remove_lower,
  remove_upper, run, spawned_lower, spawned_upper,
}
use ctu_real_time_systems_pr.Crew.Laws.{
  IsValid, command-IsValid, dismiss_lem, lower_tasks, take-set_end, upper_tasks,
}
use ctu_real_time_systems_pr.Crew.Stacks.{
  AllMayType, MayType, Stacks, is_full, meant, meant_all, newest, older, pop_lower, pop_upper,
  stacks,
}

-- A result that stands for some stacks.
abbrev Follows : Option Crew → Stacks → Type 0
Follows o s = (d : Crew) × (o ≡ some d) × (stacks d ≡ s)

if-Follows :
    (b : Bool) {x y : Option Crew} {s t : Stacks}
    → (b ≡ true → Follows x s)
    → (b ≡ false → Follows y t)
    → Follows (if b then x else y) (if b then s else t)
if-Follows true f g = f refl
if-Follows false f g = g refl

newest-take :
    (xs : List ℕ) (n id : ℕ) → get_elem? xs n ≡ some id → newest (take (suc n) xs) ≡ some id
newest-take [] n id e = cc
newest-take (x ∷ xs) zero id e = e
newest-take (x ∷ []) (suc n) id e = cc
newest-take (x ∷ y ∷ xs) (suc n) id e = newest-take (y ∷ xs) n id e

older-take : (xs : List ℕ) (n : ℕ) → n < length xs → older (take (suc n) xs) ≡ take n xs
older-take [] n h = absurd (omega arith)
older-take (x ∷ xs) zero h = refl
older-take (x ∷ []) (suc n) h = absurd (omega arith)
older-take (x ∷ y ∷ xs) (suc n) h = ap (λ l. x ∷ l) (older-take (y ∷ xs) n (omega arith))

-- A stack with a task on it, or an empty one.
popped :
    (n : ℕ) (ids : List ℕ)
    → n ≤ length ids
    → ((n == 0) ≡ true) × (newest (take n ids) ≡ none)
      ⊎ (id : ℕ) × ((n == 0) ≡ false)
        × (get_elem? ids (n - 1) ≡ some id)
        × (newest (take n ids) ≡ some id)
        × (older (take n ids) ≡ take (n - 1) ids)
popped zero ids h = inl (refl, refl)
popped (suc n) ids h =
    let back : suc n - 1 ≡ n = omega arith in
    let (id, at) = get_elem?-of_lt ids n (omega arith) in
    inr (
      id,
      ground arith,
      ap (get_elem? ids) back ∙ at,
      newest-take ids n id at,
      rw back (older-take ids n (omega arith)),
    )

size : (n : ℕ) (ids : List ℕ) → n ≤ length ids → length (take n ids) ≡ n
size n ids h = omega (arith, length-take n ids)

pushed :
    (n id : ℕ) (ids : List ℕ)
    → n < length ids
    → take (n + 1) (set ids n id) ≡ take n ids ++ (id ∷ [])
pushed n id ids h = let next : n + 1 ≡ suc n = omega arith in rw next (take-set_end ids n id h)

module _ (c : Crew) (v : IsValid c) where
  lower_size : length (lower_tasks c) ≡ c.l_diggers_count
  lower_size = size c.l_diggers_count c.l_diggers_ids (omega (arith, v.l_size, v.l_few))

  upper_size : length (upper_tasks c) ≡ c.u_diggers_count
  upper_size = size c.u_diggers_count c.u_diggers_ids (omega (arith, v.u_size, v.u_few))

  add_lower-Follows :
      (id : ℕ)
      → Follows (add_lower id c) (
          if is_full (stacks c) then stacks c else record (stacks c) {
            lower = lower_tasks c ++ (id ∷ []);
            calls = spawned_lower (length (lower_tasks c)) id ∷ c.calls;
          })
  unfolding add_lower
  add_lower-Follows id = rw lower_size (
      if-Follows (leb max_num_of_diggers c.l_diggers_count) (λ full. (c, refl, refl))
        (λ room.
          let lt : c.l_diggers_count < length c.l_diggers_ids = ground (arith, v.l_size) in
          let fits : ltb c.l_diggers_count (length c.l_diggers_ids) ≡ true = ground arith in
          (
            _,
            rw fits refl,
            ap
                (λ l. record {
                  lower = l;
                  upper = upper_tasks c;
                  calls = spawned_lower c.l_diggers_count id ∷ c.calls;
                })
                (pushed c.l_diggers_count id c.l_diggers_ids lt),
          )))

  add_upper-Follows :
      (id : ℕ)
      → (max_num_of_diggers ≤ length (lower_tasks c))
        ⊎ (length (upper_tasks c) < max_num_of_diggers)
      → Follows (add_upper id c) (
          if is_full (stacks c) then stacks c else record (stacks c) {
            upper = upper_tasks c ++ (id ∷ []);
            calls = spawned_upper (length (upper_tasks c)) id ∷ c.calls;
          })
  unfolding add_upper
  add_upper-Follows id may =
      rw (lower_size, upper_size)
        (if-Follows (leb max_num_of_diggers c.l_diggers_count) (λ full. (c, refl, refl))
          (λ room.
            let lt : c.u_diggers_count < length c.u_diggers_ids =
              ground (arith, v.u_size, may, lower_size, upper_size) in
            let fits : ltb c.u_diggers_count (length c.u_diggers_ids) ≡ true = ground arith in
            (
              _,
              rw fits refl,
              ap
                  (λ l. record {
                    lower = lower_tasks c;
                    upper = l;
                    calls = spawned_upper c.u_diggers_count id ∷ c.calls;
                  })
                  (pushed c.u_diggers_count id c.u_diggers_ids lt),
            )))

  remove_lower-Follows : Follows (remove_lower c) (pop_lower (newest (lower_tasks c)) (stacks c))
  unfolding remove_lower
  remove_lower-Follows =
      elim (popped c.l_diggers_count c.l_diggers_ids (omega (arith, v.l_size, v.l_few))) [
        | inl (zero_count, empty) ↦ rw (zero_count, empty) (c, refl, refl)
        | inr (id, some_count, at, top, rest) ↦
            rw (some_count, at, top)
              (
                _,
                refl,
                ap (λ l. record { lower = l; upper = upper_tasks c; calls = deleted id ∷ c.calls })
                    (sym rest),
              )
      ]

  remove_upper-Follows : Follows (remove_upper c) (pop_upper (newest (upper_tasks c)) (stacks c))
  unfolding remove_upper
  remove_upper-Follows =
      elim (popped c.u_diggers_count c.u_diggers_ids (omega (arith, v.u_size, v.u_few))) [
        | inl (zero_count, empty) ↦ rw (zero_count, empty) (c, refl, refl)
        | inr (id, some_count, at, top, rest) ↦
            rw (some_count, at, top)
              (
                _,
                refl,
                ap (λ l. record { lower = lower_tasks c; upper = l; calls = deleted id ∷ c.calls })
                    (sym rest),
              )
      ]

  dismiss-Follows : Follows (dismiss c) (record {
    lower = [];
    upper = [];
    calls = reverse (map deleted (lower_tasks c ++ upper_tasks c)) ++ c.calls;
  })
  dismiss-Follows = (_, dismiss_lem c v, refl)

  command-Follows :
      (char id : ℕ)
      → MayType char (stacks c)
      → Follows (command char id c) (meant char id (stacks c))
  unfolding command
  command-Follows char id may =
      if-Follows (char == b'i') (λ e. add_lower-Follows id)
        (λ e.
          if-Follows (char == b'I') (λ f. add_upper-Follows id (may ((==_iff char b'I').0 f)))
            (λ f.
              if-Follows (char == b'o') (λ g. remove_lower-Follows)
                (λ g.
                  if-Follows (char == b'O') (λ h. remove_upper-Follows)
                    (λ h.
                      if-Follows (char == b'E') (λ k. dismiss-Follows) (λ k. (c, refl, refl))))))

-- As long as nobody is taken on up the hole where 50 are there and fewer than 50 in the hole, any sequence of
-- commands in a valid state stays within the arrays, and the arrays with their counts are two stacks of
-- tasks: 'i' and 'I' spawn a task on top, unless 50 are in the hole, 'o' and 'O' delete the top
-- one, if there is one, 'E' deletes all, those in the hole first and each stack from its bottom, and any
-- other key does nothing. The kernel is called for exactly these tasks, in that order.
pub crew_refines :
    (keys : List (ℕ × ℕ)) (c : Crew)
    → IsValid c
    → AllMayType keys (stacks c)
    → (d : Crew) × (run keys c ≡ some d) × (stacks d ≡ meant_all keys (stacks c)) × IsValid d
unfolding Option.bind
crew_refines [] c v may = (c, refl, refl, v)
crew_refines ((char, id) ∷ keys) c v (may, later) =
    let (d, e, shown) = command-Follows c v char id may in
    let (f, rest, means, still) =
      crew_refines keys d (command-IsValid char id c v e) (rw shown later) in
    (f, ap (λ o. Option.bind o (run keys)) e ∙ rest, means ∙ ap (meant_all keys) shown, still)
