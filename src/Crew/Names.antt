-- ===== src/Crew/Names.antt =====
-- The names of the tasks of lab2_mutex_semaphore/task2.c and lab3_real_time_processes/company.c. What sprintf
-- prints for %d is a parameter.
use mathlib.Core.List.{reverse, reverse-cons, map}
use ctu_real_time_systems_pr.Base.{
  ==_iff, Bool, List, Option, [], ap, arith, false, if◌then◌else◌, length, length-append, ltb, map,
  none, refl, some, true, ℕ, ◌++◌, ◌+◌, ◌<◌, ◌==◌, ◌^◌, ◌∷◌, ◌≡◌, ◌≤◌,
}
use ctu_real_time_systems_pr.Crew.{
  Call, Crew, deleted, max_num_of_diggers, run, spawned_lower, spawned_upper,
}
use ctu_real_time_systems_pr.Crew.Laws.{IsValid}
use ctu_real_time_systems_pr.Crew.Stacks.{
  AllMayType, MayType, meant, meant_all, stacks, Stacks, pop_lower, pop_upper, is_full, newest,
}
use ctu_real_time_systems_pr.Crew.Stacks.Refine.{crew_refines}

-- The size of taskName.
abbrev pub name_size : ℕ
name_size = 11

-- sprintf into taskName; none for a write behind its end. The NUL takes one byte.
pub sprint_name : List ℕ → List ℕ → Option (List ℕ)
sprint_name prefix digits =
    if ltb (length (prefix ++ digits)) name_size then some (prefix ++ digits) else none

abbrev lower_prefix : List ℕ
lower_prefix = b't' ∷ b'W' ∷ b'o' ∷ b'r' ∷ b'k' ∷ b'e' ∷ b'r' ∷ b'L' ∷ []

abbrev upper_prefix : List ℕ
upper_prefix = b't' ∷ b'W' ∷ b'o' ∷ b'r' ∷ b'k' ∷ b'e' ∷ b'r' ∷ b'U' ∷ []

-- The names in `create_lower` and `create_upper`.
pub lower_name : (ℕ → List ℕ) → ℕ → Option (List ℕ)
unfolding sprint_name
lower_name decimal i = sprint_name lower_prefix (decimal i)

pub upper_name : (ℕ → List ℕ) → ℕ → Option (List ℕ)
unfolding sprint_name
upper_name decimal i = sprint_name upper_prefix (decimal i)

-- What %d is known to print: no more digits than a number has.
abbrev pub IsDecimal : (ℕ → List ℕ) → Type 0
IsDecimal decimal = (n k : ℕ) → 0 < k → n < 10 ^ k → length (decimal n) ≤ k

-- Every task that is spawned has a name that fits.
abbrev pub IsNamed : (ℕ → List ℕ) → Call → Type 0
IsNamed decimal (spawned_lower number task) =
    (name : List ℕ) × (lower_name decimal number ≡ some name)
IsNamed decimal (spawned_upper number task) =
    (name : List ℕ) × (upper_name decimal number ≡ some name)
IsNamed decimal (deleted task) = Unit {0}

abbrev pub AllNamed : (ℕ → List ℕ) → List Call → Type 0
AllNamed decimal [] = Unit {0}
AllNamed decimal (call ∷ calls) = IsNamed decimal call × AllNamed decimal calls

AllNamed-append :
    (decimal : ℕ → List ℕ) (xs ys : List Call)
    → AllNamed decimal xs
    → AllNamed decimal ys
    → AllNamed decimal (xs ++ ys)
AllNamed-append decimal [] ys h k = k
AllNamed-append decimal (x ∷ xs) ys h k = (h.0, AllNamed-append decimal xs ys h.1 k)

AllNamed-deleted :
    (decimal : ℕ → List ℕ) (ids : List ℕ) → AllNamed decimal (reverse (map deleted ids))
AllNamed-deleted decimal [] = tt
AllNamed-deleted decimal (id ∷ ids) = rw (reverse-cons (deleted id) (map deleted ids)) (
    AllNamed-append decimal (reverse (map deleted ids)) (deleted id ∷ [])
      (AllNamed-deleted decimal ids) (tt, tt))

name_fits :
    (prefix digits : List ℕ)
    → length prefix + length digits < name_size
    → (name : List ℕ) × (sprint_name prefix digits ≡ some name)
unfolding sprint_name
name_fits prefix digits h =
    let fits : ltb (length (prefix ++ digits)) name_size ≡ true =
      ground (arith, length-append prefix digits) in
    (prefix ++ digits, rw fits refl)

module _ (decimal : ℕ → List ℕ) (d : IsDecimal decimal) where
  lower_named :
      (n : ℕ) → n < max_num_of_diggers → (name : List ℕ) × (lower_name decimal n ≡ some name)
  unfolding lower_name
  lower_named n h =
      name_fits lower_prefix (decimal n) (omega (arith, d n 2 (omega arith) (omega arith)))

  upper_named :
      (n : ℕ) → n < max_num_of_diggers → (name : List ℕ) × (upper_name decimal n ≡ some name)
  unfolding upper_name
  upper_named n h =
      name_fits upper_prefix (decimal n) (omega (arith, d n 2 (omega arith) (omega arith)))

  pop_lower-AllNamed :
      (o : Option ℕ) (s : Stacks)
      → AllNamed decimal s.calls
      → AllNamed decimal (pop_lower o s).calls
  pop_lower-AllNamed none s h = h
  pop_lower-AllNamed (some id) s h = (tt, h)

  pop_upper-AllNamed :
      (o : Option ℕ) (s : Stacks)
      → AllNamed decimal s.calls
      → AllNamed decimal (pop_upper o s).calls
  pop_upper-AllNamed none s h = h
  pop_upper-AllNamed (some id) s h = (tt, h)

  named_if :
      (b : Bool) (s t : Stacks)
      → (b ≡ true → AllNamed decimal s.calls)
      → (b ≡ false → AllNamed decimal t.calls)
      → AllNamed decimal (if b then s else t).calls
  named_if true s t f g = f refl
  named_if false s t f g = g refl

  meant-AllNamed :
      (char id : ℕ) (s : Stacks)
      → MayType char s
      → AllNamed decimal s.calls
      → AllNamed decimal (meant char id s).calls
  meant-AllNamed char id s may h =
      named_if (char == b'i') _ _
        (λ e.
          named_if (is_full s) _ _ (λ full. h)
            (λ room. (lower_named (length s.lower) (ground arith), h)))
        (λ e.
          named_if (char == b'I') _ _
            (λ f.
              named_if (is_full s) _ _ (λ full. h)
                (λ room.
                  (upper_named (length s.upper) (ground (arith, may ((==_iff char b'I').0 f))), h)))
            (λ f.
              named_if (char == b'o') _ _ (λ g. pop_lower-AllNamed (newest s.lower) s h)
                (λ g.
                  named_if (char == b'O') _ _ (λ k. pop_upper-AllNamed (newest s.upper) s h)
                    (λ k.
                      named_if (char == b'E') _ _
                        (λ l.
                          AllNamed-append decimal (reverse (map deleted (s.lower ++ s.upper)))
                            s.calls (AllNamed-deleted decimal (s.lower ++ s.upper)) h)
                        (λ l. h)))))

  meant_all-AllNamed :
      (keys : List (ℕ × ℕ)) (s : Stacks)
      → AllMayType keys s
      → AllNamed decimal s.calls
      → AllNamed decimal (meant_all keys s).calls
  meant_all-AllNamed [] s may h = h
  meant_all-AllNamed ((char, id) ∷ keys) s (may, later) h =
      meant_all-AllNamed keys (meant char id s) later (meant-AllNamed char id s may h)

-- Where %d prints no more digits than a number has: in any sequence of commands in a valid state that
-- takes nobody on up the hole where 50 are there and fewer than 50 in the hole, every task that is spawned has
-- a name that fits into taskName with its NUL, if that held of the tasks before.
pub names_fit :
    (decimal : ℕ → List ℕ) (keys : List (ℕ × ℕ)) (c : Crew)
    → IsDecimal decimal
    → IsValid c
    → AllMayType keys (stacks c)
    → AllNamed decimal c.calls
    → (d : Crew) × (run keys c ≡ some d) × AllNamed decimal d.calls
names_fit decimal keys c dec v may h =
    let (d, e, means, still) = crew_refines keys c v may in
    (
      d,
      e,
      rw (ap (λ (s : Stacks). s.calls) means)
          (meant_all-AllNamed decimal dec keys (stacks c) may h),
    )
