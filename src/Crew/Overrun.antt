-- ===== src/Crew/Overrun.antt =====
-- The key 'I' of lab2_mutex_semaphore/task2.c and of lab3_real_time_processes/company.c beyond the end of its array.
use mathlib.Core.Option
use ctu_real_time_systems_pr.Base.{
  List, [], ap, arith, dec_lt, false, leb, length, ltb, none, refl, set, some, true, ℕ, ◌+◌, ◌<◌,
  ◌∙◌, ◌∷◌, ◌≡◌,
}
use ctu_real_time_systems_pr.Crew.{Crew, add_upper, command, max_num_of_diggers, run, spawned_upper}
use ctu_real_time_systems_pr.Crew.Laws.{IsValid, add_upper_overruns, command-IsValid}

-- The key 'I' again and again.
abbrev pub only_upper : List ℕ → List (ℕ × ℕ)
only_upper [] = []
only_upper (id ∷ ids) = (b'I', id) ∷ only_upper ids

one_more :
    (id : ℕ) (c : Crew)
    → IsValid c
    → c.l_diggers_count < max_num_of_diggers
    → c.u_diggers_count < max_num_of_diggers
    → (d : Crew) × (command b'I' id c ≡ some d)
      × (d.l_diggers_count ≡ c.l_diggers_count)
      × (d.u_diggers_count ≡ c.u_diggers_count + 1)
unfolding command add_upper
one_more id c v l u =
    let room : leb max_num_of_diggers c.l_diggers_count ≡ false = ground arith in
    let fits : ltb c.u_diggers_count (length c.u_diggers_ids) ≡ true = ground (arith, v.u_size) in
    (
      record c {
        u_diggers_ids = set c.u_diggers_ids c.u_diggers_count id;
        u_diggers_count = c.u_diggers_count + 1;
        calls = spawned_upper c.u_diggers_count id ∷ c.calls;
      },
      rw (room, fits) refl,
      refl,
      refl,
    )

-- From every valid state with fewer than 50 diggers in the hole, the key 'I' alone leads to a write behind
-- the end of the array of those up the hole, whatever ids the kernel gives: it is enough to type it
-- once more than there is room.
pub upper_overruns :
    (ids : List ℕ) (c : Crew)
    → IsValid c
    → c.l_diggers_count < max_num_of_diggers
    → max_num_of_diggers < c.u_diggers_count + length ids
    → run (only_upper ids) c ≡ none
unfolding Option.bind
upper_overruns [] c v l h = absurd (omega (arith, v.u_few))
upper_overruns (id ∷ ids) c v l h = elim (dec_lt c.u_diggers_count max_num_of_diggers) [
  | yes room ↦
      let (d, e, same, more) = one_more id c v l room in
      ap (λ o. Option.bind o (run (only_upper ids))) e
      ∙ upper_overruns ids d (command-IsValid b'I' id c v e) (omega (arith, same))
          (omega (arith, more))
  | no full ↦
      ap (λ o. Option.bind o (run (only_upper ids)))
        (add_upper_overruns id c v (omega (arith, v.u_few, full)) l)
]
