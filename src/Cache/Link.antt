-- ===== src/Cache/Link.antt =====
-- `ranArray` of lab5_cache_memory_influences/main.c: a cycle in a random order.
use ctu_real_time_systems_pr.Base.{
  List, arith, get_or, get_or-set, if◌then◌else◌, leb, length, length-set, ltb, refl, set, suc,
  zero, ℕ, ◌&&◌, ◌+◌, ◌-◌, ◌<◌, ◌==◌, ◌∙◌, ◌≡◌, ◌≤◌,
}
use ctu_real_time_systems_pr.Cache.{link_loop, link, ran_array, random_indexes}
use ctu_real_time_systems_pr.Cache.Shuffle.{IsPermutation, random_indexes-IsPermutation}
use ctu_real_time_systems_pr.Cache.Cycle.{IsCycle, IsRound, cycle-IsRound, short_mod}

length-link_loop :
    (r : List ℕ) (k i : ℕ) (array : List ℕ) → length (link_loop r k i array) ≡ length array
unfolding link_loop
length-link_loop r zero i array = refl
length-link_loop r (suc k) i array =
    length-link_loop r k (i + 1) (set array (get_or r i 0) (get_or r (i + 1) 0))
    ∙ length-set array (get_or r i 0) (get_or r (i + 1) 0)

module _ (n : ℕ) (r : List ℕ) (p : IsPermutation n r) where
  -- A write to the element of one index shows at that index alone.
  get_or-set_entry :
      (array : List ℕ) (i j v : ℕ)
      → n ≤ length array
      → i < n
      → j < n
      → get_or (set array (get_or r i 0) v) (get_or r j 0) 0
        ≡ (if j == i then v else get_or array (get_or r j 0) 0)
  get_or-set_entry array i j v room hi hj = ground (
    arith,
    get_or-set array (get_or r i 0) (get_or r j 0) v 0 (omega (arith, p.small i hi)),
    p.once j i hj hi,
  )

  get_or-link_loop :
      (k i : ℕ) (array : List ℕ) (j : ℕ)
      → n ≤ length array
      → i + k < n
      → j < n
      → get_or (link_loop r k i array) (get_or r j 0) 0
        ≡ (if leb i j && ltb j (i + k) then get_or r (j + 1) 0 else get_or array (get_or r j 0) 0)
  unfolding link_loop
  get_or-link_loop zero i array j room h hj = ground arith
  get_or-link_loop (suc k) i array j room h hj = ground (
    arith,
    get_or-link_loop k (i + 1) (set array (get_or r i 0) (get_or r (i + 1) 0)) j,
    length-set array (get_or r i 0) (get_or r (i + 1) 0),
    get_or-set_entry array i j (get_or r (i + 1) 0),
  )

  -- Linking along a permutation gives a cycle in its order.
  pub link-IsCycle :
      (array : List ℕ) → n ≤ length array → IsCycle n (λ j. get_or r j 0) (link array r n)
  unfolding link
  link-IsCycle array room j h = ground (
    arith,
    get_or-set_entry (link_loop r (n - 1) 0 array) (n - 1) j (get_or r 0 0),
    length-link_loop r (n - 1) 0 array,
    get_or-link_loop (n - 1) 0 array j,
    short_mod (j + 1) n (omega arith),
  )

-- For `n` of at least 1 that fits into both arrays, `ranArray` links the first `n` elements
-- into one cycle, whatever the random numbers and whatever stood in the arrays: from the first
-- element every one is reached in fewer than `n` jumps, none twice, and `n` jumps lead back.
pub ran_array-IsRound :
    (rand : ℕ → ℕ × ℕ) (r array : List ℕ) (n : ℕ)
    → 0 < n
    → n ≤ length r
    → n ≤ length array
    → IsRound n (ran_array rand r array n)
unfolding ran_array
ran_array-IsRound rand r array n some_left room_r room =
    let p = random_indexes-IsPermutation rand n r room_r in
    let (a, ha, zeroth) = p.all 0 some_left in
    cycle-IsRound n (λ j. get_or (random_indexes rand n r) j 0) (ran_array rand r array n) a ha
      zeroth p.once p.all (link-IsCycle n (random_indexes rand n r) p array room)
