-- ===== src/Cache/Shuffle.antt =====
-- The random indices of `ranArray` in lab5_cache_memory_influences/main.c are a permutation.
use ctu_real_time_systems_pr.Base.{
  List, ap, arith, get_or, get_or-set, if◌then◌else◌, leb, length, length-set, ltb, refl, set, suc,
  sym, zero, ℕ, ◌&&◌, ◌+◌, ◌<◌, ◌==◌, ◌∙◌, ◌≡◌, ◌≤◌,
}
use native.Mathlib.Nat.{mod-lt}
use ctu_real_time_systems_pr.Cache.{exchange, longrand, shuffle_loop, index_loop, random_indexes}

-- The first `n` entries are the numbers below `n`, each once.
pub record IsPermutation (n : ℕ) (r : List ℕ) : Type 0 where
  pub room : n ≤ length r
  pub small : (i : ℕ) → i < n → get_or r i 0 < n
  pub once : (i j : ℕ) → i < n → j < n → get_or r i 0 ≡ get_or r j 0 → i ≡ j
  pub all : (v : ℕ) → v < n → (i : ℕ) × (i < n) × (get_or r i 0 ≡ v)

get_or-exchange :
    (r : List ℕ) (i idx j : ℕ)
    → i < length r
    → idx < length r
    → get_or (exchange r i idx) j 0
      ≡ (if j == idx then get_or r i 0 else (if j == i then get_or r idx 0 else get_or r j 0))
unfolding exchange
get_or-exchange r i idx j h k =
    get_or-set (set r i (get_or r idx 0)) idx j (get_or r i 0) 0 (rw length-set k)
    ∙ ap (λ x. if j == idx then get_or r i 0 else x) (get_or-set r i j (get_or r idx 0) 0 h)

-- The place where an entry stands after an exchange.
abbrev swapped : ℕ → ℕ → ℕ → ℕ
swapped i idx j = if j == idx then i else (if j == i then idx else j)

get_or-swapped :
    (r : List ℕ) (i idx j : ℕ)
    → i < length r
    → idx < length r
    → get_or (exchange r i idx) j 0 ≡ get_or r (swapped i idx j) 0
get_or-swapped r i idx j h k = ground (arith, get_or-exchange r i idx j h k)

length-exchange : (r : List ℕ) (i idx : ℕ) → length (exchange r i idx) ≡ length r
unfolding exchange
length-exchange r i idx =
    length-set (set r i (get_or r idx 0)) idx (get_or r i 0) ∙ length-set r i (get_or r idx 0)

swapped-lt : (n i idx j : ℕ) → i < n → idx < n → j < n → swapped i idx j < n
swapped-lt n i idx j a b c = ground arith

swapped_twice : (i idx j : ℕ) → swapped i idx (swapped i idx j) ≡ j
swapped_twice i idx j = ground arith

swapped_injective : (i idx j k : ℕ) → swapped i idx j ≡ swapped i idx k → j ≡ k
swapped_injective i idx j k e = ground arith

-- An exchange of two of the first `n` entries keeps the permutation.
exchange-IsPermutation :
    (n : ℕ) (r : List ℕ) (i idx : ℕ)
    → i < n
    → idx < n
    → IsPermutation n r
    → IsPermutation n (exchange r i idx)
exchange-IsPermutation n r i idx hi hx p = record {
  room = rw (length-exchange r i idx) p.room;
  small = λ j h. rw (moved j) (p.small (swapped i idx j) (swapped-lt n i idx j hi hx h));
  once = λ j k hj hk e. swapped_injective i idx j k (
      p.once (swapped i idx j) (swapped i idx k) (swapped-lt n i idx j hi hx hj)
        (swapped-lt n i idx k hi hx hk) (sym (moved j) ∙ e ∙ moved k));
  all = λ v h.
      let (j, lt, e) = p.all v h in
      (
        swapped i idx j,
        swapped-lt n i idx j hi hx lt,
        moved (swapped i idx j) ∙ rw swapped_twice e,
      );
}
  where
    moved : (j : ℕ) → get_or (exchange r i idx) j 0 ≡ get_or r (swapped i idx j) 0
    moved j = get_or-swapped r i idx j (omega (arith, p.room)) (omega (arith, p.room))

longrand-lt : (a b n : ℕ) → 0 < n → longrand a b n < n
unfolding longrand
longrand-lt a b n h = mod-lt _ h

shuffle-IsPermutation :
    (rand : ℕ → ℕ × ℕ) (n k i : ℕ) (r : List ℕ)
    → i + k ≤ n
    → IsPermutation n r
    → IsPermutation n (shuffle_loop rand n k i r)
unfolding shuffle_loop
shuffle-IsPermutation rand n zero i r h p = p
shuffle-IsPermutation rand n (suc k) i r h p =
    shuffle-IsPermutation rand n k (i + 1) (exchange r i (longrand (rand i).0 (rand i).1 n))
      (omega arith)
      (exchange-IsPermutation n r i (longrand (rand i).0 (rand i).1 n) (omega arith)
        (longrand-lt _ _ n (omega arith)) p)

length-index_loop : (k i : ℕ) (r : List ℕ) → length (index_loop k i r) ≡ length r
unfolding index_loop
length-index_loop zero i r = refl
length-index_loop (suc k) i r = length-index_loop k (i + 1) (set r i i) ∙ length-set r i i

get_or-index_loop :
    (k i : ℕ) (r : List ℕ) (j : ℕ)
    → i + k ≤ length r
    → get_or (index_loop k i r) j 0 ≡ (if leb i j && ltb j (i + k) then j else get_or r j 0)
unfolding index_loop
get_or-index_loop zero i r j h = ground arith
get_or-index_loop (suc k) i r j h =
    ground
      (arith, get_or-index_loop k (i + 1) (set r i i) j, length-set r i i, get_or-set r i j i 0)

index-IsPermutation : (n : ℕ) (r : List ℕ) → n ≤ length r → IsPermutation n (index_loop n 0 r)
index-IsPermutation n r h = record {
  room = rw length-index_loop h;
  small = λ i lt. rw (same i lt) lt;
  once = λ i j hi hj e. sym (same i hi) ∙ e ∙ same j hj;
  all = λ v lt. (v, lt, same v lt);
}
  where
    same : (i : ℕ) → i < n → get_or (index_loop n 0 r) i 0 ≡ i
    same i lt = ground (arith, get_or-index_loop n 0 r i)

-- Whatever the random numbers and whatever stood in the array, the first `n` random indices are
-- the numbers below `n`, each once.
pub random_indexes-IsPermutation :
    (rand : ℕ → ℕ × ℕ) (n : ℕ) (r : List ℕ)
    → n ≤ length r
    → IsPermutation n (random_indexes rand n r)
unfolding random_indexes
random_indexes-IsPermutation rand n r h =
    shuffle-IsPermutation rand n n 0 (index_loop n 0 r) (omega arith) (index-IsPermutation n r h)
