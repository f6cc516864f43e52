-- ===== src/Cache/Cycle.antt =====
-- The linked arrays of lab5_cache_memory_influences/main.c: one cycle through all their elements.
use native.Mathlib.Nat.{mod-lt, mod-eq-sub-mod, mod-eq_of_lt, mod-add-mod, add-mod_right}
use ctu_real_time_systems_pr.Base.{
  List, ap, arith, dec_lt, get_or, get_or-set, if◌then◌else◌, leb, length, length-set, ltb, refl,
  set, suc, sym, zero, ℕ, ◌%◌, ◌&&◌, ◌+◌, ◌-◌, ◌<◌, ◌∙◌, ◌≡◌, ◌≤◌,
}
use ctu_real_time_systems_pr.Cache.{seq_loop, seq_array, follow}

-- The element `order j` is followed by the element `order (j + 1)`, and the last one by the first.
abbrev pub IsCycle : ℕ → (ℕ → ℕ) → List ℕ → Type 0
IsCycle n order array = (j : ℕ) → j < n → get_or array (order j) 0 ≡ order ((j + 1) % n)

follow-cycle :
    (n : ℕ) (order : ℕ → ℕ) (array : List ℕ)
    → 0 < n
    → IsCycle n order array
    → (k j : ℕ) → j < n
    → follow array k (order j) ≡ order ((j + k) % n)
follow-cycle n order array some_left c zero j h =
    let e : j + 0 ≡ j = omega arith in rw (e, mod-eq_of_lt h)
follow-cycle n order array some_left c (suc k) j h = rw (c j h) (
    follow-cycle n order array some_left c k ((j + 1) % n) (mod-lt (j + 1) some_left)
    ∙ ap order (mod-add-mod (j + 1) n k ∙ ap (λ x. x % n) (omega arith)))

-- The number of jumps from one place of the order to another.
jumps_between : (n a b : ℕ) → a < n → b < n → (k : ℕ) × (k < n) × ((a + k) % n ≡ b)
jumps_between n a b ha hb = elim (dec_lt b a) [
  | yes back ↦ (
    b + n - a,
    omega arith,
    let e : a + (b + n - a) ≡ b + n = omega arith in rw e (add-mod_right b n ∙ mod-eq_of_lt hb),
  )
  | no on ↦ (b - a, omega arith, let e : a + (b - a) ≡ b = omega arith in rw e (mod-eq_of_lt hb))
]

pub short_mod : (x n : ℕ) → x < n + n → x % n ≡ (if ltb x n then x else x - n)
short_mod x n h = elim (dec_lt x n) [
  | yes p ↦ ground (arith, mod-eq_of_lt p)
  | no p ↦ ground (
    arith,
    mod-eq-sub-mod {n = x} {m = n} (omega arith),
    mod-eq_of_lt {n = x - n} {m = n} (omega arith),
  )
]

-- Jumping round a cycle: every element comes, no element comes twice in `n` jumps, and after `n`
-- jumps the start is there again.
pub record IsRound (n : ℕ) (array : List ℕ) : Type 0 where
  pub closed : follow array n 0 ≡ 0
  pub reaches : (v : ℕ) → v < n → (k : ℕ) × (k < n) × (follow array k 0 ≡ v)
  pub once : (k l : ℕ) → k < n → l < n → follow array k 0 ≡ follow array l 0 → k ≡ l

pub cycle-IsRound :
    (n : ℕ) (order : ℕ → ℕ) (array : List ℕ) (a : ℕ)
    → a < n
    → order a ≡ 0
    → ((i j : ℕ) → i < n → j < n → order i ≡ order j → i ≡ j)
    → ((v : ℕ) → v < n → (i : ℕ) × (i < n) × (order i ≡ v))
    → IsCycle n order array
    → IsRound n array
cycle-IsRound n order array a ha zeroth once all c = record {
  closed = from n ∙ ap order (add-mod_right a n ∙ mod-eq_of_lt ha) ∙ zeroth;
  reaches = λ v h.
      let (i, lt, e) = all v h in
      let (k, few, there) = jumps_between n a i ha lt in (k, few, from k ∙ ap order there ∙ e);
  once = λ k l hk hl e. same k l hk hl (
      once ((a + k) % n) ((a + l) % n) (mod-lt (a + k) pos_n) (mod-lt (a + l) pos_n)
        (sym (from k) ∙ e ∙ from l));
}
  where
    pos_n : 0 < n
    pos_n = omega arith

    from : (k : ℕ) → follow array k 0 ≡ order ((a + k) % n)
    from k = rw zeroth at (follow-cycle n order array pos_n c k a ha)

    same : (k l : ℕ) → k < n → l < n → (a + k) % n ≡ (a + l) % n → k ≡ l
    same k l hk hl e =
        ground (arith, short_mod (a + k) n (omega arith), short_mod (a + l) n (omega arith))

-- `seqArray` links each of the first `n` elements to the next one, and the last to the first.
length-seq_loop : (k i : ℕ) (array : List ℕ) → length (seq_loop k i array) ≡ length array
unfolding seq_loop
length-seq_loop zero i array = refl
length-seq_loop (suc k) i array =
    length-seq_loop k (i + 1) (set array i (i + 1)) ∙ length-set array i (i + 1)

get_or-seq_loop :
    (k i : ℕ) (array : List ℕ) (j : ℕ)
    → i + k ≤ length array
    → get_or (seq_loop k i array) j 0
      ≡ (if leb i j && ltb j (i + k) then j + 1 else get_or array j 0)
unfolding seq_loop
get_or-seq_loop zero i array j h = ground arith
get_or-seq_loop (suc k) i array j h = ground (
  arith,
  get_or-seq_loop k (i + 1) (set array i (i + 1)) j,
  length-set array i (i + 1),
  get_or-set array i j (i + 1) 0,
)

seq_array-IsCycle :
    (array : List ℕ) (n : ℕ) → 0 < n → n ≤ length array → IsCycle n (λ j. j) (seq_array array n)
unfolding seq_array
seq_array-IsCycle array n some_left room j h = ground (
  arith,
  get_or-set (seq_loop (n - 1) 0 array) (n - 1) j 0 0,
  length-seq_loop (n - 1) 0 array,
  get_or-seq_loop (n - 1) 0 array j,
  short_mod (j + 1) n (omega arith),
)

-- For `n` of at least 1 that fits into the array, `seqArray` closes the first `n` elements to
-- one cycle in their order: `k` jumps from the first lead to the element `k` modulo `n`, so
-- that `n` jumps lead back to the first.
follow-seq_array :
    (array : List ℕ) (n k : ℕ) → 0 < n → n ≤ length array → follow (seq_array array n) k 0 ≡ k % n
follow-seq_array array n k some_left room =
    follow-cycle n (λ j. j) (seq_array array n) some_left (seq_array-IsCycle array n some_left room)
      k 0 some_left
    ∙ ap (λ x. x % n) (omega arith)
