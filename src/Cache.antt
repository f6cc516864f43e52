-- ===== src/Cache.antt =====
-- The measurement of the cache, lab5_cache_memory_influences/main.c with config.h there. A pointer into
-- the array is the index of its element, and the array is the list of the `next` pointers.
pub mod Cycle
pub mod Shuffle
mod Tests
pub mod Link
pub mod Measure
pub mod Printing
use mathlib.Core.Option
use Prim.Native.Nat.{bit_xor}
use ctu_real_time_systems_pr.Base.{
  List, Option, [], get_or, if◌then◌else◌, leb, map, max, none, set, some, sub_u32, suc, zero, ℕ,
  ◌%◌, ◌*◌, ◌+◌, ◌-◌, ◌/◌, ◌^◌, ◌∷◌,
}

-- 4 * 1024 * 1024 / sizeof(struct elem), where a pointer has 4 bytes and GAP is 0.
abbrev pub elem_size : ℕ
elem_size = 4

abbrev pub max_array_len : ℕ
max_array_len = 4 * 1024 * 1024 / elem_size

-- `longrand`, of two results of rand(), which are below 32768.
pub longrand : ℕ → ℕ → ℕ → ℕ
longrand r1 r2 max = bit_xor r1 (r2 * 2 ^ 15) % max

-- The loop of `seqArray`, with the rounds left and the index.
seq_loop : ℕ → ℕ → List ℕ → List ℕ
seq_loop zero i array = array
seq_loop (suc k) i array = seq_loop k (i + 1) (set array i (i + 1))

-- `seqArray`, for n at least 1.
pub seq_array : List ℕ → ℕ → List ℕ
unfolding seq_loop
seq_array array n = set (seq_loop (n - 1) 0 array) (n - 1) 0

-- The loops of `ranArray`: the indices in order, ...
index_loop : ℕ → ℕ → List ℕ → List ℕ
index_loop zero i r = r
index_loop (suc k) i r = index_loop k (i + 1) (set r i i)

-- ... each exchanged with one at random, ...
pub exchange : List ℕ → ℕ → ℕ → List ℕ
exchange r i idx = let tmp = get_or r i 0 in let r' = set r i (get_or r idx 0) in set r' idx tmp

pub shuffle_loop : (ℕ → ℕ × ℕ) → ℕ → ℕ → ℕ → List ℕ → List ℕ
unfolding exchange longrand
shuffle_loop rand n zero i r = r
shuffle_loop rand n (suc k) i r =
    shuffle_loop rand n k (i + 1) (exchange r i (longrand (rand i).0 (rand i).1 n))

-- ... and the elements linked in the order of the indices.
pub link_loop : List ℕ → ℕ → ℕ → List ℕ → List ℕ
link_loop r zero i array = array
link_loop r (suc k) i array = link_loop r k (i + 1) (set array (get_or r i 0) (get_or r (i + 1) 0))

-- random_indexes after the second loop, from what it was; `rand i` are the two random numbers of
-- the i-th round.
pub random_indexes : (ℕ → ℕ × ℕ) → ℕ → List ℕ → List ℕ
unfolding index_loop shuffle_loop
random_indexes rand n r = shuffle_loop rand n n 0 (index_loop n 0 r)

-- The last loop of `ranArray` and the closing of the cycle, for n at least 1.
pub link : List ℕ → List ℕ → ℕ → List ℕ
unfolding link_loop
link array r n = set (link_loop r (n - 1) 0 array) (get_or r (n - 1) 0) (get_or r 0 0)

-- `ranArray`
pub ran_array : (ℕ → ℕ × ℕ) → List ℕ → List ℕ → ℕ → List ℕ
unfolding link random_indexes
ran_array rand r array n = link array (random_indexes rand n r) n

-- p = p->next, k times
abbrev pub follow : List ℕ → ℕ → ℕ → ℕ
follow array zero p = p
follow array (suc k) p = follow array k (get_or array p 0)

-- The loop of `measurement`: from `counter`, the pointer when it ends. From 0 it does not end by
-- its test before the counter has wrapped, which is no state of this model.
pub measure_loop : List ℕ → ℕ → ℕ → Option ℕ
measure_loop array zero p = none
measure_loop array (suc zero) p = some p
measure_loop array (suc (suc k)) p = measure_loop array (suc k) (get_or array p 0)

-- `measurement`: the pointer, and the time for each jump, between two values of the counter of
-- 32 bits.
pub measurement : List ℕ → ℕ → ℕ → ℕ → Option (ℕ × ℕ)
unfolding measure_loop
measurement array jumps start end =
    Option.map (λ p. (p, sub_u32 end start / jumps)) (measure_loop array jumps 0)

-- The sizes of the loop of `measureCache`, on fuel.
pub sizes : ℕ → ℕ → List ℕ
sizes zero i = []
sizes (suc fuel) i = let rest = sizes fuel (i * 2) in if leb i max_array_len then i ∷ rest else []
