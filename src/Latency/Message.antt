-- ===== src/Latency/Message.antt =====
-- The message of lab7_ethernet_communication_latency/latency_measurement.c.
use ctu_real_time_systems_pr.Base.{
  List, [], ap, arith, get_or, get_or-set, if◌then◌else◌, leb, length, length-set, ltb, refl, set,
  some, suc, take, zero, ℕ, ◌%◌, ◌&&◌, ◌+◌, ◌-◌, ◌<◌, ◌==◌, ◌∙◌, ◌∷◌, ◌≡◌, ◌≢◌, ◌≤◌,
}
use ctu_real_time_systems_pr.Latency.{fill_loop, fill, strlen, echo}

length-fill_loop : (n k i : ℕ) (buf : List ℕ) → length (fill_loop n k i buf) ≡ length buf
unfolding fill_loop
length-fill_loop n zero i buf = refl
length-fill_loop n (suc k) i buf =
    length-fill_loop n k (i + 1) (set (set buf i (b'0' + i % 10)) (n - 1) 0)
    ∙ length-set (set buf i (b'0' + i % 10)) (n - 1) 0
    ∙ length-set buf i (b'0' + i % 10)

get_or-fill_loop :
    (n k i : ℕ) (buf : List ℕ) (j : ℕ)
    → n ≤ length buf
    → i + k ≤ n
    → 0 < k
    → get_or (fill_loop n k i buf) j 0 ≡ (
        if j == n - 1
        then 0
        else (if leb i j && ltb j (i + k) then b'0' + j % 10 else get_or buf j 0))
unfolding fill_loop
get_or-fill_loop n zero i buf j h e p = elim p [ ]
get_or-fill_loop n (suc zero) i buf j h e p = ground (
  arith,
  get_or-set (set buf i (b'0' + i % 10)) (n - 1) j 0 0,
  length-set buf i (b'0' + i % 10),
  get_or-set buf i j (b'0' + i % 10) 0,
)
get_or-fill_loop n (suc (suc k)) i buf j h e p = ground (
  arith,
  get_or-fill_loop n (suc k) (i + 1) (set (set buf i (b'0' + i % 10)) (n - 1) 0) j,
  length-set (set buf i (b'0' + i % 10)) (n - 1) 0,
  get_or-set (set buf i (b'0' + i % 10)) (n - 1) j 0 0,
  length-set buf i (b'0' + i % 10),
  get_or-set buf i j (b'0' + i % 10) 0,
)

-- The length of a text whose first NUL stands at `n`.
strlen_lem :
    (buf : List ℕ) (n : ℕ)
    → n < length buf
    → get_or buf n 0 ≡ 0
    → ((j : ℕ) → j < n → get_or buf j 0 ≢ 0)
    → strlen buf ≡ some n
unfolding strlen
strlen_lem [] n h z f = elim h [ ]
strlen_lem (c ∷ cs) zero h z f = rw z
strlen_lem (c ∷ cs) (suc n) h z f =
    let next : n + 1 ≡ suc n = omega arith in
    ground (arith, next, f 0, strlen_lem cs n (omega arith) z (λ j q. f (suc j) (omega arith)))

-- A payload that is not empty and fits into the buffer is a text that ends in its last byte: the
-- listener, which measures it by strlen, sends back exactly its bytes, whatever was in the buffer.
pub echo-fill :
    (payload_size : ℕ) (buf : List ℕ)
    → 0 < payload_size
    → payload_size ≤ length buf
    → echo (fill payload_size buf) ≡ some (take payload_size (fill payload_size buf))
unfolding fill echo
echo-fill n buf p h =
    rw
      (strlen_lem (fill_loop n n 0 buf) (n - 1) (rw length-fill_loop (omega arith))
        (last (n - 1) refl) digits)
      (ap (λ k. some (take k (fill_loop n n 0 buf))) (omega arith))
  where
    last : (j : ℕ) → j ≡ n - 1 → get_or (fill_loop n n 0 buf) j 0 ≡ 0
    last j e = ground (arith, get_or-fill_loop n n 0 buf j)

    digits : (j : ℕ) → j < n - 1 → get_or (fill_loop n n 0 buf) j 0 ≢ 0
    digits j q e = ground (arith, get_or-fill_loop n n 0 buf j)
