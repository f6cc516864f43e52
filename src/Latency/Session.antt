-- ===== src/Latency/Session.antt =====
-- The rest of `udp_latency`: its guards, and the loop of its listener.
use ctu_real_time_systems_pr.Base.{
  Bool, List, Option, [], arith, false, if◌then◌else◌, length, ltb, none, not, refl, some, suc,
  take, true, zero, ℕ, ◌+◌, ◌<◌, ◌==◌, ◌||◌, ◌∷◌, ◌≡◌, ◌≤◌,
}
use ctu_real_time_systems_pr.Latency.{echo, max_buf, fill}
use ctu_real_time_systems_pr.Latency.Message.{echo-fill}

-- What the calls of the kernel answer.
pub record Answers : Type 0 where
  pub timestamp_fails : Bool
  pub socket_fails : Bool
  pub bind_fails : Bool

pub data Opened : Type 0 where
  exited : ℕ → Opened
  returned ready : Opened

-- The part of `udp_latency` before the loops.
unfoldable pub open_session : Answers → ℕ → Opened
open_session k payload_size =
    if ltb max_buf payload_size
    then exited 3
    else (if k.timestamp_fails
        then returned
        else (if k.socket_fails then exited 1 else (if k.bind_fails then exited 2 else ready)))

-- What the listener has sent, and whether its loop has ended; if not, it waits for a message.
pub record Listener : Type 0 where
  pub sent : List (Option (List ℕ))
  pub ended : Bool

-- The test of the loop, for the value of `i` before ++.
unfoldable pub goes_on : ℕ → ℕ → Bool
goes_on i messages_count = not (i == messages_count) || messages_count == 0

-- One answer of recvfrom: the buffer after it, or none for an error, after which nothing is sent.
pub answer : Option (List ℕ) → List (Option (List ℕ)) → List (Option (List ℕ))
answer none sent = sent
answer (some buf) sent = echo buf ∷ sent

-- The loop of the listener, over the answers of recvfrom.
pub listen_loop : ℕ → ℕ → List (Option (List ℕ)) → Listener
unfolding goes_on answer
listen_loop i messages_count [] = record { sent = []; ended = not (goes_on i messages_count) }
listen_loop i messages_count (r ∷ rs) =
    let rest = listen_loop (i + 1) messages_count rs in
    if goes_on i messages_count
    then record { sent = answer r rest.sent; ended = rest.ended }
    else record { sent = []; ended = true }

-- The answers to some messages.
abbrev pub answers : List (Option (List ℕ)) → List (Option (List ℕ))
answers [] = []
answers (none ∷ rs) = answers rs
answers (some buf ∷ rs) = echo buf ∷ answers rs

answer-answers :
    (r : Option (List ℕ)) (rs : List (Option (List ℕ))) → answer r (answers rs) ≡ answers (r ∷ rs)
unfolding answer
answer-answers none rs = refl
answer-answers (some buf) rs = refl

pub goes_on_before : (i k n : ℕ) → i + suc k ≡ n → goes_on i n ≡ true
unfolding goes_on
goes_on_before i k n e = ground arith

pub goes_on_at : (i n : ℕ) → 0 < n → i + 0 ≡ n → goes_on i n ≡ false
unfolding goes_on
goes_on_at i n p e = ground arith

listen_from :
    (k i n : ℕ) (rs : List (Option (List ℕ)))
    → 0 < n
    → i + k ≡ n
    → k ≤ length rs
    → listen_loop i n rs ≡ record { sent = answers (take k rs); ended = true }
unfolding listen_loop
listen_from zero i n [] p e h = rw (goes_on_at i n p e)
listen_from zero i n (r ∷ rs) p e h = rw (goes_on_at i n p e)
listen_from (suc k) i n [] p e h = absurd (omega arith)
listen_from (suc k) i n (r ∷ rs) p e h =
    let ih = listen_from k (i + 1) n rs p (omega arith) (omega arith) in
    rw (goes_on_before i k n e, ih, answer-answers r (take k rs))

-- For a number of messages above 0 the listener ends after so many answers of recvfrom, failed ones included, and
-- has sent back the messages among them, and no other.
listen_lem :
    (n : ℕ) (rs : List (Option (List ℕ)))
    → 0 < n
    → n ≤ length rs
    → listen_loop 0 n rs ≡ record { sent = answers (take n rs); ended = true }
listen_lem n rs p h = listen_from n 0 n rs p (omega arith) h

-- Without a number of messages it never ends.
pub listen_endless : (i : ℕ) (rs : List (Option (List ℕ))) → (listen_loop i 0 rs).ended ≡ false
unfolding listen_loop goes_on
listen_endless i [] = ground arith
listen_endless i (r ∷ rs) = ground (arith, listen_endless (i + 1) rs)

-- A session that starts has a payload that fits into the buffer, so that its message comes back whole.
pub open_session-echo :
    (k : Answers) (payload_size : ℕ) (buf : List ℕ)
    → open_session k payload_size ≡ ready
    → 0 < payload_size
    → length buf ≡ max_buf
    → echo (fill payload_size buf) ≡ some (take payload_size (fill payload_size buf))
unfolding open_session
open_session-echo k payload_size buf e p h =
    echo-fill payload_size buf p (omega (arith, fits k payload_size e))
  where
    fits : (k : Answers) (n : ℕ) → open_session k n ≡ ready → n ≤ max_buf
    fits k n e = ground arith
