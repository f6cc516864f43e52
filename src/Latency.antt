-- ===== src/Latency.antt =====
-- The latency of UDP messages, lab7_ethernet_communication_latency/latency_measurement.c: the message
-- of the sender, its histogram, and the message that the listener sends back.
pub mod Message
pub mod Session
mod Tests
pub mod Delays
pub mod Report
pub mod Order
use mathlib.Core.Option
use ctu_real_time_systems_pr.Base.{
  List, Option, [], get_or, if◌then◌else◌, ltb, map, none, replicate, set, some, suc, take, u32,
  u64, zero, ℕ, ◌%◌, ◌*◌, ◌+◌, ◌-◌, ◌/◌, ◌==◌, ◌^◌, ◌∷◌,
}

abbrev pub max_buf : ℕ
max_buf = 2048

abbrev pub max_delay_size : ℕ
max_delay_size = 10000

-- The loop that fills `buf`, with the rounds left and the index: a digit, and each time the NUL.
fill_loop : ℕ → ℕ → ℕ → List ℕ → List ℕ
fill_loop payload_size zero i buf = buf
fill_loop payload_size (suc k) i buf =
    fill_loop payload_size k (i + 1) (set (set buf i (b'0' + i % 10)) (payload_size - 1) 0)

pub fill : ℕ → List ℕ → List ℕ
unfolding fill_loop
fill payload_size buf = fill_loop payload_size payload_size 0 buf

-- strlen; none where there is no NUL.
pub strlen : List ℕ → Option ℕ
strlen [] = none
strlen (c ∷ cs) = let rest = Option.map (λ n. n + 1) (strlen cs) in if c == 0 then some 0 else rest

-- What the listener sends back of `buf`: strlen(buf) + 1 bytes.
pub echo : List ℕ → Option (List ℕ)
unfolding strlen
echo buf = Option.map (λ n. take (n + 1) buf) (strlen buf)

-- The globals and locals of the sender's loop.
pub record Sender : Type 0 where
  pub delays : List ℕ
  pub max_delay : ℕ

-- ((end - start) * 1000000) / sysTimestampFreq(), on 64 bits and then on 32
pub elapsed_us : ℕ → ℕ → ℕ → ℕ
elapsed_us freq start end = u32 (u64 ((end + 2 ^ 64 - start) % 2 ^ 64 * 1000000) / freq)

-- The end of a round of the sender: the histogram.
pub count_delay : ℕ → Sender → Sender
count_delay time_elapsed s =
    if ltb time_elapsed max_delay_size
    then record {
      max_delay = if ltb s.max_delay time_elapsed then time_elapsed else s.max_delay;
      delays = set s.delays time_elapsed (u32 (get_or s.delays time_elapsed 0 + 1));
    }
    else s

-- The rounds of the sender, each with the two readings of the counter.
abbrev pub run : ℕ → List (ℕ × ℕ) → Sender → Sender
run freq [] s = s
run freq ((start, end) ∷ rounds) s = run freq rounds (count_delay (elapsed_us freq start end) s)

-- The second line that the sender prints: delays[0], and then up to max_delay.
pub print_delays : ℕ → ℕ → List ℕ → List ℕ
print_delays i zero delays = []
print_delays i (suc left) delays = get_or delays i 0 ∷ print_delays (i + 1) left delays

pub printed : Sender → List ℕ
unfolding print_delays
printed s = get_or s.delays 0 0 ∷ print_delays 1 (s.max_delay + 1 - 1) s.delays

-- After memset
abbrev pub idle : Sender
idle = record { delays = replicate max_delay_size 0; max_delay = 0 }
