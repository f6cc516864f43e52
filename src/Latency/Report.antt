-- ===== src/Latency/Report.antt =====
-- The sender of lab7_ethernet_communication_latency/latency_measurement.c as a whole: its guards, its
-- loop, and the two lines that it prints.
use ctu_real_time_systems_pr.Base.{
  Bool, List, [], ap, arith, false, get_or, get_or-replicate, if◌then◌else◌, length, not, refl, suc,
  sym, take, true, u32, zero, ℕ, ◌*◌, ◌+◌, ◌-◌, ◌/◌, ◌<◌, ◌==◌, ◌^◌, ◌∙◌, ◌∷◌, ◌≡◌, ◌≤◌,
}
use ctu_real_time_systems_pr.Latency.{
  Sender, count_delay, elapsed_us, idle, printed, run, max_delay_size,
}
use ctu_real_time_systems_pr.Latency.Delays.{
  IsValid, elapsed_us_lem, hits, idle-IsValid, printed_lem, run_lem,
}
use ctu_real_time_systems_pr.Latency.Session.{
  Answers, Opened, goes_on, goes_on_at, goes_on_before, open_session, ready,
}

-- The loop of the sender, over the readings of its clock before the message and after its answer; and
-- whether it has ended.
pub send_loop : ℕ → ℕ → ℕ → List (ℕ × ℕ) → Sender → Sender × Bool
unfolding goes_on
send_loop i messages_count freq [] s = (s, not (goes_on i messages_count))
send_loop i messages_count freq ((start, end) ∷ rounds) s =
    if goes_on i messages_count
    then send_loop (i + 1) messages_count freq rounds (count_delay (elapsed_us freq start end) s)
    else (s, true)

-- The first line: 0, and then 1 up to max_delay.
print_axis : ℕ → ℕ → List ℕ
print_axis i zero = []
print_axis i (suc left) = i ∷ print_axis (i + 1) left

pub axis : Sender → List ℕ
unfolding print_axis
axis s = 0 ∷ print_axis 1 (s.max_delay + 1 - 1)

pub data Line : Type 0 where
  measurement_started measurement_finished : Line
  numbers : List ℕ → Line

-- What is printed after the guards: if the loop does not end, no more than that it has started.
pub print_report : Sender × Bool → List Line
print_report (s, false) = measurement_started ∷ []
print_report (s, true) =
    measurement_started ∷ numbers (axis s) ∷ numbers (printed s) ∷ measurement_finished ∷ []

-- How it ends, and what is printed: behind an exit of the guards there is no loop.
pub after_guards : Opened → Sender × Bool → Opened × List Line
unfolding print_report
after_guards ready r = (ready, print_report r)
after_guards o r = (o, [])

-- `udp_latency` with an address.
unfoldable pub send_session : Answers → ℕ → ℕ → ℕ → List (ℕ × ℕ) → Opened × List Line
unfolding after_guards
send_session k payload_size messages_count freq rounds =
    after_guards (open_session k payload_size) (send_loop 0 messages_count freq rounds idle)

pub send_from :
    (k i n freq : ℕ) (rounds : List (ℕ × ℕ)) (s : Sender)
    → 0 < n
    → i + k ≡ n
    → k ≤ length rounds
    → send_loop i n freq rounds s ≡ (run freq (take k rounds) s, true)
unfolding send_loop
send_from zero i n freq [] s p e h = rw (goes_on_at i n p e)
send_from zero i n freq (r ∷ rounds) s p e h = rw (goes_on_at i n p e)
send_from (suc k) i n freq [] s p e h = absurd (omega arith)
send_from (suc k) i n freq ((start, end) ∷ rounds) s p e h = rw (goes_on_before i k n e) (
    send_from k (i + 1) n freq rounds (count_delay (elapsed_us freq start end) s) p (omega arith)
      (omega arith))

print_axis_lem :
    (left i k : ℕ)
    → (length (print_axis i left) ≡ left) × (k < left → get_or (print_axis i left) k 0 ≡ i + k)
unfolding print_axis
print_axis_lem zero i k = (refl, λ h. absurd (omega arith))
print_axis_lem (suc left) i zero =
    (omega (arith, print_axis_lem left (i + 1) zero), λ h. omega arith)
print_axis_lem (suc left) i (suc k) = (
  omega (arith, print_axis_lem left (i + 1) k),
  λ h. ground (arith, print_axis_lem left (i + 1) k),
)

axis_lem :
    (s : Sender)
    → (length (axis s) ≡ s.max_delay + 1)
      × ((k : ℕ) → k < length (axis s) → get_or (axis s) k 0 ≡ k)
unfolding axis
axis_lem s = (omega (arith, size), at)
  where
    size : length (print_axis 1 (s.max_delay + 1 - 1)) ≡ s.max_delay + 1 - 1
    size = (print_axis_lem (s.max_delay + 1 - 1) 1 0).0

    at :
        (k : ℕ)
        → k < suc (length (print_axis 1 (s.max_delay + 1 - 1)))
        → get_or (0 ∷ print_axis 1 (s.max_delay + 1 - 1)) k 0 ≡ k
    at zero h = refl
    at (suc k) h = (print_axis_lem (s.max_delay + 1 - 1) 1 k).1 (omega (arith, size)) ∙ omega arith

-- The report, with the delays as the code computes them.
report_printed :
    (k : Answers) (payload_size n freq : ℕ) (rounds : List (ℕ × ℕ))
    → open_session k payload_size ≡ ready
    → 0 < n
    → n ≤ length rounds
    → (delays counts : List ℕ) × (send_session k payload_size n freq rounds ≡ (
      ready,
      measurement_started ∷ numbers delays ∷ numbers counts ∷ measurement_finished ∷ [],
    ))
      × (length delays ≡ length counts)
      × ((t : ℕ) → t < length delays → get_or delays t 0 ≡ t)
      × ((t : ℕ) → t < max_delay_size → get_or counts t 0 ≡ u32 (hits freq t (take n rounds)))
unfolding send_session after_guards print_report
report_printed k payload_size n freq rounds e p h = (
  axis s,
  printed s,
  shown,
  (axis_lem s).0 ∙ sym (printed_lem s 0 valid).0,
  (axis_lem s).1,
  λ t lt.
      (printed_lem s t valid).1
      ∙ (run_lem freq (take n rounds) idle t idle-IsValid lt (empty t)).1
      ∙ counted t,
)
  where
    s : Sender
    s = run freq (take n rounds) idle

    empty : (t : ℕ) → get_or idle.delays t 0 < 2 ^ 32
    empty t = omega (arith, get_or-replicate {A = ℕ} max_delay_size t 0)

    valid : IsValid s
    valid = (run_lem freq (take n rounds) idle 0 idle-IsValid (omega arith) (empty 0)).0

    counted :
        (t : ℕ)
        → u32 (get_or idle.delays t 0 + hits freq t (take n rounds))
          ≡ u32 (hits freq t (take n rounds))
    counted t = omega (arith, get_or-replicate {A = ℕ} max_delay_size t 0)

    shown : send_session k payload_size n freq rounds ≡ (
      ready,
      measurement_started ∷ numbers (axis s) ∷ numbers (printed s) ∷ measurement_finished ∷ [],
    )
    shown =
        ap (λ o. after_guards o (send_loop 0 n freq rounds idle)) e
        ∙ ap (after_guards ready) (send_from n 0 n freq rounds idle p (omega arith) h)

-- The readings of the clock before a message and after its answer that a number of ticks later came.
abbrev pub readings : List (ℕ × ℕ) → List (ℕ × ℕ)
readings [] = []
readings ((start, ticks) ∷ rounds) = (start, start + ticks) ∷ readings rounds

-- The 32-bit counter does not wrap during a round, and the microseconds of each round fit in 32 bits.
abbrev pub AreTimed : ℕ → List (ℕ × ℕ) → Type 0
AreTimed freq [] = Unit {0}
AreTimed freq ((start, ticks) ∷ rounds) =
    (start + ticks < 2 ^ 32) × (ticks * 1000000 / freq < 2 ^ 32) × AreTimed freq rounds

-- How many of the first `n` rounds took `t` whole microseconds, on a clock of `freq` ticks a second.
abbrev pub took : ℕ → ℕ → ℕ → List (ℕ × ℕ) → ℕ
took freq t zero rounds = 0
took freq t (suc n) [] = 0
took freq t (suc n) ((start, ticks) ∷ rounds) =
    (if ticks * 1000000 / freq == t then 1 else 0) + took freq t n rounds

hits-took :
    (freq t n : ℕ) (rounds : List (ℕ × ℕ))
    → AreTimed freq rounds
    → hits freq t (take n (readings rounds)) ≡ took freq t n rounds
hits-took freq t zero rounds h = refl
hits-took freq t (suc n) [] h = refl
hits-took freq t (suc n) ((start, ticks) ∷ rounds) (unwrapped, fits, later) =
    rw (elapsed_us_lem freq start ticks unwrapped fits, hits-took freq t n rounds later) refl

length-readings : (rounds : List (ℕ × ℕ)) → length (readings rounds) ≡ length rounds
length-readings [] = refl
length-readings ((start, ticks) ∷ rounds) = ap suc (length-readings rounds)

-- A sender whose guards pass and that is to send some messages, more than none, prints after so many
-- answers two lines of the same length between its first line and its last: the first shows the delays
-- in microseconds from 0 on, and the second below each of them how many of the messages took it, as a
-- number of 32 bits, by the ticks between a message and its answer; if the 32-bit counter wraps in no
-- round and the microseconds of each round fit in 32 bits. No delay that the histogram can hold is left
-- out: one that the lines do not reach was never measured.
pub report_lem :
    (k : Answers) (payload_size n freq : ℕ) (rounds : List (ℕ × ℕ))
    → open_session k payload_size ≡ ready
    → 0 < n
    → n ≤ length rounds
    → AreTimed freq rounds
    → (delays counts : List ℕ) × (send_session k payload_size n freq (readings rounds) ≡ (
      ready,
      measurement_started ∷ numbers delays ∷ numbers counts ∷ measurement_finished ∷ [],
    ))
      × (length delays ≡ length counts)
      × ((t : ℕ) → t < length delays → get_or delays t 0 ≡ t)
      × ((t : ℕ) → t < max_delay_size → get_or counts t 0 ≡ u32 (took freq t n rounds))
report_lem k payload_size n freq rounds e p h timed =
    let (delays, counts, printed, same, axis, bins) =
      report_printed k payload_size n freq (readings rounds) e p
        (omega (arith, h, length-readings rounds)) in
    (
      delays,
      counts,
      printed,
      same,
      axis,
      λ t lt. bins t lt ∙ ap u32 (hits-took freq t n rounds timed),
    )
