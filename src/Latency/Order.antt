-- ===== src/Latency/Order.antt =====
-- The report of lab7_ethernet_communication_latency/latency_measurement.c does not show in which order the
-- delays were measured.
use mathlib.Core.Quot
use mathlib.Core.Quot.{Quot}
use ctu_real_time_systems_pr.Base.{
  List, [], ap, arith, get_or, get_or-replicate, inl, inr, length, refl, suc, sym, take, true, u32,
  ℕ, ◌+◌, ◌<◌, ◌∙◌, ◌∷◌, ◌≡◌, ◌≤◌, ◌⊎◌,
}
use ctu_real_time_systems_pr.Latency.{Sender, count_delay, elapsed_us, idle, max_delay_size, run}
use ctu_real_time_systems_pr.Latency.Delays.{IsValid, hits, idle-IsValid, run_lem}
use ctu_real_time_systems_pr.Latency.Report.{after_guards, send_from, send_loop, send_session}
use ctu_real_time_systems_pr.Latency.Session.{Answers, open_session}

-- Rounds that took each delay that the histogram can hold equally often, whatever their order.
abbrev pub SameDelays : ℕ → List (ℕ × ℕ) → List (ℕ × ℕ) → Type 0
SameDelays freq rounds others =
    (t : ℕ) → t < max_delay_size → hits freq t rounds ≡ hits freq t others

-- The rounds without their order.
abbrev pub Bag : ℕ → Type 0
Bag freq = Quot (SameDelays freq)

-- What the greatest delay is after some rounds.
record IsGreatest (freq : ℕ) (rounds : List (ℕ × ℕ)) (s : Sender) (m : ℕ) : Type 0 where
  not_less : s.max_delay ≤ m
  above_all : (t : ℕ) → t < max_delay_size → 0 < hits freq t rounds → t ≤ m
  found : (m ≡ s.max_delay) ⊎ (0 < hits freq m rounds)

greatest_step :
    (t : ℕ) (s : Sender)
    → (s.max_delay ≤ (count_delay t s).max_delay)
      × (t < max_delay_size → t ≤ (count_delay t s).max_delay)
      × (((count_delay t s).max_delay ≡ s.max_delay) ⊎ ((count_delay t s).max_delay ≡ t))
unfolding count_delay
greatest_step t s = ground arith

run-IsGreatest :
    (freq : ℕ) (rounds : List (ℕ × ℕ)) (s : Sender)
    → IsGreatest freq rounds s (run freq rounds s).max_delay
run-IsGreatest freq [] s = record {
  not_less = omega arith;
  above_all = λ t h k. absurd (omega arith);
  found = inl refl;
}
run-IsGreatest freq ((start, end) ∷ rounds) s =
    let t = elapsed_us freq start end in
    let (less, own, from) = greatest_step t s in
    let later = run-IsGreatest freq rounds (count_delay t s) in
    record {
      not_less = omega (arith, later.not_less, less);
      above_all = λ k h some_hit. ground (arith, later.above_all k h, later.not_less, own);
      found = ground (arith, later.found, from);
    }

list_ext :
    (xs ys : List ℕ)
    → length xs ≡ length ys
    → ((k : ℕ) → k < length xs → get_or xs k 0 ≡ get_or ys k 0)
    → xs ≡ ys
list_ext [] [] e h = refl
list_ext [] (y ∷ ys) e h = absurd (omega (arith, e))
list_ext (x ∷ xs) [] e h = absurd (omega (arith, e))
list_ext (x ∷ xs) (y ∷ ys) e h =
    let head : x ≡ y = h 0 (omega arith) in
    let tail : xs ≡ ys = list_ext xs ys (omega (arith, e)) (λ k lt. h (suc k) (omega arith)) in
    ap (λ z. z ∷ xs) head ∙ ap (λ zs. y ∷ zs) tail

-- What is known of the histogram after some rounds.
idle-run :
    (freq : ℕ) (rounds : List (ℕ × ℕ))
    → IsValid (run freq rounds idle)
      × ((t : ℕ)
          → t < max_delay_size
          → get_or (run freq rounds idle).delays t 0 ≡ u32 (hits freq t rounds))
idle-run freq rounds = (
  (counted 0 (omega arith)).0,
  λ t lt. (counted t lt).1 ∙ omega (arith, get_or-replicate {A = ℕ} max_delay_size t 0),
)
  where
    counted :
        (t : ℕ)
        → t < max_delay_size
        → IsValid (run freq rounds idle)
          × (get_or (run freq rounds idle).delays t 0
              ≡ u32 (get_or idle.delays t 0 + hits freq t rounds))
    counted t lt =
        run_lem freq rounds idle t idle-IsValid lt
          (omega (arith, get_or-replicate {A = ℕ} max_delay_size t 0))

-- The greatest delay of as many equal delays is not greater.
greatest_le :
    (freq : ℕ) (rounds others : List (ℕ × ℕ))
    → SameDelays freq rounds others
    → (run freq rounds idle).max_delay ≤ (run freq others idle).max_delay
greatest_le freq rounds others same =
    let m = (run freq rounds idle).max_delay in
    let lt : m < max_delay_size = (idle-run freq rounds).0.greatest in
    elim (run-IsGreatest freq rounds idle).found [
      | inl none_found ↦ omega (arith, none_found)
      | inr hit ↦ (run-IsGreatest freq others idle).above_all m lt (omega (arith, hit, same m lt))
    ]

run_same :
    (freq : ℕ) (rounds others : List (ℕ × ℕ))
    → SameDelays freq rounds others
    → run freq rounds idle ≡ run freq others idle
run_same freq rounds others same =
    ap (λ ds. record { delays = ds; max_delay = s.max_delay }) delays_same
    ∙ ap (λ m. record { delays = u.delays; max_delay = m }) max_same
  where
    s : Sender
    s = run freq rounds idle

    u : Sender
    u = run freq others idle

    max_same : s.max_delay ≡ u.max_delay
    max_same = omega (
      arith,
      greatest_le freq rounds others same,
      greatest_le freq others rounds (λ t lt. sym (same t lt)),
    )

    delays_same : s.delays ≡ u.delays
    delays_same =
        list_ext s.delays u.delays
          ((idle-run freq rounds).0.size ∙ sym (idle-run freq others).0.size)
          (λ k lt.
            let inside : k < max_delay_size = omega (arith, lt, (idle-run freq rounds).0.size) in
            (idle-run freq rounds).1 k inside
            ∙ ap u32 (same k inside)
            ∙ sym ((idle-run freq others).1 k inside))

-- The histogram is a function of the bag.
sender_set : IsSet Sender
sender_set = hlevel

pub histogram : (freq : ℕ) → Bag freq → Sender
histogram freq = Quot.lift sender_set (λ rounds. run freq rounds idle) (run_same freq)

take_all : {A : Type 0} (xs : List A) → take (length xs) xs ≡ xs
take_all [] = refl
take_all (x ∷ xs) = ap (λ ys. x ∷ ys) (take_all xs)

-- What a sender prints is a function of the delays that it measured, as a bag: two sessions of the same
-- number of messages that agree in how often they measured each delay that the histogram can hold, in
-- whatever order, end alike and print the same.
pub session_same :
    (k : Answers) (payload_size freq : ℕ) (rounds others : List (ℕ × ℕ))
    → 0 < length rounds
    → length rounds ≡ length others
    → Path (Bag freq) (Quot.mk rounds) (Quot.mk others)
    → send_session k payload_size (length rounds) freq rounds
      ≡ send_session k payload_size (length others) freq others
unfolding send_session histogram
session_same k payload_size freq rounds others p e bag =
    ap (λ r. after_guards (open_session k payload_size) r)
      (ends rounds p
        ∙ ap (λ b. (histogram freq b, true)) bag
        ∙ sym (ends others (omega (arith, e))))
  where
    ends :
        (rs : List (ℕ × ℕ))
        → 0 < length rs
        → send_loop 0 (length rs) freq rs idle ≡ (run freq rs idle, true)
    ends rs h =
        send_from (length rs) 0 (length rs) freq rs idle h (omega arith) (omega arith)
        ∙ ap (λ l. (run freq l idle, true)) (take_all rs)
