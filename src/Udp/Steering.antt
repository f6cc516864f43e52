-- ===== src/Udp/Steering.antt =====
-- Two boards, one steered by the other: `run_udp_srv` of semestral_project/src/server.c on both.
use mathlib.Core.List.{append_assoc}
use mathlib.Core.Option
use ctu_real_time_systems_pr.Base.{
  List, Option, Option-cases, [], ap, ap₂, arith, false, get_elem?, get_or, if◌then◌else◌, inl, inr,
  length, length-append, ltb, none, pos, refl, some, suc, sym, true, zero, ℕ, ℤ, ◌++◌, ◌+◌, ◌<◌,
  ◌∙◌, ◌∷◌, ◌≡◌,
}
use ctu_real_time_systems_pr.Motor.{Motor, motor_isr}
use ctu_real_time_systems_pr.Motor.Isr.{isr_target}
use ctu_real_time_systems_pr.Motor.Quadrature.{run_isr}
use ctu_real_time_systems_pr.Udp.{Receiver, receive, transmit}

-- What happens on the two boards and on the network between them: an interrupt of the transmitting or of
-- the receiving one, a message that is sent, the arrival of the message of that number, and a failed
-- recvfrom. The network may lose, delay, reorder and repeat messages.
pub data Event : Type 0 where
  turned_there turned_here : ℕ → ℕ → Event
  sent : Event
  arrived : ℕ → Event
  interrupted : Event

-- The boards, and the messages that were sent, in their order.
pub record Boards : Type 0 where
  pub there : Motor
  pub here : Receiver
  pub messages : List ℤ

-- recvfrom, with a message that is there.
unfoldable pub arrive : Option ℤ → Boards → Boards
arrive none w = w
arrive (some v) w = record w { here = receive (some v) w.here }

-- No message arrives before it is sent.
pub happen : Event → Boards → Boards
unfolding transmit
happen (turned_there a b) w = record w { there = motor_isr a b w.there }
happen (turned_here a b) w = record w {
  here = record (w.here) { motor = motor_isr a b w.here.motor };
}
happen sent w = record w { messages = w.messages ++ (transmit w.there ∷ []) }
happen (arrived i) w = arrive (get_elem? w.messages i) w
happen interrupted w = record w { here = receive none w.here }

abbrev pub run : List Event → Boards → Boards
run [] w = w
run (e ∷ es) w = run es (happen e w)

-- The number of the message that arrives last, after `k` messages were sent.
abbrev pub last_arrival : ℕ → List Event → Option ℕ
last_arrival k [] = none
last_arrival k (sent ∷ es) = last_arrival (k + 1) es
last_arrival k (arrived i ∷ es) =
    Option.or_else (last_arrival k es) (if ltb i k then some i else none)
last_arrival k (_ ∷ es) = last_arrival k es

-- The readings of the transmitting board before it sends the message of a number.
abbrev pub readings_before : ℕ → List Event → List (ℕ × ℕ)
readings_before i [] = []
readings_before i (turned_there a b ∷ es) = (a, b) ∷ readings_before i es
readings_before zero (sent ∷ es) = []
readings_before (suc i) (sent ∷ es) = readings_before i es
readings_before i (_ ∷ es) = readings_before i es

-- The target of the receiving board after some events, from the transmitting board before them.
abbrev pub target_after : Option ℕ → List Event → Motor → ℤ → ℤ
target_after none es m old = old
target_after (some i) es m old = (run_isr (readings_before i es) m).shared.position

-- The messages that are sent during some events.
sent_by : List Event → Motor → List ℤ
unfolding transmit
sent_by [] m = []
sent_by (turned_there a b ∷ es) m = sent_by es (motor_isr a b m)
sent_by (turned_here a b ∷ es) m = sent_by es m
sent_by (sent ∷ es) m = transmit m ∷ sent_by es m
sent_by (arrived i ∷ es) m = sent_by es m
sent_by (interrupted ∷ es) m = sent_by es m

target_of : Option ℕ → List ℤ → ℤ → ℤ
target_of none ms old = old
target_of (some i) ms old = get_or ms i (pos 0)

get_elem?-some :
    (ms later : List ℤ) (i : ℕ) (v : ℤ)
    → get_elem? ms i ≡ some v
    → (i < length ms) × (get_or (ms ++ later) i (pos 0) ≡ v)
get_elem?-some [] later i v e = cc
get_elem?-some (m ∷ ms) later zero v e = (omega arith, ground (arith, e))
get_elem?-some (m ∷ ms) later (suc i) v e =
    let (lt, got) = get_elem?-some ms later i v e in (omega (arith, lt), got)

get_elem?-none : (ms : List ℤ) (i : ℕ) → get_elem? ms i ≡ none → ltb i (length ms) ≡ false
get_elem?-none [] i e = ground arith
get_elem?-none (m ∷ ms) zero e = cc
get_elem?-none (m ∷ ms) (suc i) e = ground (arith, get_elem?-none ms i e)

-- An arrival is the last one, unless one comes later.
target_of-arrival :
    (o : Option ℕ) (ms later : List ℤ) (i : ℕ) (v old : ℤ)
    → get_elem? ms i ≡ some v
    → target_of o (ms ++ later) v
      ≡ target_of (Option.or_else o (if ltb i (length ms) then some i else none)) (ms ++ later) old
unfolding target_of Option.or_else
target_of-arrival (some j) ms later i v old e = refl
target_of-arrival none ms later i v old e =
    let (lt, got) = get_elem?-some ms later i v e in
    let there : ltb i (length ms) ≡ true = ground (arith, lt) in rw there (sym got)

or_else-none : {A : Type 0} (o : Option A) → Option.or_else o none ≡ o
unfolding Option.or_else
or_else-none none = refl
or_else-none (some x) = refl

after_arrival :
    (es : List Event) (w : Boards) (i : ℕ) (o : Option ℤ)
    → get_elem? w.messages i ≡ o
    → target_of
        (last_arrival (length (arrive o w).messages) es)
        ((arrive o w).messages ++ sent_by es (arrive o w).there)
        (arrive o w).here.motor.shared.desired_position
      ≡ target_of
          (last_arrival (length w.messages) (arrived i ∷ es))
          (w.messages ++ sent_by es w.there)
          w.here.motor.shared.desired_position
unfolding arrive receive
after_arrival es w i none e =
    rw (get_elem?-none w.messages i e, or_else-none (last_arrival (length w.messages) es)) refl
after_arrival es w i (some v) e =
    target_of-arrival (last_arrival (length w.messages) es) w.messages (sent_by es w.there) i v
      w.here.motor.shared.desired_position e

-- The target is the message that arrived last.
run_target :
    (es : List Event) (w : Boards)
    → (run es w).here.motor.shared.desired_position
      ≡ target_of
          (last_arrival (length w.messages) es)
          (w.messages ++ sent_by es w.there)
          w.here.motor.shared.desired_position
unfolding happen receive transmit target_of sent_by
run_target [] w = refl
run_target (turned_there a b ∷ es) w = run_target es (happen (turned_there a b) w)
run_target (turned_here a b ∷ es) w =
    run_target es (happen (turned_here a b) w)
    ∙ ap (target_of (last_arrival (length w.messages) es) (w.messages ++ sent_by es w.there))
        (isr_target a b w.here.motor)
run_target (sent ∷ es) w =
    run_target es (happen sent w)
    ∙ ap₂ (λ k ms. target_of (last_arrival k es) ms w.here.motor.shared.desired_position)
        (length-append w.messages (transmit w.there ∷ []))
        (append_assoc w.messages (transmit w.there ∷ []) (sent_by es w.there))
run_target (arrived i ∷ es) w =
    run_target es (happen (arrived i) w) ∙ after_arrival es w i (get_elem? w.messages i) refl
run_target (interrupted ∷ es) w = run_target es (happen interrupted w)

-- The message of a number is where the board stood when it was sent.
sent_by-position :
    (es : List Event) (m : Motor) (i : ℕ)
    → i < length (sent_by es m)
    → get_or (sent_by es m) i (pos 0) ≡ (run_isr (readings_before i es) m).shared.position
unfolding sent_by transmit
sent_by-position [] m i h = absurd (omega arith)
sent_by-position (turned_there a b ∷ es) m i h = sent_by-position es (motor_isr a b m) i h
sent_by-position (turned_here a b ∷ es) m i h = sent_by-position es m i h
sent_by-position (sent ∷ es) m zero h = refl
sent_by-position (sent ∷ es) m (suc i) h = sent_by-position es m i (omega (arith, h))
sent_by-position (arrived j ∷ es) m i h = sent_by-position es m i h
sent_by-position (interrupted ∷ es) m i h = sent_by-position es m i h

-- What arrives was sent.
last_arrival-sent :
    (es : List Event) (m : Motor) (k i : ℕ)
    → last_arrival k es ≡ some i
    → i < k + length (sent_by es m)
unfolding sent_by Option.or_else
last_arrival-sent [] m k i e = cc
last_arrival-sent (turned_there a b ∷ es) m k i e = last_arrival-sent es (motor_isr a b m) k i e
last_arrival-sent (turned_here a b ∷ es) m k i e = last_arrival-sent es m k i e
last_arrival-sent (sent ∷ es) m k i e = omega (arith, last_arrival-sent es m (k + 1) i e)
last_arrival-sent (arrived j ∷ es) m k i e = elim (Option-cases (last_arrival k es)) [
  | inl n ↦ ground (arith, e, n)
  | inr (x, l) ↦ last_arrival-sent es m k i (ground (arith, e, l))
]
last_arrival-sent (interrupted ∷ es) m k i e = last_arrival-sent es m k i e

-- Since the call of sendto has the position and not the desired one, the receiving board steers to where
-- the transmitting one stood when it sent the message that arrived last, or, if none arrived, to its old
-- target; whatever else happens, from a start before any message: interrupts on both boards in any order,
-- also while messages are under way, messages that are lost, late, repeated or out of order, and failed
-- calls of recvfrom.
pub steered_lem :
    (es : List Event) (w : Boards)
    → w.messages ≡ []
    → (run es w).here.motor.shared.desired_position
      ≡ target_after (last_arrival 0 es) es w.there w.here.motor.shared.desired_position
unfolding target_of
steered_lem es w none_yet =
    run_target es w
    ∙ rw none_yet (elim (Option-cases (last_arrival 0 es)) [
      | inl e ↦ rw e refl
      | inr (i, e) ↦
          rw e (sent_by-position es w.there i (omega (arith, last_arrival-sent es w.there 0 i e)))
    ])
