-- ===== src/Latency/Tests.antt =====
-- The theorems on the latency of messages at inputs that meet their hypotheses.
use ctu_real_time_systems_pr.Base.{
  List, [], arith, false, get_or, length, refl, some, take, u32, ℕ, ◌<◌, ◌∷◌, ◌≡◌,
}
use ctu_real_time_systems_pr.Latency.{elapsed_us, fill, echo, max_delay_size}
use ctu_real_time_systems_pr.Latency.Report.{
  send_session, readings, took, report_lem, measurement_started, measurement_finished, numbers,
}
use mathlib.Core.Quot
use ctu_real_time_systems_pr.Latency.Order.{session_same}
use ctu_real_time_systems_pr.Latency.Session.{open_session, ready}
use ctu_real_time_systems_pr.Latency.Message.{echo-fill}

echo-fill_example : echo (fill 3 (9 ∷ 9 ∷ 9 ∷ 9 ∷ [])) ≡ some (take 3 (fill 3 (9 ∷ 9 ∷ 9 ∷ 9 ∷ [])))
echo-fill_example = echo-fill 3 (9 ∷ 9 ∷ 9 ∷ 9 ∷ []) (omega arith) (omega arith)

opens :
    open_session (record { timestamp_fails = false; socket_fails = false; bind_fails = false }) 16
    ≡ ready
unfolding open_session
opens = refl

-- Two messages took 7 microseconds, and a third one is not waited for.
report_lem_example :
    (delays counts : List ℕ) × (send_session
        (record { timestamp_fails = false; socket_fails = false; bind_fails = false })
        16
        2
        1000000
        (readings ((5, 7) ∷ (20, 7) ∷ (30, 1) ∷ []))
      ≡ (ready, measurement_started ∷ numbers delays ∷ numbers counts ∷ measurement_finished ∷ []))
    × (length delays ≡ length counts)
    × ((t : ℕ) → t < length delays → get_or delays t 0 ≡ t)
    × ((t : ℕ)
        → t < max_delay_size
        → get_or counts t 0 ≡ u32 (took 1000000 t 2 ((5, 7) ∷ (20, 7) ∷ (30, 1) ∷ [])))
report_lem_example =
    report_lem (record { timestamp_fails = false; socket_fails = false; bind_fails = false }) 16 2
      1000000 ((5, 7) ∷ (20, 7) ∷ (30, 1) ∷ []) opens (omega arith) (omega arith)
      (omega arith, omega arith, (omega arith, omega arith, (omega arith, omega arith, tt)))

-- The same two delays in the other order, on another clock.
session_same_example :
    send_session
      (record { timestamp_fails = false; socket_fails = false; bind_fails = false })
      16
      2
      1000000
      ((5, 12) ∷ (20, 29) ∷ [])
    ≡ send_session
        (record { timestamp_fails = false; socket_fails = false; bind_fails = false })
        16
        2
        1000000
        ((50, 59) ∷ (70, 77) ∷ [])
unfolding elapsed_us
session_same_example =
    session_same (record { timestamp_fails = false; socket_fails = false; bind_fails = false }) 16
      1000000 ((5, 12) ∷ (20, 29) ∷ []) ((50, 59) ∷ (70, 77) ∷ []) (omega arith) refl
      (Quot.sound (λ t lt. ground arith))
