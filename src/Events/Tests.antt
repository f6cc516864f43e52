-- ===== src/Events/Tests.antt =====
-- The theorems on the latency of interrupts at inputs that meet their hypotheses.
use mathlib.Core.Option
use ctu_real_time_systems_pr.Base.{List, [], arith, get_or, refl, replicate, some, ◌∷◌, ◌≡◌}
use ctu_real_time_systems_pr.Events.{Events, timer_isr, service, latency}
use ctu_real_time_systems_pr.Events.Histogram.{Event, tick, serve, run, run_isr}
use ctu_real_time_systems_pr.Events.Setup.{begin, measured_lem}

-- `CreateTasks` before its tasks.
abbrev begun : Events
begun = record {
  m_end = 0;
  m_time_isr_map = replicate 20 0;
  m_time_srv_map = replicate 20 0;
  isr_semaphore = 0;
}

abbrev some_events : List Event
some_events = tick 60 ∷ tick 70 ∷ serve 90 ∷ []

after_events : (e : Events) × (run some_events begun ≡ some e)
unfolding timer_isr service Option.bind
after_events = (_, refl)

measured_lem_example : get_or (run_isr (60 ∷ 70 ∷ 9000 ∷ []) (begin begun)).m_time_isr_map 2 0 ≡ 2
unfolding latency
measured_lem_example = measured_lem (60 ∷ 70 ∷ 9000 ∷ []) begun 2 refl (omega arith)
