-- ===== src/Events.antt =====
-- The latency of interrupts, lab6_response_time_async_events/main.c with config.h there: two histograms
-- that the interrupt handler and the service task fill, and the task that prints them.
pub mod Histogram
mod Tests
pub mod Monitor
pub mod Setup
use mathlib.Core.Option
use ctu_real_time_systems_pr.Base.{
  List, Option, [], false, get_or, if◌then◌else◌, ltb, map, none, not, set, some, suc, true, u32,
  zero, ℕ, ◌*◌, ◌++◌, ◌+◌, ◌-◌, ◌/◌, ◌==◌, ◌||◌, ◌∷◌,
}

abbrev pub time_map_size : ℕ
time_map_size = 20

-- The globals; `isr_semaphore` is the count of the semaphore.
pub record Events : Type 0 where
  pub m_end : ℕ
  pub m_time_isr_map : List ℕ
  pub m_time_srv_map : List ℕ
  pub isr_semaphore : ℕ

-- (TTC0_TIMER2_COUNTER_VAL * 36) / 1000, on 32 bits
unfoldable pub latency : ℕ → ℕ
latency counter = u32 (counter * 36) / 1000

-- if (time < TIME_MAP_SIZE) ++map[time]
pub count_time : List ℕ → ℕ → List ℕ
count_time bins time =
    if ltb time time_map_size then set bins time (u32 (get_or bins time 0 + 1)) else bins

-- `timer_isr`, where the timer reads as `counter`. The last read clears the interrupt.
pub timer_isr : ℕ → Events → Events
unfolding latency count_time
timer_isr counter e = record e {
  m_time_isr_map = count_time e.m_time_isr_map (latency counter);
  isr_semaphore = e.isr_semaphore + 1;
}

-- A round of `ServiceTask`, if the semaphore can be taken; the timer reads as `counter` then.
pub service : ℕ → Events → Option Events
unfolding latency count_time
service counter e =
    if e.isr_semaphore == 0
    then none
    else some (record e {
      isr_semaphore = e.isr_semaphore - 1;
      m_time_srv_map = count_time e.m_time_srv_map (latency counter);
    })

-- What is printed: a number by %i, or a character.
pub data Out : Type 0 where
  num : ℕ → Out
  char : ℕ → Out
  started finished : Out

-- One of the three loops of `MonitorTask`: the entries from `j` on, of `left` that are left.
pub print_row : (ℕ → ℕ) → ℕ → ℕ → List Out
print_row entry j zero = []
print_row entry j (suc left) =
    num (entry j)
    ∷ char (if j + 1 == time_map_size then 10 else b',')
    ∷ print_row entry (j + 1) left

-- A round of `MonitorTask`, with the histograms as it reads them.
pub report : List ℕ × List ℕ → List Out
report (isr, srv) =
    print_row (λ j. j) 0 time_map_size
    ++ (print_row (λ j. get_or isr j 0) 0 time_map_size
        ++ print_row (λ j. get_or srv j 0) 0 time_map_size)

-- The loop of `MonitorTask` on fuel, over the histograms that each round finds; it prints, and at
-- its end sets m_end. `none` means that the fuel ran out.
pub monitor_loop : ℕ → ℕ → ℕ → (ℕ → List ℕ × List ℕ) → Option (List Out × ℕ)
unfolding report
monitor_loop zero measurements i bins = none
monitor_loop (suc fuel) measurements i bins = elim (measurements == 0 || not (measurements == i)) [
  | true ↦
      Option.map (λ (r : List Out × ℕ). (report (bins i) ++ r.0, r.1))
        (monitor_loop fuel measurements (i + 1) bins)
  | false ↦ some (finished ∷ [], 1)
]

-- `MonitorTask`
pub monitor_task : ℕ → ℕ → (ℕ → List ℕ × List ℕ) → Option (List Out × ℕ)
unfolding monitor_loop
monitor_task fuel measurements bins =
    Option.map (λ (r : List Out × ℕ). (started ∷ r.0, r.1)) (monitor_loop fuel measurements 0 bins)
