-- ===== src/Events/Setup.antt =====
-- `CreateTasks` of lab6_response_time_async_events/main.c: what it clears, and what it does to the
-- timer, the interrupt and the tasks.
use mathlib.Core.Option
use Prim.Native.Nat.{bit_or}
use ctu_real_time_systems_pr.Base.{
  List, Option, [], arith, get_or, get_or-set, length, length-set, refl, set, some, suc, u32, zero,
  ℕ, ◌*◌, ◌++◌, ◌+◌, ◌<◌, ◌^◌, ◌∙◌, ◌∷◌, ◌≡◌, ◌≤◌,
}
use ctu_real_time_systems_pr.Events.{Events, time_map_size, monitor_task, Out, started, finished}
use ctu_real_time_systems_pr.Events.Histogram.{run_isr, hits, isr_map_counts}
use ctu_real_time_systems_pr.Events.Monitor.{reports, monitor_ends}

-- The loop over both histograms, with the rounds left and the index.
clear_loop : ℕ → ℕ → Events → Events
clear_loop zero j e = e
clear_loop (suc left) j e = clear_loop left (j + 1) (record e {
  m_time_srv_map = set e.m_time_srv_map j 0;
  m_time_isr_map = set e.m_time_isr_map j 0;
})

-- The globals when the interrupt is connected.
pub begin : Events → Events
unfolding clear_loop
begin e = record (clear_loop time_map_size 0 (record e { m_end = 0 })) { isr_semaphore = 0 }

-- The registers of the timer, and the calls.
pub data Reg : Type 0 where
  counter_ctrl clock_ctrl interval interrupt_en : Reg

pub data Act : Type 0 where
  sys_clk_rate_set : ℕ → Act
  write : Reg → ℕ → Act
  int_connect int_enable int_disable int_disconnect : Act
  spawn_service delete_service : Act
  spawn_monitor : ℕ → Act
  printed : List Out → Act

-- The constants of config.h for the clock and the timer.
abbrev pub clock_rate : ℕ
clock_rate = 1000

abbrev pub tim_max : ℕ
tim_max = 10000

abbrev pub interrupt_en_iv : ℕ
interrupt_en_iv = 1

abbrev pub ctrl_en : ℕ
ctrl_en = 0 * 2 ^ 0

abbrev pub ctrl_dis : ℕ
ctrl_dis = 1 * 2 ^ 0

abbrev pub ctrl_int : ℕ
ctrl_int = 1 * 2 ^ 1

abbrev pub clock_prescale : ℕ
clock_prescale = 1 * 2 ^ 1

abbrev pub clock_prescale_en : ℕ
clock_prescale_en = 1

-- Up to the wait for m_end, ...
abbrev pub start_timer : ℕ → List Act
start_timer measurements =
    sys_clk_rate_set clock_rate
    ∷ write counter_ctrl ctrl_dis
    ∷ write clock_ctrl (bit_or clock_prescale clock_prescale_en)
    ∷ write interval tim_max
    ∷ write interrupt_en interrupt_en_iv
    ∷ write counter_ctrl (bit_or ctrl_int ctrl_en)
    ∷ int_connect
    ∷ int_enable
    ∷ spawn_service
    ∷ spawn_monitor measurements
    ∷ []

-- ... and after it.
abbrev pub stop_timer : List Act
stop_timer = write counter_ctrl ctrl_dis ∷ int_disable ∷ int_disconnect ∷ delete_service ∷ []

-- `CreateTasks`, with the fuel for the monitor, and the histograms that its rounds find; none where
-- m_end is not set, so that the wait does not end.
pub create_tasks : ℕ → ℕ → (ℕ → List ℕ × List ℕ) → Option (List Act)
create_tasks fuel measurements bins =
    Option.map (λ (r : List Out × ℕ). start_timer measurements ++ (printed r.0 ∷ stop_timer))
      (monitor_task fuel measurements bins)

clear_loop-length :
    (k j : ℕ) (e : Events) → length (clear_loop k j e).m_time_isr_map ≡ length e.m_time_isr_map
unfolding clear_loop
clear_loop-length zero j e = refl
clear_loop-length (suc k) j e = clear_loop-length k (j + 1) _ ∙ length-set e.m_time_isr_map j 0

-- The entries below the index are zero after the loop if they were before it.
clear_loop-zero :
    (k j i : ℕ) (e : Events)
    → (i < j → get_or e.m_time_isr_map i 0 ≡ 0)
    → j + k ≤ length e.m_time_isr_map
    → i < j + k
    → get_or (clear_loop k j e).m_time_isr_map i 0 ≡ 0
unfolding clear_loop
clear_loop-zero zero j i e z h b = z (omega arith)
clear_loop-zero (suc k) j i e z h b =
    clear_loop-zero k (j + 1) i _ cleared (omega (arith, length-set e.m_time_isr_map j 0))
      (omega arith)
  where
    cleared : i < j + 1 → get_or (set e.m_time_isr_map j 0) i 0 ≡ 0
    cleared c = ground (arith, get_or-set e.m_time_isr_map j i 0 0 (omega arith))

begin-length : (e : Events) → length (begin e).m_time_isr_map ≡ length e.m_time_isr_map
unfolding begin
begin-length e = clear_loop-length time_map_size 0 (record e { m_end = 0 })

begin-zero :
    (e : Events) (k : ℕ)
    → length e.m_time_isr_map ≡ time_map_size
    → k < time_map_size
    → get_or (begin e).m_time_isr_map k 0 ≡ 0
unfolding begin
begin-zero e k h b =
    clear_loop-zero time_map_size 0 k (record e { m_end = 0 }) (λ c. absurd (omega arith))
      (omega arith) (omega arith)

-- A measurement counts from zero, whatever an earlier one left: after CreateTasks has begun, each bin of the handler
-- holds the number of interrupts since then that found its latency, wrapped to 32 bits.
pub measured_lem :
    (cs : List ℕ) (e : Events) (k : ℕ)
    → length e.m_time_isr_map ≡ time_map_size
    → k < time_map_size
    → get_or (run_isr cs (begin e)).m_time_isr_map k 0 ≡ u32 (hits k cs)
measured_lem cs e k h b =
    let z = begin-zero e k h b in
    omega (arith, z, isr_map_counts cs (begin e) k (begin-length e ∙ h) b (omega (arith, z)))

-- `CreateTasks` ends for m measurements, at least one: it stops the timer, disconnects the
-- interrupt and deletes the service task, after the reports of the monitor.
create_tasks_lem :
    (fuel m : ℕ) (bins : ℕ → List ℕ × List ℕ)
    → 0 < m
    → m < fuel
    → create_tasks fuel m bins
      ≡ some (
          start_timer m ++ (printed (started ∷ (reports bins 0 m ++ (finished ∷ []))) ∷ stop_timer))
unfolding create_tasks
create_tasks_lem fuel m bins p h = rw (monitor_ends fuel m bins p h)
