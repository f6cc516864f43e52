-- ===== src/Events/Histogram.antt =====
-- The histograms of lab6_response_time_async_events/main.c against the readings of the timer.
use mathlib.Core.Option
use ctu_real_time_systems_pr.Base.{
  List, Option, [], arith, get_or, get_or-set, if◌then◌else◌, length, length-set, some, suc, u32, ℕ,
  ◌+◌, ◌-◌, ◌<◌, ◌==◌, ◌^◌, ◌∙◌, ◌∷◌, ◌≡◌,
}
use ctu_real_time_systems_pr.Events.{Events, latency, count_time, timer_isr, service, time_map_size}

-- The counter readings of the interrupts, in order.
abbrev pub run_isr : List ℕ → Events → Events
run_isr [] e = e
run_isr (c ∷ cs) e = run_isr cs (timer_isr c e)

-- How many of the readings are of the latency `k`.
abbrev pub hits : ℕ → List ℕ → ℕ
hits k [] = 0
hits k (c ∷ cs) = (if latency c == k then 1 else 0) + hits k cs

length-count_time : (bins : List ℕ) (t : ℕ) → length (count_time bins t) ≡ length bins
unfolding count_time
length-count_time bins t = ground (arith, length-set bins t (u32 (get_or bins t 0 + 1)))

get_or-count_time :
    (bins : List ℕ) (t k : ℕ)
    → length bins ≡ time_map_size
    → k < time_map_size
    → get_or (count_time bins t) k 0
      ≡ (if t == k then u32 (get_or bins k 0 + 1) else get_or bins k 0)
unfolding count_time
get_or-count_time bins t k e h = ground (arith, get_or-set bins t k (u32 (get_or bins t 0 + 1)) 0)

-- After any number of interrupts each of the 20 bins of the handler, if it was a number of 32
-- bits, has grown by the number of interrupts that found its latency, wrapped to 32 bits.
pub isr_map_counts :
    (cs : List ℕ) (e : Events) (k : ℕ)
    → length e.m_time_isr_map ≡ time_map_size
    → k < time_map_size
    → get_or e.m_time_isr_map k 0 < 2 ^ 32
    → get_or (run_isr cs e).m_time_isr_map k 0 ≡ u32 (get_or e.m_time_isr_map k 0 + hits k cs)
unfolding timer_isr
isr_map_counts [] e k l h w = omega arith
isr_map_counts (c ∷ cs) e k l h w =
    isr_map_counts cs (timer_isr c e) k (length-count_time e.m_time_isr_map (latency c) ∙ l) h
      (ground (arith, get_or-count_time e.m_time_isr_map (latency c) k l h))
    ∙ grown
  where
    grown :
        u32 (get_or (count_time e.m_time_isr_map (latency c)) k 0 + hits k cs)
        ≡ u32 (get_or e.m_time_isr_map k 0 + hits k (c ∷ cs))
    grown = ground (arith, get_or-count_time e.m_time_isr_map (latency c) k l h)

-- An interrupt or a round of the service task.
pub data Event : Type 0 where
  tick : ℕ → Event
  serve : ℕ → Event

-- A run of such events; `none` where the service task would have to wait.
abbrev pub run : List Event → Events → Option Events
run [] e = some e
run (tick c ∷ es) e = run es (timer_isr c e)
run (serve c ∷ es) e = Option.bind (service c e) (run es)

-- How many events of a kind there are.
abbrev pub ticks : List Event → ℕ
ticks [] = 0
ticks (tick c ∷ es) = suc (ticks es)
ticks (serve c ∷ es) = ticks es

abbrev pub serves : List Event → ℕ
serves [] = 0
serves (tick c ∷ es) = serves es
serves (serve c ∷ es) = suc (serves es)

-- Whatever the order of interrupts and rounds of the service task: each round answers an
-- interrupt, and the semaphore holds those that are still unanswered.
service_answers :
    (es : List Event) (e : Events) {e' : Events}
    → run es e ≡ some e'
    → e'.isr_semaphore + serves es ≡ e.isr_semaphore + ticks es
unfolding timer_isr service Option.bind
service_answers [] e h = ground arith
service_answers (tick c ∷ es) e {e'} h =
    omega (arith, service_answers es (timer_isr c e) {e' = e'} h)
service_answers (serve c ∷ es) e {e'} h = ground (arith, service_answers es served {e' = e'})
  where
    served : Events
    served = record e {
      isr_semaphore = e.isr_semaphore - 1;
      m_time_srv_map = count_time e.m_time_srv_map (latency c);
    }
