-- ===== src/Events/Monitor.antt =====
-- What `MonitorTask` of lab6_response_time_async_events/main.c prints.
use mathlib.Core.List.{append_assoc}
use ctu_real_time_systems_pr.Base.{
  List, [], arith, get_or, none, refl, some, suc, zero, ℕ, ◌++◌, ◌+◌, ◌<◌, ◌∷◌, ◌≡◌,
}
use ctu_real_time_systems_pr.Events.{
  Out, num, char, started, finished, print_row, report, monitor_loop, monitor_task, time_map_size,
}

-- The numbers of a print, and its line ends.
abbrev pub numbers : List Out → List ℕ
numbers [] = []
numbers (num n ∷ out) = n ∷ numbers out
numbers (_ ∷ out) = numbers out

abbrev pub entries : (ℕ → ℕ) → ℕ → ℕ → List ℕ
entries entry j zero = []
entries entry j (suc n) = entry j ∷ entries entry (j + 1) n

-- A row: its numbers, separated by commas and ended by a newline.
abbrev pub row_of : List ℕ → List Out
row_of [] = []
row_of (x ∷ []) = num x ∷ char 10 ∷ []
row_of (x ∷ y ∷ xs) = num x ∷ char b',' ∷ row_of (y ∷ xs)

print_row_lem :
    (entry : ℕ → ℕ) (n j : ℕ)
    → j + n ≡ time_map_size
    → print_row entry j n ≡ row_of (entries entry j n)
unfolding print_row
print_row_lem entry zero j h = refl
print_row_lem entry (suc zero) j h = ground arith
print_row_lem entry (suc (suc n)) j h = ground (arith, print_row_lem entry (suc n) (j + 1))

-- A round prints three rows of 20 numbers each, with commas between them and a newline behind: the
-- times, the bins of the handler and those of the service task.
pub report_lem :
    (isr srv : List ℕ)
    → report (isr, srv)
      ≡ row_of (entries (λ j. j) 0 time_map_size)
        ++ (row_of (entries (λ j. get_or isr j 0) 0 time_map_size)
            ++ row_of (entries (λ j. get_or srv j 0) 0 time_map_size))
unfolding report
report_lem isr srv = rw (
  print_row_lem (λ j. j) time_map_size 0 refl,
  print_row_lem (λ j. get_or isr j 0) time_map_size 0 refl,
  print_row_lem (λ j. get_or srv j 0) time_map_size 0 refl,
)

-- The reports of `n` rounds from the `i`-th on.
abbrev pub reports : (ℕ → List ℕ × List ℕ) → ℕ → ℕ → List Out
reports bins i zero = []
reports bins i (suc n) = report (bins i) ++ reports bins (i + 1) n

loop_ends :
    (fuel n i m : ℕ) (bins : ℕ → List ℕ × List ℕ)
    → 0 < m
    → m ≡ i + n
    → n < fuel
    → monitor_loop fuel m i bins ≡ some (reports bins i n ++ (finished ∷ []), 1)
unfolding monitor_loop
loop_ends zero n i m bins p e h = absurd (omega arith)
loop_ends (suc fuel) zero i m bins p e h = ground arith
loop_ends (suc fuel) (suc n) i m bins p e h = ground (
  arith,
  loop_ends fuel n (i + 1) m bins,
  append_assoc (report (bins i)) (reports bins (i + 1) n) (finished ∷ []),
)

-- For `m` measurements, at least one, the monitor ends: it prints the start, exactly `m` reports in
-- order and the end, and then sets m_end. Any fuel above `m` is enough.
pub monitor_ends :
    (fuel m : ℕ) (bins : ℕ → List ℕ × List ℕ)
    → 0 < m
    → m < fuel
    → monitor_task fuel m bins ≡ some (started ∷ (reports bins 0 m ++ (finished ∷ [])), 1)
unfolding monitor_task
monitor_ends fuel m bins p h = rw (loop_ends fuel m 0 m bins p (omega arith) h)

-- For 0 measurements it never ends.
monitor_endless : (fuel i : ℕ) (bins : ℕ → List ℕ × List ℕ) → monitor_loop fuel 0 i bins ≡ none
unfolding monitor_loop
monitor_endless zero i bins = refl
monitor_endless (suc fuel) i bins = rw (monitor_endless fuel (i + 1) bins)
