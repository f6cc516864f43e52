-- ===== src/History/Tests.antt =====
-- The theorems on the history at inputs that meet their hypotheses.
use ctu_real_time_systems_pr.Base.{
  List, [], arith, drop, map, pos, refl, ℕ, ◌%◌, ◌++◌, ◌+◌, ◌∷◌, ◌≡◌,
}
use ctu_real_time_systems_pr.Motor.{MotorShared}
use ctu_real_time_systems_pr.History.{Updater, fresh, run, sample_at, history_cyclic_array_size}
use ctu_real_time_systems_pr.History.Window.{IsValid, shown}
use ctu_real_time_systems_pr.History.Rows.{shown-run, added_rows, gap_protects}
use ctu_real_time_systems_pr.History.Clock.{read_from, times_true, true_times}

abbrev turned : MotorShared
turned = record { irq_count = 7; position = pos 3; desired_position = pos 9; pwm_duty = pos 3 }

abbrev empty : Updater
empty = fresh 0 5

empty-IsValid : IsValid empty.history
empty-IsValid = record {
  positions = refl;
  desired_positions = refl;
  duties = refl;
  timestamps = refl;
  start = omega arith;
}

abbrev rounds : List (ℕ × MotorShared)
rounds = (8, turned) ∷ (11, turned) ∷ []

shown-run_example :
    shown (run 1000 empty rounds).history
    ≡ drop 2 (shown empty.history ++ added_rows 1000 empty rounds)
shown-run_example = shown-run 1000 rounds empty empty-IsValid

gap_protects_example :
    sample_at (run 1000 empty rounds).history ((0 + 799) % history_cyclic_array_size)
    ≡ sample_at empty.history ((0 + 799) % history_cyclic_array_size)
gap_protects_example = gap_protects 1000 rounds empty 799 empty-IsValid (omega arith) (omega arith)

-- The counter wraps between the two rounds.
abbrev late : Updater
late = record empty { prev_timestamp = 4294967290 }

abbrev gaps : List (ℕ × MotorShared)
gaps = (3, turned) ∷ (1000, turned) ∷ []

late-IsValid : IsValid late.history
late-IsValid = record {
  positions = refl;
  desired_positions = refl;
  duties = refl;
  timestamps = refl;
  start = omega arith;
}

times_true_example :
    map (λ row. row.time) (shown (run 1000 late (read_from 4294967290 gaps)).history)
    ≡ drop 2 (map (λ row. row.time) (shown late.history) ++ true_times 1000 0 gaps)
times_true_example =
    times_true 1000 4294967290 gaps late late-IsValid refl (omega arith, (omega arith, tt))
      (omega arith) (omega arith)
