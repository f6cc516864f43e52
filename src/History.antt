-- ===== src/History.antt =====
-- The history of the motor: `motor_history_t` of semestral_project/include/shared.h, the loop of
-- `update_statistics` in semestral_project/src/statistics_updater.c that fills it, and the loop of
-- `generate_html_file` in semestral_project/src/svg_generator.c that copies it for the plots.
pub mod Window
pub mod Rows
mod Tests
pub mod Clock
use ctu_real_time_systems_pr.Base.{
  List, Option, [], false, get_or, map, none, pos, replicate, set, some, sub_u32, suc, true, u32,
  u64, zero, ℕ, ℤ, ◌%◌, ◌*◌, ◌+◌, ◌/◌, ◌==◌, ◌∷◌,
}
use mathlib.Core.Option
use ctu_real_time_systems_pr.Motor.{MotorShared}

abbrev pub history_size : ℕ
history_size = 800

abbrev pub history_cyclic_array_size : ℕ
history_cyclic_array_size = 1200

-- `motor_history_t`
pub record History : Type 0 where
  pub position : List ℤ
  pub desired_position : List ℤ
  pub pwm_duty : List ℤ
  pub timestamp : List ℕ
  pub timestamp_start : ℕ
  pub array_start_index : ℕ

-- The locals of `update_statistics`, beside the history.
pub record Updater : Type 0 where
  pub prev_timestamp : ℕ  -- uint32_t
  pub timestamp64 : ℕ  -- uint64_t
  pub history : History

-- One round of `update_statistics`. `freq` is sysTimestampFreq() and `cur` what sysTimestamp()
-- returns; `shared` is the shared data as the round reads them.
pub update : ℕ → Updater → ℕ × MotorShared → Updater
update freq u (cur, shared) =
    let ticks = u64 (u.timestamp64 + sub_u32 cur u.prev_timestamp) in
    let i = u32 (u.history.array_start_index + history_size) % history_cyclic_array_size in
    record {
      prev_timestamp = cur;
      timestamp64 = ticks;
      history = record (u.history) {
        desired_position = set u.history.desired_position i shared.desired_position;
        position = set u.history.position i shared.position;
        pwm_duty = set u.history.pwm_duty i shared.pwm_duty;
        timestamp = set u.history.timestamp i (u32 (u64 (ticks * 1000) / freq));
        array_start_index = u32 (u.history.array_start_index + 1) % history_cyclic_array_size;
      };
    }

-- The rounds of the loop, in order.
abbrev pub run : ℕ → Updater → List (ℕ × MotorShared) → Updater
run freq u [] = u
run freq u (r ∷ rs) = run freq (update freq u r) rs

-- One row of the plots: an entry of each of the four arrays.
pub record Sample : Type 0 where
  pub desired : ℤ
  pub actual : ℤ
  pub pwm : ℤ
  pub time : ℕ

abbrev pub sample_at : History → ℕ → Sample
sample_at h i = record {
  desired = get_or h.desired_position i (pos 0);
  actual = get_or h.position i (pos 0);
  pwm = get_or h.pwm_duty i (pos 0);
  time = get_or h.timestamp i 0;
}

-- The copying loop: `i` goes round the array to `stop`, and a row is added for each round; `none`
-- means that the fuel ran out. The conversions to float are left to the drawing.
copy_rows : ℕ → (ℕ → Sample) → ℕ → ℕ → Option (List Sample)
copy_rows zero row i stop = none
copy_rows (suc fuel) row i stop = elim (i == stop) [
  | true ↦ some []
  | false ↦
      Option.map (λ rows. row i ∷ rows)
        (copy_rows fuel row ((i + 1) % history_cyclic_array_size) stop)
]

-- The loop of `generate_html_file`, with as much fuel as the array has entries and one more.
pub plot_rows : History → Option (List Sample)
unfolding copy_rows
plot_rows h =
    copy_rows (suc history_cyclic_array_size) (sample_at h) h.array_start_index
      (u32 (h.array_start_index + history_size) % history_cyclic_array_size)

-- The globals and the locals at the start of `update_statistics`: `create_tasks` of
-- semestral_project/src/main.c clears three arrays, static storage the fourth.
abbrev pub fresh : ℕ → ℕ → Updater
fresh start now = record {
  prev_timestamp = now;
  timestamp64 = 0;
  history = record {
    position = replicate history_cyclic_array_size (pos 0);
    desired_position = replicate history_cyclic_array_size (pos 0);
    pwm_duty = replicate history_cyclic_array_size (pos 0);
    timestamp = replicate history_cyclic_array_size 0;
    timestamp_start = start;
    array_start_index = 0;
  };
}
