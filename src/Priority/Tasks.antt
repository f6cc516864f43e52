-- ===== src/Priority/Tasks.antt =====
-- The three tasks of lab4_priority_inheritance_kernel_module/utils.c on their mutex: which task runs
-- next is left open. The busy work of a task is a place, and the mutex has been created.
pub mod Shutdown
use ctu_real_time_systems_pr.Base.{Bool, false, ltb_ℤ, pos, true, ℕ, ℤ, ◌+◌, ◌≡◌}

-- Where the loop of `tLPrio` stands.
pub data Low : Type 0 where
  testing : Low  -- while (!end)
  taking : Low  -- semTake(global_mutex, WAIT_FOREVER)
  working : Low  -- the work while the mutex is locked, and semGive
  delaying : Low  -- taskDelay
  stopped : Low

-- Where the loop of `tMPrio` stands.
pub data Middle : Type 0 where
  testing working delaying stopped : Middle

-- Where the loop of `tHPrio` stands.
pub data High : Type 0 where
  looping : High  -- i < num_of_mes
  taking : High  -- semTake, after the first reading of the clock
  holding : High  -- the second reading, and semGive
  delaying : High  -- taskDelay, and ++i
  stopped : High  -- after end = 1

-- The tasks with what they share, and the count of the loop of `tHPrio`.
pub record Tasks : Type 0 where
  pub low_at : Low
  pub middle_at : Middle
  pub high_at : High
  pub mutex_free : Bool
  pub ended : Bool  -- end
  pub measured : ℕ  -- i

-- One step of one task.
pub data TaskStep (num_of_mes : ℤ) (s : Tasks) : Tasks → Type 0 where
  low_goes_on :
      s.low_at ≡ Low.testing
      → s.ended ≡ false
      → TaskStep num_of_mes s (record s { low_at = Low.taking })
  low_stops :
      s.low_at ≡ Low.testing
      → s.ended ≡ true
      → TaskStep num_of_mes s (record s { low_at = Low.stopped })
  low_takes :
      s.low_at ≡ Low.taking
      → s.mutex_free ≡ true
      → TaskStep num_of_mes s (record s { low_at = Low.working; mutex_free = false })
  low_gives :
      s.low_at ≡ Low.working
      → TaskStep num_of_mes s (record s { low_at = Low.delaying; mutex_free = true })
  low_wakes : s.low_at ≡ Low.delaying → TaskStep num_of_mes s (record s { low_at = Low.testing })
  middle_goes_on :
      s.middle_at ≡ Middle.testing
      → s.ended ≡ false
      → TaskStep num_of_mes s (record s { middle_at = Middle.working })
  middle_stops :
      s.middle_at ≡ Middle.testing
      → s.ended ≡ true
      → TaskStep num_of_mes s (record s { middle_at = Middle.stopped })
  middle_works :
      s.middle_at ≡ Middle.working
      → TaskStep num_of_mes s (record s { middle_at = Middle.delaying })
  middle_wakes :
      s.middle_at ≡ Middle.delaying
      → TaskStep num_of_mes s (record s { middle_at = Middle.testing })
  high_goes_on :
      s.high_at ≡ looping
      → ltb_ℤ (pos s.measured) num_of_mes ≡ true
      → TaskStep num_of_mes s (record s { high_at = High.taking })
  high_stops :
      s.high_at ≡ looping
      → ltb_ℤ (pos s.measured) num_of_mes ≡ false
      → TaskStep num_of_mes s (record s { high_at = High.stopped; ended = true })
  high_takes :
      s.high_at ≡ High.taking
      → s.mutex_free ≡ true
      → TaskStep num_of_mes s (record s { high_at = holding; mutex_free = false })
  high_gives :
      s.high_at ≡ holding
      → TaskStep num_of_mes s (record s { high_at = High.delaying; mutex_free = true })
  high_wakes :
      s.high_at ≡ High.delaying
      → TaskStep num_of_mes s (record s { high_at = looping; measured = s.measured + 1 })

abbrev pub activated : Tasks
activated = record {
  low_at = Low.testing;
  middle_at = Middle.testing;
  high_at = looping;
  mutex_free = true;
  ended = false;
  measured = 0;
}

pub data Reached (num_of_mes : ℤ) : Tasks → Type 0 where
  start : Reached num_of_mes activated
  next : (s t : Tasks) → Reached num_of_mes s → TaskStep num_of_mes s t → Reached num_of_mes t
