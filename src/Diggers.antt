-- ===== src/Diggers.antt =====
-- The workers of the digging company: `digger_in_hole` and `digger_up_the_hole` of
-- lab2_mutex_semaphore/task2.c and of lab3_real_time_processes/company.c, as tasks that take steps
-- in any order. A step is one call of the kernel or one access to shared data.
pub mod Safety
pub mod Progress
pub mod Supply
mod Tests
use ctu_real_time_systems_pr.Base.{List, [], get_elem?, set, some, suc, ℕ, ◌++◌, ◌+◌, ◌∷◌, ◌≡◌}

abbrev pub shovel_count : ℕ
shovel_count = 3

-- Where a digger in the hole stands: before which call.
pub data Lower : Type 0 where
  before_safe : Lower  -- taskSafe
  before_shovel : Lower  -- semTake(semShovels, WAIT_FOREVER)
  digging : Lower  -- semGive(semSoilHeap), after the work
  dug : Lower  -- semGive(semShovels)
  before_unsafe : Lower  -- taskUnsafe
  resting : Lower  -- the delay at the end of the loop
  deleted : Lower

-- Where a digger up the hole stands.
pub data Upper : Type 0 where
  before_soil : Upper  -- semTake(semSoilHeap, WAIT_FOREVER)
  before_safe : Upper  -- taskSafe
  before_shovel : Upper  -- semTake(semShovels, 10)
  timed_out : Upper  -- semGive(semSoilHeap), after an error
  given_up : Upper  -- taskUnsafe and continue
  carrying : Upper  -- ++n_of_soil_done under the lock, after the work
  carried : Upper  -- semGive(semShovels)
  before_unsafe : Upper  -- taskUnsafe
  resting : Upper
  deleted : Upper

-- The counts of the two semaphores, the soil that was brought away (`n_of_soil_done`), how much was
-- dug and how much was lost with a deleted task, and the workers.
pub record Site : Type 0 where
  pub shovels : ℕ
  pub heap : ℕ
  pub soil_done : ℕ
  pub soil_dug : ℕ
  pub soil_lost : ℕ
  pub lower : List Lower
  pub upper : List Upper

-- One step of a digger in the hole. `taskDelete` of a task between taskSafe and taskUnsafe waits.
pub data LowerStep (s : Site) : Site → Lower → Lower → Type 0 where
  safe : LowerStep s s Lower.before_safe Lower.before_shovel
  take_shovel :
      (n : ℕ)
      → s.shovels ≡ suc n
      → LowerStep s (record s { shovels = n }) Lower.before_shovel digging
  give_soil : LowerStep s (record s { heap = s.heap + 1; soil_dug = s.soil_dug + 1 }) digging dug
  give_shovel : LowerStep s (record s { shovels = s.shovels + 1 }) dug Lower.before_unsafe
  unsafe : LowerStep s s Lower.before_unsafe Lower.resting
  rest : LowerStep s s Lower.resting Lower.before_safe
  delete_new : LowerStep s s Lower.before_safe Lower.deleted
  delete_resting : LowerStep s s Lower.resting Lower.deleted

-- One step of a digger up the hole.
pub data UpperStep (s : Site) : Site → Upper → Upper → Type 0 where
  take_soil :
      (n : ℕ) → s.heap ≡ suc n → UpperStep s (record s { heap = n }) before_soil Upper.before_safe
  safe : UpperStep s s Upper.before_safe Upper.before_shovel
  take_shovel :
      (n : ℕ)
      → s.shovels ≡ suc n
      → UpperStep s (record s { shovels = n }) Upper.before_shovel carrying
  time_out : UpperStep s s Upper.before_shovel timed_out
  give_back : UpperStep s (record s { heap = s.heap + 1 }) timed_out given_up
  retry : UpperStep s s given_up before_soil
  count : UpperStep s (record s { soil_done = s.soil_done + 1 }) carrying carried
  give_shovel : UpperStep s (record s { shovels = s.shovels + 1 }) carried Upper.before_unsafe
  unsafe : UpperStep s s Upper.before_unsafe Upper.resting
  rest : UpperStep s s Upper.resting before_soil
  delete_waiting : UpperStep s s before_soil Upper.deleted
  delete_loaded :
      UpperStep s (record s { soil_lost = s.soil_lost + 1 }) Upper.before_safe Upper.deleted
  delete_resting : UpperStep s s Upper.resting Upper.deleted

-- A step of the site: of one worker, or the arrival of a new one.
pub data Step (s : Site) : Site → Type 0 where
  lower_step :
      (i : ℕ) {p q : Lower} {t : Site}
      → get_elem? s.lower i ≡ some p
      → LowerStep s t p q
      → Step s (record t { lower = set s.lower i q })
  upper_step :
      (i : ℕ) {p q : Upper} {t : Site}
      → get_elem? s.upper i ≡ some p
      → UpperStep s t p q
      → Step s (record t { upper = set s.upper i q })
  hire_lower : Step s (record s { lower = s.lower ++ (Lower.before_safe ∷ []) })
  hire_upper : Step s (record s { upper = s.upper ++ (before_soil ∷ []) })

-- semCCreate of the two semaphores, before any worker
abbrev pub opened : Site
opened = record {
  shovels = shovel_count;
  heap = 0;
  soil_done = 0;
  soil_dug = 0;
  soil_lost = 0;
  lower = [];
  upper = [];
}

pub data Reach : Site → Type 0 where
  start : Reach opened
  later : {s t : Site} → Reach s → Step s t → Reach t
