-- ===== src/Diggers/Tests.antt =====
-- The theorems on the diggers at a site that is reached.
use ctu_real_time_systems_pr.Base.{[], refl, total, ◌+◌, ◌<◌, ◌∷◌, ◌≢◌, ◌≤◌}
use ctu_real_time_systems_pr.Diggers.{
  before_soil, Site, Lower, digging, Upper, LowerStep, UpperStep, Reach, start, later, lower_step,
  upper_step, hire_lower, hire_upper, dug,
}
use ctu_real_time_systems_pr.Diggers.Supply.{Moves}
use ctu_real_time_systems_pr.Diggers.Supply.Soil.{soil_comes}
use ctu_real_time_systems_pr.Diggers.Safety.{
  Inv, Reach-Inv, at_most_three_work, lower_works, upper_works,
}

-- One digger has dug and still holds its shovel, the other has just taken the soil.
abbrev loaded : Site
loaded = record {
  shovels = 2;
  heap = 0;
  soil_done = 0;
  soil_dug = 1;
  soil_lost = 0;
  lower = dug ∷ [];
  upper = Upper.before_safe ∷ [];
}

loaded-Reach : Reach loaded
loaded-Reach =
    later
      (later
        (later
          (later (later (later start hire_lower) hire_upper) (lower_step 0 refl LowerStep.safe))
          (lower_step 0 refl (LowerStep.take_shovel 2 refl)))
        (lower_step 0 refl LowerStep.give_soil))
      (upper_step 0 refl (UpperStep.take_soil 0 refl))

Reach-Inv_example : Inv loaded
Reach-Inv_example = Reach-Inv loaded-Reach

at_most_three_work_example : total lower_works loaded.lower + total upper_works loaded.upper ≤ 3
at_most_three_work_example = at_most_three_work loaded-Reach

-- No shovel is left: three diggers work, and another one waits, like one up the hole.
abbrev crowded : Site
crowded = record {
  shovels = 0;
  heap = 0;
  soil_done = 0;
  soil_dug = 0;
  soil_lost = 0;
  lower = digging ∷ digging ∷ digging ∷ Lower.before_shovel ∷ [];
  upper = before_soil ∷ [];
}

crowded-Reach : Reach crowded
crowded-Reach =
    later
      (later
        (later
          (later
            (later
              (later
                (later
                  (later
                    (later (later (later (later start hire_lower) hire_lower) hire_lower)
                      hire_lower)
                    hire_upper)
                  (lower_step 0 refl LowerStep.safe))
                (lower_step 1 refl LowerStep.safe))
              (lower_step 2 refl LowerStep.safe))
            (lower_step 3 refl LowerStep.safe))
          (lower_step 0 refl (LowerStep.take_shovel 2 refl)))
        (lower_step 1 refl (LowerStep.take_shovel 1 refl)))
      (lower_step 2 refl (LowerStep.take_shovel 0 refl))

lower_alive : Lower.before_shovel ≢ Lower.deleted
lower_alive e = cc

upper_alive : before_soil ≢ Upper.deleted
upper_alive e = cc

soil_comes_example : (t : Site) × Moves crowded t × (0 < t.soil_done)
soil_comes_example =
    soil_comes 3 Lower.before_shovel 0 before_soil crowded-Reach refl lower_alive refl upper_alive
