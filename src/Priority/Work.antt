-- ===== src/Priority/Work.antt =====
-- The busy work of the tasks of lab4_priority_inheritance_kernel_module/utils.c.
use ctu_real_time_systems_pr.Base.{ap, arith, i32, i32_id, pos, ℕ, ◌*◌, ◌<◌, ◌^◌, ◌∙◌, ◌≡◌}
use ctu_real_time_systems_pr.Introduction.{count_down_ℤ}
use ctu_real_time_systems_pr.Introduction.Rounds.{count_down_lem}

abbrev mid_priority_work : ℕ
mid_priority_work = 10

abbrev low_priority_work : ℕ
low_priority_work = 3

-- How often the loop of `do_work_for_some_time` decrements; x * 10000000 is an int.
do_work_for_some_time : ℕ → ℕ
unfolding count_down_ℤ
do_work_for_some_time x = count_down_ℤ (i32 (pos (x * 10000000)))

do_something_while_the_mutex_is_locked : ℕ
unfolding do_work_for_some_time
do_something_while_the_mutex_is_locked = do_work_for_some_time low_priority_work

do_something_very_long : ℕ
unfolding do_work_for_some_time
do_something_very_long = do_work_for_some_time mid_priority_work

-- A work factor whose product an int holds is worked off in full.
work_lem : (x : ℕ) → x * 10000000 < 2 ^ 31 → do_work_for_some_time x ≡ x * 10000000
unfolding do_work_for_some_time count_down_ℤ
work_lem x fits =
    ap count_down_ℤ (i32_id (pos (x * 10000000)) (omega arith, omega arith))
    ∙ count_down_lem (x * 10000000)

-- The work of the middle task is longer than that under the mutex, more than three times.
middle_longer : 3 * do_something_while_the_mutex_is_locked < do_something_very_long
unfolding do_something_while_the_mutex_is_locked do_something_very_long
middle_longer =
    let short = work_lem low_priority_work (omega arith) in
    let long = work_lem mid_priority_work (omega arith) in rw (short, long) (omega arith)
