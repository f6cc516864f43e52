-- ===== src/Introduction.antt =====
-- The tasks of lab1_introduction/test_project/test.c, which compute for a while and then wait.
pub mod Rounds
use mathlib.Core.Option
use ctu_real_time_systems_pr.Base.{
  List, Option, [], get_elem?, i32, map, negsuc, pos, some, suc, zero, ℕ, ℤ, ◌*◌, ◌++◌, ◌+◌, ◌∷◌,
}

abbrev pub task_run : List ℕ
task_run = 100 ∷ 450 ∷ 200 ∷ []

abbrev pub task_stop : List ℕ
task_stop = 18 ∷ 25 ∷ 30 ∷ []

-- What a task does: its lines, the decrements of its loop, and taskDelay.
pub data Act : Type 0 where
  started running stopped : ℕ → Act
  decrements : ℕ → Act
  task_delay : ℕ → Act

-- while (x > 0) x--: how often it decrements.
unfoldable pub count_down : ℕ → ℕ
count_down zero = 0
count_down (suc x) = count_down x + 1

unfoldable pub count_down_ℤ : ℤ → ℕ
unfolding count_down
count_down_ℤ (pos x) = count_down x
count_down_ℤ (negsuc x) = 0

-- A round of `task`; x is a long of 32 bits. `none` is a read behind an array.
pub task_round : ℕ → Option (List Act)
unfolding count_down_ℤ
task_round n = Option.bind (get_elem? task_run n) (λ run.
    Option.map
      (λ stop.
        running n
        ∷ decrements (count_down_ℤ (i32 (pos (1000000 * run))))
        ∷ stopped n
        ∷ task_delay stop
        ∷ [])
      (get_elem? task_stop n))

-- Its loop, for some rounds, and `task` up to the end of them.
pub task_loop : ℕ → ℕ → Option (List Act)
unfolding task_round
task_loop n zero = some []
task_loop n (suc rounds) =
    Option.bind (task_round n) (λ acts. Option.map (λ rest. acts ++ rest) (task_loop n rounds))

pub task : ℕ → ℕ → Option (List Act)
unfolding task_loop
task n rounds = Option.map (λ acts. started n ∷ acts) (task_loop n rounds)

-- `CreateTasks`: the arguments of its calls; each spawned task has the priority and its number.
pub data Call : Type 0 where
  kernel_time_slice : ℕ → Call
  task_spawn : (priority number : ℕ) → Call

abbrev pub create_tasks : List Call
create_tasks = kernel_time_slice 0 ∷ task_spawn 210 0 ∷ task_spawn 210 1 ∷ task_spawn 210 2 ∷ []
