-- ===== src/Introduction/Rounds.antt =====
-- The rounds of the tasks of lab1_introduction/test_project/test.c.
use mathlib.Core.Option
use ctu_real_time_systems_pr.Base.{
  List, [], ap, arith, get_elem?, get_or, i32, i32_id, pos, refl, some, suc, zero, ℕ, ◌*◌, ◌++◌,
  ◌<◌, ◌^◌, ◌∙◌, ◌∷◌, ◌≡◌,
}
use ctu_real_time_systems_pr.Introduction.{
  count_down_ℤ, Act, Call, count_down, create_tasks, decrements, kernel_time_slice, running,
  started, stopped, task, task_delay, task_loop, task_round, task_run, task_spawn, task_stop,
}

pub count_down_lem : (x : ℕ) → count_down x ≡ x
unfolding count_down
count_down_lem zero = refl
count_down_lem (suc x) = omega (arith, count_down_lem x)

-- What a round is meant to be.
abbrev meant : ℕ → List Act
meant n =
    running n
    ∷ decrements (1000000 * get_or task_run n 0)
    ∷ stopped n
    ∷ task_delay (get_or task_stop n 0)
    ∷ []

abbrev repeated : ℕ → List Act → List Act
repeated zero acts = []
repeated (suc k) acts = acts ++ repeated k acts

-- The tasks that are spawned.
abbrev AllSpawned : (ℕ → Type 0) → List Call → Type 0
AllSpawned P [] = Unit {0}
AllSpawned P (kernel_time_slice ticks ∷ calls) = AllSpawned P calls
AllSpawned P (task_spawn priority number ∷ calls) = P number × AllSpawned P calls

one_round :
    (n run stop : ℕ)
    → get_elem? task_run n ≡ some run
    → get_elem? task_stop n ≡ some stop
    → 1000000 * run < 2 ^ 31
    → task_round n
      ≡ some (running n ∷ decrements (1000000 * run) ∷ stopped n ∷ task_delay stop ∷ [])
unfolding task_round count_down_ℤ Option.bind
one_round n run stop r s fits =
    ap (λ o. Option.bind o (λ run. Option.map (after run) (get_elem? task_stop n))) r
    ∙ ap (Option.map (after run)) s
    ∙ ap (λ x. some (running n ∷ decrements (count_down_ℤ x) ∷ stopped n ∷ task_delay stop ∷ []))
        (i32_id (pos (1000000 * run)) (omega arith, omega arith))
    ∙ ap (λ x. some (running n ∷ decrements x ∷ stopped n ∷ task_delay stop ∷ []))
        (count_down_lem (1000000 * run))
  where
    after : ℕ → ℕ → List Act
    after run stop =
        running n
        ∷ decrements (count_down_ℤ (i32 (pos (1000000 * run))))
        ∷ stopped n
        ∷ task_delay stop
        ∷ []

task_round_lem : (n : ℕ) → n < 3 → task_round n ≡ some (meant n)
task_round_lem zero h = one_round 0 100 18 refl refl (omega arith)
task_round_lem (suc zero) h = one_round 1 450 25 refl refl (omega arith)
task_round_lem (suc (suc zero)) h = one_round 2 200 30 refl refl (omega arith)
task_round_lem (suc (suc (suc n))) h = absurd (omega arith)

task_loop_lem : (n rounds : ℕ) → n < 3 → task_loop n rounds ≡ some (repeated rounds (meant n))
unfolding task_loop Option.bind
task_loop_lem n zero h = refl
task_loop_lem n (suc rounds) h =
    ap (λ o. Option.bind o (λ acts. Option.map (λ rest. acts ++ rest) (task_loop n rounds)))
      (task_round_lem n h)
    ∙ ap (Option.map (λ rest. meant n ++ rest)) (task_loop_lem n rounds h)

-- Every task that is spawned stays within its arrays in all of its rounds: after its greeting each round says that it
-- runs, counts down a million times its entry of task_run, which a long holds, says that it has
-- stopped, and waits for its entry of task_stop.
spawned_tasks :
    (rounds : ℕ)
    → AllSpawned (λ n. task n rounds ≡ some (started n ∷ repeated rounds (meant n))) create_tasks
unfolding task
spawned_tasks rounds =
    (greets 0 (omega arith), (greets 1 (omega arith), (greets 2 (omega arith), tt)))
  where
    greets : (n : ℕ) → n < 3 → task n rounds ≡ some (started n ∷ repeated rounds (meant n))
    greets n h = ap (Option.map (λ acts. started n ∷ acts)) (task_loop_lem n rounds h)
