-- ===== src/Priority/Setup.antt =====
-- `CreateTasks` of lab4_priority_inheritance_kernel_module/main.c: which kernel calls it makes.
use ctu_real_time_systems_pr.Base.{
  Bool, List, [], arith, false, if◌then◌else◌, not, total, ℕ, ◌&&◌, ◌++◌, ◌==◌, ◌||◌, ◌∷◌, ◌≡◌,
}

pub data Task : Type 0 where
  low middle high : Task

pub data Call : Type 0 where
  sem_m_create : ℕ → Call
  sys_clk_rate_set : ℕ → Call
  task_create : Task → ℕ → Call
  task_cpu_affinity_set : Task → ℕ → Call
  task_delete task_activate : Task → Call

abbrev pub clock_rate : ℕ
clock_rate = 1000

-- The priorities of config.h: lower numbers come first.
abbrev pub priority : Task → ℕ
priority low = 222
priority middle = 211
priority high = 210

-- SEM_INVERSION_SAFE | SEM_Q_PRIORITY of the kernel's headers, the results of the three taskCreate
-- and of the three taskCpuAffinitySet, in the order of the calls.
pub record Kernel : Type 0 where
  pub inversion_safe : ℕ
  pub low_created : Bool
  pub middle_created : Bool
  pub high_created : Bool
  pub affinity_low : Bool
  pub affinity_middle : Bool
  pub affinity_again : Bool

-- The chain of || stops at the first call that fails; CPU 0 is the set with the bit 0.
pub set_affinities : Kernel → Bool × List Call
set_affinities k =
    if not k.affinity_low
    then (false, task_cpu_affinity_set low 1 ∷ [])
    else (if not k.affinity_middle
        then (false, task_cpu_affinity_set low 1 ∷ task_cpu_affinity_set middle 1 ∷ [])
        else (
          k.affinity_again,
          task_cpu_affinity_set low 1
              ∷ task_cpu_affinity_set middle 1
              ∷ task_cpu_affinity_set middle 1
              ∷ [],
        ))

-- The calls from sysClkRateSet on, in order.
pub spawn : Kernel → List Call
unfolding set_affinities
spawn k =
    sys_clk_rate_set clock_rate
    ∷ task_create low (priority low)
    ∷ task_create middle (priority middle)
    ∷ task_create high (priority high)
    ∷ (if not (k.low_created && k.middle_created && k.high_created)
        then []
        else (set_affinities k).1
          ++ (if (set_affinities k).0
              then task_activate low ∷ task_activate middle ∷ task_activate high ∷ []
              else task_delete low ∷ task_delete middle ∷ task_delete high ∷ []))

-- `CreateTasks`, for the mode a1.
pub create_tasks : Kernel → ℕ → List Call
unfolding spawn
create_tasks k a1 =
    if a1 == 1
    then sem_m_create 0 ∷ spawn k
    else (if a1 == 2 then sem_m_create k.inversion_safe ∷ spawn k else [])

-- How often a call of a kind occurs.
abbrev pub activated : Call → ℕ
activated (task_activate t) = 1
activated _ = 0

abbrev pub removed : Call → ℕ
removed (task_delete t) = 1
removed _ = 0

abbrev pub high_pinned : Call → ℕ
high_pinned (task_cpu_affinity_set high cpus) = 1
high_pinned _ = 0

-- The mode is known and the tasks are created; and the affinities are set.
abbrev pub ready : Kernel → ℕ → Bool
ready k a1 = (a1 == 1 || a1 == 2) && k.low_created && k.middle_created && k.high_created

abbrev pub pinned : Kernel → Bool
pinned k = k.affinity_low && k.affinity_middle && k.affinity_again

-- All three tasks are activated where the mode is known and every call succeeds, and all three are
-- deleted where only the affinities fail; otherwise no task is activated and none deleted.
pub activates_all_or_none :
    (k : Kernel) (a1 : ℕ)
    → (total activated (create_tasks k a1) ≡ (if ready k a1 && pinned k then 3 else 0))
      × (total removed (create_tasks k a1) ≡ (if ready k a1 && not (pinned k) then 3 else 0))
unfolding create_tasks total
activates_all_or_none k a1 = ground arith

-- The third call for the affinity names the middle task again: whatever happens, the task of the highest priority is
-- never pinned to the CPU of the others.
pub high_never_pinned : (k : Kernel) (a1 : ℕ) → total high_pinned (create_tasks k a1) ≡ 0
unfolding create_tasks total
high_never_pinned k a1 = ground arith
