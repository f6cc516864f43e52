-- ===== src/Priority/Scheduler.antt =====
-- The three tasks of lab4_priority_inheritance_kernel_module on the CPUs of a board. The scheduler is
-- the kernel's: it is a parameter, of which its documentation says that a ready task is kept from a CPU
-- on which it may run only by a ready task of at least its priority, and that the owner of an
-- inversion-safe mutex has the priority of the tasks that wait for it.
pub mod Blocked
pub mod Inversion
use ctu_real_time_systems_pr.Base.{
  Bool, List, Option, [], false, if◌then◌else◌, none, not, some, true, ℕ, ℤ, ◌&&◌, ◌<◌, ◌==◌, ◌∷◌,
  ◌≡◌, ◌≤◌, ◌⊎◌,
}
use ctu_real_time_systems_pr.Priority.Setup.{Task, low, middle, high, priority}
use ctu_real_time_systems_pr.Priority.Tasks.{Low, Middle, High, Tasks, TaskStep, holding, looping}

-- Where a task could go on.
abbrev pub low_ready : Low → Bool → Bool
low_ready Low.testing free = true
low_ready Low.taking free = free
low_ready Low.working free = true
low_ready _ free = false

abbrev pub middle_ready : Middle → Bool
middle_ready Middle.testing = true
middle_ready Middle.working = true
middle_ready _ = false

abbrev pub high_ready : High → Bool → Bool
high_ready looping free = true
high_ready High.taking free = free
high_ready holding free = true
high_ready _ free = false

abbrev pub ready : Tasks → Task → Bool
ready s low = low_ready s.low_at s.mutex_free
ready s middle = middle_ready s.middle_at
ready s high = high_ready s.high_at s.mutex_free

-- The high task is blocked on the mutex.
abbrev pub blocked : High → Bool → Bool
blocked High.taking free = not free
blocked _ free = false

abbrev pub high_waits : Tasks → Bool
high_waits s = blocked s.high_at s.mutex_free

abbrev pub owns : Low → Bool
owns Low.working = true
owns _ = false

-- The priority of a task; `safe` says that the mutex is inversion-safe.
abbrev pub current_priority : Bool → Tasks → Task → ℕ
current_priority safe s low =
    if safe && (owns s.low_at && high_waits s) then priority high else priority low
current_priority safe s t = priority t

-- The CPUs on which a task may run: CreateTasks pins the low and the middle task to CPU 0, and the high
-- one to none.
abbrev pub may_run : Task → ℕ → Bool
may_run low cpu = cpu == 0
may_run middle cpu = cpu == 0
may_run high cpu = true

-- What the documentation of the kernel says of the tasks that the CPUs have: they are ready and may run
-- there; and a ready task that has no CPU leaves each on which it may run to a task of at least its
-- priority.
pub record IsPreemptive (safe : Bool) (cpus : ℕ) (core : Tasks → ℕ → Option Task) : Type 0 where
  pub is_ready : (s : Tasks) (cpu : ℕ) (t : Task) → core s cpu ≡ some t → ready s t ≡ true
  pub is_allowed : (s : Tasks) (cpu : ℕ) (t : Task) → core s cpu ≡ some t → may_run t cpu ≡ true
  pub is_first :
      (s : Tasks) (cpu : ℕ) (u : Task)
      → cpu < cpus
      → ready s u ≡ true
      → may_run u cpu ≡ true
      → ((c : ℕ) × (core s c ≡ some u))
        ⊎ ((t : Task) × (core s cpu ≡ some t)
            × (current_priority safe s t ≤ current_priority safe s u))

-- Who makes a step; the end of a delay is made by the clock.
abbrev pub actor : {num_of_mes : ℤ} {s t : Tasks} → TaskStep num_of_mes s t → Option Task
actor (TaskStep.low_goes_on e e') = some low
actor (TaskStep.low_stops e e') = some low
actor (TaskStep.low_takes e e') = some low
actor (TaskStep.low_gives e) = some low
actor (TaskStep.low_wakes e) = none
actor (TaskStep.middle_goes_on e e') = some middle
actor (TaskStep.middle_stops e e') = some middle
actor (TaskStep.middle_works e) = some middle
actor (TaskStep.middle_wakes e) = none
actor (TaskStep.high_goes_on e e') = some high
actor (TaskStep.high_stops e e') = some high
actor (TaskStep.high_takes e e') = some high
actor (TaskStep.high_gives e) = some high
actor (TaskStep.high_wakes e) = none

-- Ends of delays, one after the other.
pub data Wakes (num_of_mes : ℤ) (s : Tasks) : Tasks → Type 0 where
  asleep : Wakes num_of_mes s s
  wake :
      (t u : Tasks)
      → Wakes num_of_mes s t
      → (st : TaskStep num_of_mes t u) → actor st ≡ none
      → Wakes num_of_mes s u

-- A step of a task that has a CPU.
pub data RunningStep (core : Tasks → ℕ → Option Task) (num_of_mes : ℤ) (x : Task) (s : Tasks)
    : Tasks → Type 0 where
  step :
      (t : Tasks) (cpu : ℕ) (st : TaskStep num_of_mes s t)
      → actor st ≡ some x
      → core s cpu ≡ some x
      → RunningStep core num_of_mes x s t

-- What happens while the middle task is ready whenever a task makes a step; with the tasks that made one,
-- the last one first.
pub data Delayed (core : Tasks → ℕ → Option Task) (num_of_mes : ℤ) (s : Tasks)
    : List Task → Tasks → Type 0 where
  at_first : Delayed core num_of_mes s [] s
  woke :
      (xs : List Task) (t u : Tasks)
      → Delayed core num_of_mes s xs t
      → (st : TaskStep num_of_mes t u) → actor st ≡ none
      → Delayed core num_of_mes s xs u
  worked :
      (xs : List Task) (t u : Tasks) (x : Task)
      → Delayed core num_of_mes s xs t
      → ready t middle ≡ true
      → RunningStep core num_of_mes x t u
      → Delayed core num_of_mes s (x ∷ xs) u
