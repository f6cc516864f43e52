-- ===== src/Registry.antt =====
-- The shared registry of companies: lab3_real_time_processes/structs.h, `init_shm` of
-- lab3_real_time_processes/shm.c, the parts of lab3_real_time_processes/company.c that use it, and
-- the listing of lab3_real_time_processes/monitor.c. What the kernel answers is an input.
pub mod Slots
mod Tests
pub mod Init
pub mod Shared
pub mod Monitor
pub mod Counts
pub mod Late
use mathlib.Core.Option
use ctu_real_time_systems_pr.Base.{
  Bool, List, Option, [], false, get_elem?, i32, if◌then◌else◌, length, ltb, map, none, pos,
  replicate, set, some, true, ℕ, ℤ, ◌+ℤ◌, ◌+◌, ◌==◌, ◌∷◌,
}

abbrev pub companies_size : ℕ
companies_size = 50

abbrev pub name_size : ℕ
name_size = 20

-- `struct company`: the soil is an int, the name the bytes before its NUL.
pub record Company : Type 0 where
  pub n_of_soil_done : ℤ
  pub name : List ℕ
  pub is_empty : ℕ

-- `struct company_registry`
abbrev pub Companies : Type 0
Companies = List Company

-- What memset leaves of a company.
abbrev pub zeroed : Company
zeroed = record { n_of_soil_done = pos 0; name = []; is_empty = 0 }

-- The shared memory object, if it exists, and whether the named mutex is taken.
pub record Shm : Type 0 where
  pub object : Option Companies
  pub locked : Bool

-- How init_shm ends: by an id, by an exit, or by a strcpy of more bytes than the name has; `waits` is a
-- semTake of a lock that another process holds.
pub data Outcome : Type 0 where
  waits : Outcome
  id : ℕ → Outcome
  wrong_company_name error_ftrunc error_mapping error_open_file : Outcome
  overrun : Outcome

-- What the kernel answers to the calls of init_shm. The first shm_open succeeds exactly if there
-- is no object yet, unless it fails for another reason.
pub record Kernel : Type 0 where
  pub sem_open_fails : Bool
  pub open_fails : Bool  -- the first shm_open, with another error than EEXIST
  pub reopen_fails : Bool  -- the second shm_open
  pub ftruncate_fails : Bool
  pub mmap_fails : Bool

-- memset, and is_empty = 1 in every company
abbrev pub initialised : Companies
initialised = replicate companies_size (record zeroed { is_empty = 1 })

-- The loop of init_shm that takes the first empty company, and the index at its end; strcpy needs
-- room for the NUL.
unfoldable pub claim : List ℕ → Companies → Option (ℕ × Companies)
claim c_name [] = some (0, [])
claim c_name (c ∷ cs) =
    let later = Option.map (λ (r : ℕ × Companies). (r.0 + 1, c ∷ r.1)) (claim c_name cs) in
    if c.is_empty == 0
    then later
    else (if ltb (length c_name) name_size
        then some (0, record c { name = c_name; is_empty = 0 } ∷ cs)
        else none)

-- semTake(lock, WAIT_FOREVER) and semGive(lock), on whether the lock is taken: a take waits where it is,
-- and both fail, which the code does not look at, where semOpen gave no semaphore.
pub sem_take : Kernel → Bool → Option Bool
sem_take k locked = if k.sem_open_fails then some locked else (if locked then none else some true)

pub sem_give : Kernel → Bool → Bool
sem_give k locked = if k.sem_open_fails then locked else false

-- The second part of init_shm, with the mapped registry and the lock as it is then; `none` for `c_name`
-- is a null pointer.
pub register : Kernel → Bool → Option (List ℕ) → Companies → Bool → Outcome × Shm
unfolding claim
register k false c_name cs locked = (id 0, record { object = some cs; locked = locked })
register k true none cs locked = (wrong_company_name, record { object = some cs; locked = locked })
register k true (some c_name) cs locked = elim (sem_take k locked) [
  | none ↦ (waits, record { object = some cs; locked = locked })
  | some held ↦ elim (claim c_name cs) [
    | none ↦ (overrun, record { object = some cs; locked = held })
    | some (i, cs') ↦ (id i, record { object = some cs'; locked = sem_give k held })
  ]
]

-- From ftruncate on, with the lock as the first semTake has left it: `created` says that this process
-- made the object.
pub map_registry : Kernel → Bool → Bool → Option (List ℕ) → Companies → Bool → Outcome × Shm
unfolding register
map_registry k created is_company c_name cs held =
    if k.ftruncate_fails
    then (error_ftrunc, record { object = some cs; locked = sem_give k held })
    else (if k.mmap_fails
        then (error_mapping, record { object = some cs; locked = sem_give k held })
        else register k is_company c_name (if created then initialised else cs) (sem_give k held))

-- From the first shm_open on. ftruncate fills a new object with zeros.
pub open_registry : Kernel → Bool → Option (List ℕ) → Shm → Bool → Outcome × Shm
unfolding map_registry
open_registry k is_company c_name s held =
    if k.open_fails
    then (error_open_file, record s { locked = sem_give k held })
    else elim s.object [
      | none ↦ map_registry k true is_company c_name (replicate companies_size zeroed) held
      | some cs ↦
          (if k.reopen_fails
            then (error_open_file, record s { locked = sem_give k held })
            else map_registry k false is_company c_name cs held)
    ]

-- `init_shm`
pub init_shm : Kernel → Bool → Option (List ℕ) → Shm → Outcome × Shm
unfolding open_registry
init_shm k is_company c_name s = elim (sem_take k s.locked) [
  | none ↦ (waits, s)
  | some held ↦ open_registry k is_company c_name s held
]

-- ++ptr->companies[m_id].n_of_soil_done; `none` is an access behind the array.
pub count_soil : ℕ → Companies → Option Companies
count_soil m_id cs =
    Option.map (λ c. set cs m_id (record c { n_of_soil_done = i32 (c.n_of_soil_done +ℤ pos 1) }))
      (get_elem? cs m_id)

-- The command 'E' of company.c.
pub leave : ℕ → Companies → Option Companies
leave m_id cs =
    Option.map (λ c. set cs m_id (record c { is_empty = 1; n_of_soil_done = pos 0 }))
      (get_elem? cs m_id)

-- The lines that one round of monitor.c prints.
pub listing : Companies → List (List ℕ × ℤ)
listing [] = []
listing (c ∷ cs) =
    let rest = listing cs in if c.is_empty == 0 then (c.name, c.n_of_soil_done) ∷ rest else rest
