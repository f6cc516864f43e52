-- ===== src/Registry/Init.antt =====
-- `init_shm` of lab3_real_time_processes/shm.c on every branch, and what its callers make of the answer.
use ctu_real_time_systems_pr.Base.{
  Bool, Bool-cases, List, Option, [], ap, arith, false, inl, inr, length, none, refl, replicate,
  some, true, ℕ, ◌<◌, ◌≡◌, ◌⊎◌,
}
use ctu_real_time_systems_pr.Registry.{
  claim, Companies, Shm, Kernel, Outcome, zeroed, companies_size, name_size, register, map_registry,
  open_registry, sem_take, sem_give, init_shm, count_soil,
}
use ctu_real_time_systems_pr.Registry.Slots.{get_elem?-length, IsFull, claim_full}

-- A name that fits, or none.
abbrev pub NameFits : Option (List ℕ) → Type 0
NameFits none = Unit {0}
NameFits (some c_name) = length c_name < name_size

abbrev pub waited : Outcome → Bool
waited Outcome.waits = true
waited _ = false

-- What a part of init_shm leaves: a free lock, or the lock as it was where semOpen gave none; and it has
-- not waited.
abbrev Leaves : Bool → Outcome × Shm → Type 0
Leaves locked r = (r.1.locked ≡ locked) × (waited r.0 ≡ false)

-- A kernel that does what it is asked.
abbrev pub sound : Kernel
sound = record {
  sem_open_fails = false;
  open_fails = false;
  reopen_fails = false;
  ftruncate_fails = false;
  mmap_fails = false;
}

abbrev pub absent : Shm
absent = record { object = none; locked = false }

-- A company that joins a registry that is there gets what the claim gives.
pub init_shm-claim :
    (c_name : List ℕ) (cs cs' : Companies) (i : ℕ)
    → claim c_name cs ≡ some (i, cs')
    → init_shm sound true (some c_name) (record { object = some cs; locked = false })
      ≡ (Outcome.id i, record { object = some cs'; locked = false })
unfolding init_shm open_registry map_registry register sem_take sem_give
init_shm-claim c_name cs cs' i e =
    ap
      (λ r. elim r [
        | none ↦ (Outcome.overrun, record { object = some cs; locked = true })
        | some (n, ds) ↦ (Outcome.id n, record { object = some ds; locked = false })
      ])
      e

-- A monitor maps what is there, and its id is 0.
pub init_shm-watch :
    (cs : Companies)
    → init_shm sound false (some []) (record { object = some cs; locked = false })
      ≡ (Outcome.id 0, record { object = some cs; locked = false })
unfolding init_shm open_registry map_registry register sem_take sem_give
init_shm-watch cs = refl

-- Where the registry is full, a further company whose name fits gets an id all the same: the
-- number of places, at which there is no company, so that the count of its first soil is an
-- access behind the array.
pub full_registry_overruns :
    (c_name : List ℕ) (cs : Companies)
    → length c_name < name_size
    → IsFull cs
    → ((init_shm sound true (some c_name) (record { object = some cs; locked = false })).0
        ≡ Outcome.id (length cs))
      × (count_soil (length cs) cs ≡ none)
unfolding init_shm open_registry map_registry sem_take sem_give count_soil
full_registry_overruns c_name cs h full =
    (rw (claim_full c_name cs full, register), rw (get_elem?-length cs))

failed_start :
    (d_name : List ℕ) (k : Kernel)
    → k.sem_open_fails ≡ false
    → k.open_fails ≡ false
    → (k.ftruncate_fails ≡ true) ⊎ (k.mmap_fails ≡ true)
    → (init_shm k true (some d_name) absent).1
      ≡ record { object = some (replicate companies_size zeroed); locked = false }
unfolding init_shm open_registry map_registry sem_take sem_give
failed_start d_name k q o (inl f) = rw (q, o, f)
failed_start d_name k q o (inr f) = elim (Bool-cases k.ftruncate_fails) [
  | inl t ↦ rw (q, o, t)
  | inr t ↦ rw (q, o, t, f)
]

-- A process that makes the object and then exits, because ftruncate or mmap fails, leaves a
-- registry in which no company is empty although none has registered: the next company, if its
-- name fits, is told that it is full.
failed_start_fills :
    (c_name d_name : List ℕ) (k : Kernel)
    → length c_name < name_size
    → k.sem_open_fails ≡ false
    → k.open_fails ≡ false
    → (k.ftruncate_fails ≡ true) ⊎ (k.mmap_fails ≡ true)
    → (init_shm sound true (some c_name) (init_shm k true (some d_name) absent).1).0
      ≡ Outcome.id companies_size
failed_start_fills c_name d_name k h q o f =
    rw (failed_start d_name k q o f)
      (full_registry_overruns c_name (replicate companies_size zeroed) h (omega arith)).0
