-- ===== src/Diggers/Supply/Soil.antt =====
-- The diggers of lab2_mutex_semaphore/task2.c and lab3_real_time_processes/company.c: from any place
-- to the soil that is brought away.
use ctu_real_time_systems_pr.Base.{arith, get_elem?, refl, some, ℕ, ◌-◌, ◌<◌, ◌≡◌, ◌≢◌}
use ctu_real_time_systems_pr.Diggers.{
  Lower, LowerStep, Reach, Site, Upper, UpperStep, before_soil, carried, carrying, digging, dug,
  given_up, timed_out,
}
use ctu_real_time_systems_pr.Diggers.Safety.{upper_holds}
use ctu_real_time_systems_pr.Diggers.Supply.{
  Comes, Moves, bring, get_elem?-set_at, lower_first, upper_first, with_shovel,
}

-- What can be done with soil in the heap, for the worker `i` up the hole, who holds no shovel and stands at `q`.
module _ (i : ℕ) (q : Upper) (idle : upper_holds q ≡ 0) where
  abbrev ThenLoad : Type 0
  ThenLoad = (t : Site) → Reach t → 0 < t.heap → get_elem? t.upper i ≡ some q → Comes t

  dig :
      {s : Site} (j : ℕ)
      → Reach s
      → get_elem? s.lower j ≡ some digging
      → get_elem? s.upper i ≡ some q
      → ThenLoad
      → Comes s
  dig j r at up rest =
      lower_first j r at LowerStep.give_soil refl (λ r'. rest _ r' (omega arith) up)

  dig_before_shovel :
      {s : Site} (j : ℕ)
      → Reach s
      → get_elem? s.lower j ≡ some Lower.before_shovel
      → get_elem? s.upper i ≡ some q
      → ThenLoad
      → Comes s
  dig_before_shovel j r at up rest = with_shovel r (λ t r' left keeps.
      lower_first j r' (keeps.lower_kept j Lower.before_shovel at refl)
        (LowerStep.take_shovel (t.shovels - 1) (omega arith)) refl
        (λ r''.
          dig j r''
            (get_elem?-set_at t.lower j digging (keeps.lower_kept j Lower.before_shovel at refl))
            (keeps.upper_kept i q up idle) rest))

  dig_before_safe :
      {s : Site} (j : ℕ)
      → Reach s
      → get_elem? s.lower j ≡ some Lower.before_safe
      → get_elem? s.upper i ≡ some q
      → ThenLoad
      → Comes s
  dig_before_safe {s} j r at up rest =
      lower_first j r at LowerStep.safe refl
        (λ r'. dig_before_shovel j r' (get_elem?-set_at s.lower j Lower.before_shovel at) up rest)

  dig_resting :
      {s : Site} (j : ℕ)
      → Reach s
      → get_elem? s.lower j ≡ some Lower.resting
      → get_elem? s.upper i ≡ some q
      → ThenLoad
      → Comes s
  dig_resting {s} j r at up rest =
      lower_first j r at LowerStep.rest refl
        (λ r'. dig_before_safe j r' (get_elem?-set_at s.lower j Lower.before_safe at) up rest)

  dig_before_unsafe :
      {s : Site} (j : ℕ)
      → Reach s
      → get_elem? s.lower j ≡ some Lower.before_unsafe
      → get_elem? s.upper i ≡ some q
      → ThenLoad
      → Comes s
  dig_before_unsafe {s} j r at up rest =
      lower_first j r at LowerStep.unsafe refl
        (λ r'. dig_resting j r' (get_elem?-set_at s.lower j Lower.resting at) up rest)

  with_soil :
      {s : Site} (j : ℕ) (p : Lower)
      → Reach s
      → get_elem? s.lower j ≡ some p
      → p ≢ Lower.deleted
      → get_elem? s.upper i ≡ some q
      → ThenLoad
      → Comes s
  with_soil j digging r at lives up rest = dig j r at up rest
  with_soil j Lower.before_shovel r at lives up rest = dig_before_shovel j r at up rest
  with_soil j Lower.before_safe r at lives up rest = dig_before_safe j r at up rest
  with_soil j Lower.resting r at lives up rest = dig_resting j r at up rest
  with_soil j Lower.before_unsafe r at lives up rest = dig_before_unsafe j r at up rest
  with_soil {s} j dug r at lives up rest =
      lower_first j r at LowerStep.give_shovel refl
        (λ r'. dig_before_unsafe j r' (get_elem?-set_at s.lower j Lower.before_unsafe at) up rest)
  with_soil j Lower.deleted r at lives up rest = absurd (lives refl)

carry_before_shovel :
    {s : Site} (i : ℕ) → Reach s → get_elem? s.upper i ≡ some Upper.before_shovel → Comes s
carry_before_shovel i r at = with_shovel r (λ t r' left keeps.
    let there = keeps.upper_kept i Upper.before_shovel at refl in
    upper_first i r' there (UpperStep.take_shovel (t.shovels - 1) (omega arith)) refl
      (λ r''. bring i (get_elem?-set_at t.upper i carrying there)))

carry_before_safe :
    {s : Site} (i : ℕ) → Reach s → get_elem? s.upper i ≡ some Upper.before_safe → Comes s
carry_before_safe {s} i r at =
    upper_first i r at UpperStep.safe refl
      (λ r'. carry_before_shovel i r' (get_elem?-set_at s.upper i Upper.before_shovel at))

carry_loaded :
    {s : Site} (i : ℕ) → Reach s → 0 < s.heap → get_elem? s.upper i ≡ some before_soil → Comes s
carry_loaded {s} i r soil at =
    upper_first i r at (UpperStep.take_soil (s.heap - 1) (omega arith)) refl
      (λ r'. carry_before_safe i r' (get_elem?-set_at s.upper i Upper.before_safe at))

-- A digger up the hole, with one in the hole who lives.
module _ (j : ℕ) (p : Lower) (lives : p ≢ Lower.deleted) where
  carry_before_soil :
      {s : Site} (i : ℕ)
      → Reach s
      → get_elem? s.lower j ≡ some p
      → get_elem? s.upper i ≡ some before_soil
      → Comes s
  carry_before_soil i r low at =
      with_soil i before_soil refl j p r low lives at
        (λ t r' soil there. carry_loaded i r' soil there)

  carry_given_up :
      {s : Site} (i : ℕ)
      → Reach s
      → get_elem? s.lower j ≡ some p
      → get_elem? s.upper i ≡ some given_up
      → Comes s
  carry_given_up {s} i r low at =
      upper_first i r at UpperStep.retry refl
        (λ r'. carry_before_soil i r' low (get_elem?-set_at s.upper i before_soil at))

  carry_resting :
      {s : Site} (i : ℕ)
      → Reach s
      → get_elem? s.lower j ≡ some p
      → get_elem? s.upper i ≡ some Upper.resting
      → Comes s
  carry_resting {s} i r low at =
      upper_first i r at UpperStep.rest refl
        (λ r'. carry_before_soil i r' low (get_elem?-set_at s.upper i before_soil at))

  carry_before_unsafe :
      {s : Site} (i : ℕ)
      → Reach s
      → get_elem? s.lower j ≡ some p
      → get_elem? s.upper i ≡ some Upper.before_unsafe
      → Comes s
  carry_before_unsafe {s} i r low at =
      upper_first i r at UpperStep.unsafe refl
        (λ r'. carry_resting i r' low (get_elem?-set_at s.upper i Upper.resting at))

  carry :
      {s : Site} (i : ℕ) (q : Upper)
      → Reach s
      → get_elem? s.lower j ≡ some p
      → get_elem? s.upper i ≡ some q
      → q ≢ Upper.deleted
      → Comes s
  carry i carrying r low at alive = bring i at
  carry i Upper.before_shovel r low at alive = carry_before_shovel i r at
  carry i Upper.before_safe r low at alive = carry_before_safe i r at
  carry i before_soil r low at alive = carry_before_soil i r low at
  carry i given_up r low at alive = carry_given_up i r low at
  carry i Upper.resting r low at alive = carry_resting i r low at
  carry i Upper.before_unsafe r low at alive = carry_before_unsafe i r low at
  carry {s} i carried r low at alive =
      upper_first i r at UpperStep.give_shovel refl
        (λ r'. carry_before_unsafe i r' low (get_elem?-set_at s.upper i Upper.before_unsafe at))
  carry {s} i timed_out r low at alive =
      upper_first i r at UpperStep.give_back refl
        (λ r'. carry_given_up i r' low (get_elem?-set_at s.upper i given_up at))
  carry i Upper.deleted r low at alive = absurd (alive refl)

-- At every reachable site where a digger lives in the hole and another one up the hole, whatever the other
-- workers hold: steps that workers take by themselves, without a timeout, a deletion or a new worker,
-- lead to a site where more soil has been brought away.
pub soil_comes :
    {s : Site} (j : ℕ) (p : Lower) (i : ℕ) (q : Upper)
    → Reach s
    → get_elem? s.lower j ≡ some p
    → p ≢ Lower.deleted
    → get_elem? s.upper i ≡ some q
    → q ≢ Upper.deleted
    → (t : Site) × Moves s t × (s.soil_done < t.soil_done)
soil_comes j p i q r low lives at alive = carry j p lives i q r low at alive
