-- ===== src/Registry/Slots.antt =====
-- The companies of lab3_real_time_processes/shm.c: who gets which place.
use ctu_real_time_systems_pr.Base.{
  List, [], ap, arith, drop, get_elem?, get_elem?-of_lt, get_elem?-set_self, inl, inr, length,
  length-set, none, pos, refl, set, some, suc, take, zero, ℕ, ℕ_discrete, ◌++◌, ◌+◌, ◌<◌, ◌∙◌, ◌∷◌,
  ◌≡◌, ◌≢◌, ◌⊎◌,
}
use ctu_real_time_systems_pr.Registry.{Company, Companies, claim, name_size, leave, listing}

-- No company is empty.
abbrev pub IsFull : Companies → Type 0
IsFull [] = Unit {0}
IsFull (c ∷ cs) = (c.is_empty ≡ 0) × IsFull cs

-- How a claim can end: with the first empty place, where the name is written and nothing else, or
-- with the number of places, if none is empty.
abbrev pub Took : List ℕ → Companies → ℕ → Companies → Type 0
Took c_name cs i cs' =
    (c : Company) × (get_elem? cs i ≡ some c)
    × (c.is_empty ≢ 0)
    × IsFull (take i cs)
    × (cs' ≡ set cs i (record c { name = c_name; is_empty = 0 }))

abbrev pub Missed : Companies → ℕ → Companies → Type 0
Missed cs i cs' = IsFull cs × (i ≡ length cs) × (cs' ≡ cs)

-- The result of a claim, with what it means.
abbrev pub Claimed : List ℕ → Companies → Type 0
Claimed c_name cs =
    (i : ℕ) × (cs' : Companies) × (claim c_name cs ≡ some (i, cs'))
    × (Took c_name cs i cs' ⊎ Missed cs i cs')

claim_cons :
    (c_name : List ℕ) (c : Company) (cs : Companies)
    → c.is_empty ≡ 0
    → Claimed c_name cs
    → Claimed c_name (c ∷ cs)
unfolding claim
claim_cons c_name c cs taken (i, cs', e, inl (d, at, free, before, w)) =
    let next : i + 1 ≡ suc i = omega arith in
    (suc i, c ∷ cs', ground (arith, next), inl (d, at, free, (taken, before), ap (λ l. c ∷ l) w))
claim_cons c_name c cs taken (i, cs', e, inr (full, end, w)) =
    let next : i + 1 ≡ suc i = omega arith in
    (suc i, c ∷ cs', ground (arith, next), inr ((taken, full), ap suc end, ap (λ l. c ∷ l) w))

-- A claim with a name that fits always ends. Either it takes the first place that is empty, writes
-- the name there and nothing else, and answers that place; or every place is taken, and it
-- answers their number and changes nothing.
pub claim_lem : (c_name : List ℕ) (cs : Companies) → length c_name < name_size → Claimed c_name cs
unfolding claim
claim_lem c_name [] h = (0, [], refl, inr (tt, refl, refl))
claim_lem c_name (c ∷ cs) h = elim (ℕ_discrete c.is_empty 0) [
  | yes taken ↦ claim_cons c_name c cs taken (claim_lem c_name cs h)
  | no free ↦ (
    0,
    record c { name = c_name; is_empty = 0 } ∷ cs,
    ground arith,
    inl (c, refl, free, tt, refl),
  )
]

-- The same, read from a claim that has ended.
claim-cases :
    (c_name : List ℕ) (cs cs' : Companies) (i : ℕ)
    → length c_name < name_size
    → claim c_name cs ≡ some (i, cs')
    → Took c_name cs i cs' ⊎ Missed cs i cs'
claim-cases c_name cs cs' i h e =
    let (k, ds, f, how) = claim_lem c_name cs h in
    let same : i ≡ k = cc in let kept : cs' ≡ ds = cc in rw (same, kept) how

differs :
    (cs cs' cs'' : Companies) (a b : List ℕ) (i j : ℕ)
    → Took a cs i cs'
    → i < length cs
    → Took b cs' j cs'' ⊎ Missed cs' j cs''
    → i ≢ j
differs cs cs' cs'' a b i j (c, at, free, before, w) lt (inl (d, at', free', before', w')) q =
    free' (ground (arith, get_elem?-set_self cs i (record c { name = a; is_empty = 0 }) lt))
differs cs cs' cs'' a b i j (c, at, free, before, w) lt (inr (full, end, kept)) q =
    omega (arith, end, ap length w, length-set cs i (record c { name = a; is_empty = 0 }))

-- Two companies that register one after the other get different places, if the first found one.
claim_twice :
    (a b : List ℕ) (cs cs' cs'' : Companies) (i j : ℕ)
    → length a < name_size
    → length b < name_size
    → claim a cs ≡ some (i, cs')
    → claim b cs' ≡ some (j, cs'')
    → i < length cs
    → i ≢ j
claim_twice a b cs cs' cs'' i j ha hb e f lt = elim (claim-cases a cs cs' i ha e) [
  | inl took ↦ differs cs cs' cs'' a b i j took lt (claim-cases b cs' cs'' j hb f)
  | inr (full, end, kept) ↦ absurd (omega (arith, end))
]

pub claim_at :
    (c_name : List ℕ) (cs : Companies) (i : ℕ) (c : Company)
    → length c_name < name_size
    → IsFull (take i cs)
    → get_elem? cs i ≡ some c
    → c.is_empty ≢ 0
    → claim c_name cs ≡ some (i, set cs i (record c { name = c_name; is_empty = 0 }))
unfolding claim
claim_at c_name [] i c h full at free = cc
claim_at c_name (d ∷ cs) zero c h full at free = ground arith
claim_at c_name (d ∷ cs) (suc i) c h full at free =
    let next : i + 1 ≡ suc i = omega arith in
    ground (arith, next, full, claim_at c_name cs i c h full.1)

pub take-set_same : (cs : Companies) (n : ℕ) (c : Company) → take n (set cs n c) ≡ take n cs
take-set_same [] zero c = refl
take-set_same [] (suc n) c = refl
take-set_same (d ∷ cs) zero c = refl
take-set_same (d ∷ cs) (suc n) c = ap (λ l. d ∷ l) (take-set_same cs n c)

pub set-set : (cs : Companies) (n : ℕ) (c d : Company) → set (set cs n c) n d ≡ set cs n d
set-set [] n c d = refl
set-set (e ∷ cs) zero c d = refl
set-set (e ∷ cs) (suc n) c d = ap (λ l. e ∷ l) (set-set cs n c d)

-- A company that leaves makes its place empty. If every place before it is taken, the next company
-- gets that place, with no soil done, and no other place has changed in between.
claim-leave :
    (c_name : List ℕ) (cs : Companies) (i : ℕ)
    → length c_name < name_size
    → i < length cs
    → IsFull (take i cs)
    → (cs' : Companies) × (leave i cs ≡ some cs')
      × (claim c_name cs'
          ≡ some (i, set cs i (record { n_of_soil_done = pos 0; name = c_name; is_empty = 0 })))
unfolding leave
claim-leave c_name cs i h lt full =
    let (c, at) = get_elem?-of_lt cs i lt in
    let left : Company = record c { is_empty = 1; n_of_soil_done = pos 0 } in
    (
      set cs i left,
      rw at,
      claim_at c_name (set cs i left) i left h (rw take-set_same full)
            (get_elem?-set_self cs i left lt) (ground arith)
          ∙ ap (λ l. some (i, l))
              (set-set cs i left (record { n_of_soil_done = pos 0; name = c_name; is_empty = 0 })),
    )

listing-set :
    (cs : Companies) (i : ℕ) (c : Company)
    → i < length cs
    → c.is_empty ≡ 0
    → listing (set cs i c)
      ≡ listing (take i cs) ++ ((c.name, c.n_of_soil_done) ∷ listing (drop (suc i) cs))
unfolding listing
listing-set [] i c lt h = elim lt [ ]
listing-set (d ∷ cs) zero c lt h = rw h
listing-set (d ∷ cs) (suc i) c lt h = ground (arith, listing-set cs i c)

-- After a company has got a place, the monitor lists it in the order of the places, with its name
-- and the soil that the place shows, between the companies before it and those behind it, whose
-- lines are what they were.
listing-claim :
    (c_name : List ℕ) (cs cs' : Companies) (i : ℕ)
    → length c_name < name_size
    → claim c_name cs ≡ some (i, cs')
    → i < length cs
    → (c : Company) × (get_elem? cs i ≡ some c)
      × (listing cs'
          ≡ listing (take i cs) ++ ((c_name, c.n_of_soil_done) ∷ listing (drop (suc i) cs)))
listing-claim c_name cs cs' i h e lt = elim (claim-cases c_name cs cs' i h e) [
  | inl (c, at, free, before, w) ↦
      (c, at, ap listing w ∙ listing-set cs i (record c { name = c_name; is_empty = 0 }) lt refl)
  | inr (full, end, kept) ↦ absurd (omega (arith, end))
]

-- A full registry has no place to claim.
pub claim_full :
    (c_name : List ℕ) (cs : Companies) → IsFull cs → claim c_name cs ≡ some (length cs, cs)
unfolding claim
claim_full c_name [] full = refl
claim_full c_name (c ∷ cs) full =
    let next : length cs + 1 ≡ suc (length cs) = omega arith in
    ground (arith, next, claim_full c_name cs full.1)

pub get_elem?-length : (cs : Companies) → get_elem? cs (length cs) ≡ none
get_elem?-length [] = refl
get_elem?-length (c ∷ cs) = get_elem?-length cs
