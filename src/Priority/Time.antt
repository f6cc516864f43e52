-- ===== src/Priority/Time.antt =====
-- The times of lab4_priority_inheritance_kernel_module/utils.c.
use ctu_real_time_systems_pr.Base.{
  Bool-cases, i32, i32_id, ◌^◌, List, [], abs, arith, dec_lt, inl, inr, int_laws, ltb, ltb_ℤ,
  ltb→lt, max_ℤ, neg_part, negsuc, pos, pos_part, refl, true, ℕ, ℤ, ◌*ℤ◌, ◌*◌, ◌+ℤ◌, ◌+◌, ◌-ℤ◌, ◌/◌,
  ◌<ℤ◌, ◌<◌, ◌∷◌, ◌≡◌, ◌≤ℤ◌, ◌≤◌,
}
use ctu_real_time_systems_pr.Priority.{
  time_to_ms, high_loop, quot_ℤ, Timespec, billion, carry_down, carry_up, timespec_subtract,
}

-- A time that a clock returns.
pub record IsTime (t : Timespec) : Type 0 where
  pub low : pos 0 ≤ℤ t.tv_nsec
  pub high : t.tv_nsec <ℤ pos billion

abbrev pub at : ℤ → ℕ → Timespec
at s n = record { tv_sec = s; tv_nsec = pos n }

quot_small : (z : ℤ) → abs z < billion → quot_ℤ z billion ≡ pos 0
quot_small (pos n) h = ground arith
quot_small (negsuc n) h = ground arith

parts_small : (n m : ℕ) → n < billion → m ≤ n → abs (pos n -ℤ pos m) < billion
unfolding ◌-ℤ◌
parts_small n m p q = ground arith

one_lem : pos 0 +ℤ pos 1 ≡ pos 1
unfolding ◌+ℤ◌
one_lem = refl

-- Without a borrow neither carry changes y.
no_borrow :
    (s t : ℤ) (a b : ℕ)
    → a < billion
    → b ≤ a
    → carry_up (at s a) (carry_down (at s a) (at t b)) ≡ at t b
unfolding carry_down carry_up ◌-ℤ◌
no_borrow s t a b ha h = ground arith

-- With a borrow one second is carried.
down_borrow :
    (s t : ℤ) (a b : ℕ)
    → a < b
    → b < billion
    → carry_down (at s a) (at t b) ≡ record { tv_sec = t +ℤ pos 1; tv_nsec = pos b -ℤ pos billion }
unfolding carry_down ◌*ℤ◌ ◌+ℤ◌ ◌-ℤ◌ i32
down_borrow s t a b h hb = let l : ltb (a + 0) (b + 0) ≡ true = ground arith in rw (l, one)
  where
    near : (n m : ℕ) → n < billion → m ≤ n → abs (pos n -ℤ pos m) < billion
    near n m p q = parts_small n m p q

    one : quot_ℤ (pos b -ℤ pos a) billion +ℤ pos 1 ≡ pos 1
    one = rw (quot_small (pos b -ℤ pos a) (near b a hb (omega arith))) one_lem

up_borrow :
    (s t : ℤ) (a b : ℕ)
    → a < b
    → b < billion
    → carry_up (at s a) (record { tv_sec = t +ℤ pos 1; tv_nsec = pos b -ℤ pos billion })
      ≡ record { tv_sec = t +ℤ pos 1; tv_nsec = pos b -ℤ pos billion }
unfolding carry_up ◌-ℤ◌
up_borrow s t a b h hb = ground arith

-- A time as nanoseconds.
abbrev pub nanoseconds : Timespec → ℤ
nanoseconds t = t.tv_sec *ℤ pos billion +ℤ t.tv_nsec

-- What `omega` needs of a product with a billion.
scaled :
    (a : ℤ)
    → pos_part (a *ℤ pos billion) + neg_part a * billion
      ≡ neg_part (a *ℤ pos billion) + pos_part a * billion
unfolding ◌*ℤ◌
scaled (pos n) = ground arith
scaled (negsuc n) = ground arith

ruleset times = (int_laws, scaled)

ltb-eq : (a b c d : ℕ) → (a < b → c < d) → (c < d → a < b) → ltb a b ≡ ltb c d
ltb-eq a b c d f g = ground arith

-- The difference of two clock readings is exact to the nanosecond, is again a time with
-- its nanoseconds within a second, and is called negative exactly when it is.
pub timespec_subtract_lem :
    (s t : ℤ) (a b : ℕ)
    → a < billion
    → b < billion
    → (nanoseconds (timespec_subtract (at s a) (at t b)).0
        ≡ nanoseconds (at s a) -ℤ nanoseconds (at t b))
      × IsTime (timespec_subtract (at s a) (at t b)).0
      × ((timespec_subtract (at s a) (at t b)).1
          ≡ ltb_ℤ (nanoseconds (at s a)) (nanoseconds (at t b)))
unfolding timespec_subtract
timespec_subtract_lem s t a b ha hb = elim (dec_lt a b) [
  | yes h ↦
      rw (down_borrow s t a b h hb, up_borrow s t a b h hb)
        (
          omega times,
          record { low = omega times; high = omega times },
          ltb-eq _ _ _ _ (omega times) (omega times),
        )
  | no h ↦ rw (no_borrow s t a b ha (omega arith)) (
    omega times,
    record { low = omega times; high = omega times },
    ltb-eq _ _ _ _ (omega times) (omega times),
  )
]

whole_ms : (s n : ℕ) → pos s *ℤ pos 1000 +ℤ pos (n / 1000000) ≡ pos ((s * billion + n) / 1000000)
unfolding ◌+ℤ◌ ◌*ℤ◌
whole_ms s n = ground arith

-- Of a time that is not negative `time_to_ms` gives the whole milliseconds, if they fit in an int.
pub time_to_ms_lem :
    (s n : ℕ)
    → (s * billion + n) / 1000000 < 2 ^ 31
    → time_to_ms (at (pos s) n) ≡ pos ((s * billion + n) / 1000000)
unfolding time_to_ms
time_to_ms_lem s n h = rw (whole_ms s n) (i32_id _ (omega arith))

-- The milliseconds of each round, and the greatest of them and a first value.
abbrev pub waited : Timespec × Timespec → ℤ
waited (tstart, tend) = time_to_ms (timespec_subtract tend tstart).0

abbrev pub greatest : ℤ → List (Timespec × Timespec) → ℤ
greatest max_time [] = max_time
greatest max_time (r ∷ rounds) = greatest (max_ℤ max_time (waited r)) rounds

-- Each line is greater than the one before it, and the first than `low`.
abbrev pub IsRising : ℤ → List ℤ → Type 0
IsRising low [] = Unit {0}
IsRising low (x ∷ xs) = (low <ℤ x) × IsRising x xs

abbrev pub last_or : ℤ → List ℤ → ℤ
last_or low [] = low
last_or low (x ∷ xs) = last_or x xs

-- The lines that `tHPrio` prints rise strictly, and the last of them is the greatest waiting time of the
-- measurement; nothing is printed where no time is greater than the first value.
high_loop_lem :
    (max_time : ℤ) (rounds : List (Timespec × Timespec))
    → IsRising max_time (high_loop max_time rounds)
      × (last_or max_time (high_loop max_time rounds) ≡ greatest max_time rounds)
unfolding high_loop
high_loop_lem max_time [] = (tt, refl)
high_loop_lem max_time ((tstart, tend) ∷ rounds) =
    elim (Bool-cases (ltb_ℤ max_time (waited (tstart, tend)))) [
      | inl more ↦
          let ih = high_loop_lem (waited (tstart, tend)) rounds in
          rw more ((ltb→lt _ _ more, ih.0), ih.1)
      | inr less ↦ rw less (high_loop_lem max_time rounds)
    ]
