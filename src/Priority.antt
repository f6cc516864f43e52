-- ===== src/Priority.antt =====
-- The measurement of priority inheritance: lab4_priority_inheritance_kernel_module/utils.c and main.c,
-- with the constants of config.h there. What the clock and the kernel answer is an input.
pub mod Time
mod Tests
pub mod Setup
pub mod Tasks
pub mod Scheduler
mod Work
use ctu_real_time_systems_pr.Base.{
  Bool, List, [], i32, if◌then◌else◌, ltb_ℤ, negsuc, pos, sub_ℕ, ℕ, ℤ, ◌*ℤ◌, ◌+ℤ◌, ◌+◌, ◌-ℤ◌, ◌/◌,
  ◌∷◌,
}

-- `struct timespec`, with fields that do not wrap
pub record Timespec : Type 0 where
  pub tv_sec : ℤ
  pub tv_nsec : ℤ

abbrev pub billion : ℕ
billion = 1000000000

-- a / b for an `int`, which rounds toward zero.
abbrev pub quot_ℤ : ℤ → ℕ → ℤ
quot_ℤ (pos n) b = pos (n / b)
quot_ℤ (negsuc n) b = sub_ℕ 0 ((n + 1) / b)

-- The two carries of `timespec_subtract`, which change y; `num_sec` is an int.
pub carry_down : Timespec → Timespec → Timespec
carry_down x y =
    let num_sec = i32 (quot_ℤ (y.tv_nsec -ℤ x.tv_nsec) billion +ℤ pos 1) in
    if ltb_ℤ x.tv_nsec y.tv_nsec
    then record { tv_nsec = y.tv_nsec -ℤ pos billion *ℤ num_sec; tv_sec = y.tv_sec +ℤ num_sec }
    else y

pub carry_up : Timespec → Timespec → Timespec
carry_up x y =
    let num_sec = i32 (quot_ℤ (x.tv_nsec -ℤ y.tv_nsec) billion) in
    if ltb_ℤ (pos billion) (x.tv_nsec -ℤ y.tv_nsec)
    then record { tv_nsec = y.tv_nsec +ℤ pos billion *ℤ num_sec; tv_sec = y.tv_sec -ℤ num_sec }
    else y

-- `timespec_subtract`: the result, and whether it is negative.
pub timespec_subtract : Timespec → Timespec → Timespec × Bool
unfolding carry_down carry_up
timespec_subtract x y =
    let y' = carry_up x (carry_down x y) in
    (
      record { tv_sec = x.tv_sec -ℤ y'.tv_sec; tv_nsec = x.tv_nsec -ℤ y'.tv_nsec },
      ltb_ℤ x.tv_sec y'.tv_sec,
    )

-- `time_to_ms`, which returns an int
pub time_to_ms : Timespec → ℤ
time_to_ms t = i32 (t.tv_sec *ℤ pos 1000 +ℤ quot_ℤ t.tv_nsec 1000000)

-- The loop of `tHPrio`: for each round the two readings of the clock, and the lines that it prints.
pub high_loop : ℤ → List (Timespec × Timespec) → List ℤ
unfolding timespec_subtract time_to_ms
high_loop max_time [] = []
high_loop max_time ((tstart, tend) ∷ rounds) =
    let current = time_to_ms (timespec_subtract tend tstart).0 in
    let more = ltb_ℤ max_time current in
    let rest = high_loop (if more then current else max_time) rounds in
    if more then current ∷ rest else rest
