-- ===== src/History/Clock.antt =====
-- The clock of `update_statistics` in semestral_project/src/statistics_updater.c: a 32-bit counter that
-- wraps, unrolled into 64 bits and scaled to milliseconds.
use ctu_real_time_systems_pr.Base.{
  List, [], ap, ap₂, arith, drop, length, map, refl, sub_u32, suc, u32, u64, zero, ℕ, ◌*◌, ◌++◌,
  ◌+◌, ◌/◌, ◌<◌, ◌^◌, ◌∙◌, ◌∷◌, ◌≡◌, ◌≤◌,
}
use ctu_real_time_systems_pr.Motor.{MotorShared}
use ctu_real_time_systems_pr.History.{Updater, run, update}
use ctu_real_time_systems_pr.History.Rows.{added_rows, shown-run}
use ctu_real_time_systems_pr.History.Window.{IsValid, shown}

-- The rounds of a run, each with the ticks since the one before; the counter stands at `t` before it.
abbrev pub read_from : ℕ → List (ℕ × MotorShared) → List (ℕ × MotorShared)
read_from t [] = []
read_from t ((ticks, shared) ∷ gs) = (u32 (t + ticks), shared) ∷ read_from (t + ticks) gs

abbrev pub elapsed : List (ℕ × MotorShared) → ℕ
elapsed [] = 0
elapsed ((ticks, shared) ∷ gs) = ticks + elapsed gs

-- No two rounds are a whole turn of the counter apart.
abbrev pub Frequent : List (ℕ × MotorShared) → Type 0
Frequent [] = Unit {0}
Frequent ((ticks, shared) ∷ gs) = (ticks < 2 ^ 32) × Frequent gs

-- The times of the rounds in milliseconds, computed with no bound on the numbers, `n` ticks after
-- the start.
abbrev pub true_times : ℕ → ℕ → List (ℕ × MotorShared) → List ℕ
true_times freq n [] = []
true_times freq n ((ticks, shared) ∷ gs) =
    (n + ticks) * 1000 / freq ∷ true_times freq (n + ticks) gs

unrolled :
    (t n prev d : ℕ)
    → prev ≡ u32 t
    → d < 2 ^ 32
    → n + d < 2 ^ 64
    → u64 (n + sub_u32 (u32 (t + d)) prev) ≡ n + d
unrolled t n prev d e h k = omega arith

stamp_fits :
    (n freq : ℕ)
    → n * 1000 < 2 ^ 64
    → n * 1000 / freq < 2 ^ 32
    → u32 (u64 (n * 1000) / freq) ≡ n * 1000 / freq
stamp_fits n freq a b = let e : u64 (n * 1000) ≡ n * 1000 = omega arith in rw e (omega arith)

div_mono : (a b k : ℕ) → a ≤ b → a / k ≤ b / k
div_mono a b k h = grind arith

-- The times of the rows that a run adds.
added_times :
    (freq t : ℕ) (gs : List (ℕ × MotorShared)) (u : Updater)
    → u.prev_timestamp ≡ u32 t
    → Frequent gs
    → (u.timestamp64 + elapsed gs) * 1000 < 2 ^ 64
    → (u.timestamp64 + elapsed gs) * 1000 / freq < 2 ^ 32
    → map (λ row. row.time) (added_rows freq u (read_from t gs)) ≡ true_times freq u.timestamp64 gs
unfolding update
added_times freq t [] u e f a b = refl
added_times freq t ((d, shared) ∷ gs) u e f a b =
    ap₂ ◌∷◌ (rw real (stamp_fits (u.timestamp64 + d) freq (omega arith) early)) (
      added_times freq (t + d) gs (update freq u (u32 (t + d), shared)) refl f.1
        (rw real (rw total a)) (rw real (rw total b))
      ∙ ap (λ n. true_times freq n gs) real)
  where
    real : u64 (u.timestamp64 + sub_u32 (u32 (t + d)) u.prev_timestamp) ≡ u.timestamp64 + d
    real = unrolled t u.timestamp64 u.prev_timestamp d e f.0 (omega arith)

    total : u.timestamp64 + d + elapsed gs ≡ u.timestamp64 + (d + elapsed gs)
    total = omega arith

    early : (u.timestamp64 + d) * 1000 / freq < 2 ^ 32
    early = omega (
      arith,
      div_mono ((u.timestamp64 + d) * 1000) ((u.timestamp64 + (d + elapsed gs)) * 1000) freq
          (omega arith),
    )

-- Each number is no less than the one before it, and the first no less than `low`.
abbrev pub IsOrdered : ℕ → List ℕ → Type 0
IsOrdered low [] = Unit {0}
IsOrdered low (x ∷ xs) = (low ≤ x) × IsOrdered x xs

true_times-IsOrdered :
    (freq n : ℕ) (gs : List (ℕ × MotorShared)) → IsOrdered (n * 1000 / freq) (true_times freq n gs)
true_times-IsOrdered freq n [] = tt
true_times-IsOrdered freq n ((d, shared) ∷ gs) =
    (div_mono (n * 1000) ((n + d) * 1000) freq (omega arith), true_times-IsOrdered freq (n + d) gs)

-- Under the same conditions the times of the rows never fall: the x axis is ordered, as
-- `svg_draw_to_file_xy` asks of its caller.
times-IsOrdered :
    (freq t : ℕ) (gs : List (ℕ × MotorShared)) (u : Updater)
    → u.prev_timestamp ≡ u32 t
    → Frequent gs
    → (u.timestamp64 + elapsed gs) * 1000 < 2 ^ 64
    → (u.timestamp64 + elapsed gs) * 1000 / freq < 2 ^ 32
    → IsOrdered
        (u.timestamp64 * 1000 / freq)
        (map (λ row. row.time) (added_rows freq u (read_from t gs)))
times-IsOrdered freq t gs u e f a b =
    rw (added_times freq t gs u e f a b) (true_times-IsOrdered freq u.timestamp64 gs)

map-drop {ℓ κ} :
    {A : Type ℓ} {B : Type κ} (f : A → B) (n : ℕ) (xs : List A)
    → map f (drop n xs) ≡ drop n (map f xs)
map-drop f zero xs = refl
map-drop f (suc n) [] = refl
map-drop f (suc n) (x ∷ xs) = map-drop f n xs

map-append {ℓ κ} :
    {A : Type ℓ} {B : Type κ} (f : A → B) (xs ys : List A) → map f (xs ++ ys) ≡ map f xs ++ map f ys
map-append f [] ys = refl
map-append f (x ∷ xs) ys = ap (λ l. f x ∷ l) (map-append f xs ys)

length-read_from : (t : ℕ) (gs : List (ℕ × MotorShared)) → length (read_from t gs) ≡ length gs
length-read_from t [] = refl
length-read_from t ((d, shared) ∷ gs) = ap suc (length-read_from (t + d) gs)

-- However often the 32-bit counter wraps: after a run of the task on a valid history, the times in its
-- arrays, in the order in which the plots show them, are those from before followed by the true ones of
-- the rounds, in milliseconds since the start, less as many of the oldest as there are rounds; if the
-- rounds are less than a turn of the counter apart and the whole time fits: its ticks times 1000 in 64
-- bits, its milliseconds in 32 bits.
pub times_true :
    (freq t : ℕ) (gs : List (ℕ × MotorShared)) (u : Updater)
    → IsValid u.history
    → u.prev_timestamp ≡ u32 t
    → Frequent gs
    → (u.timestamp64 + elapsed gs) * 1000 < 2 ^ 64
    → (u.timestamp64 + elapsed gs) * 1000 / freq < 2 ^ 32
    → map (λ row. row.time) (shown (run freq u (read_from t gs)).history)
      ≡ drop
          (length gs)
          (map (λ row. row.time) (shown u.history) ++ true_times freq u.timestamp64 gs)
times_true freq t gs u v e f a b =
    ap (map (λ row. row.time)) (shown-run freq (read_from t gs) u v)
    ∙ map-drop (λ row. row.time) (length (read_from t gs))
        (shown u.history ++ added_rows freq u (read_from t gs))
    ∙ ap₂ drop (length-read_from t gs) (
        map-append (λ row. row.time) (shown u.history) (added_rows freq u (read_from t gs))
        ∙ ap (λ l. map (λ row. row.time) (shown u.history) ++ l) (added_times freq t gs u e f a b))
