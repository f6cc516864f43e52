-- ===== src/History/Rows.antt =====
-- What the plots show, and what happens to it while they are drawn: `generate_html_file` of
-- semestral_project/src/svg_generator.c beside `update_statistics`.
use mathlib.Core.List.{append_assoc, append-nil}
use ctu_real_time_systems_pr.Base.{
  ==_iff, List, [], ap, arith, drop, false, if-ne, length, refl, some, suc, sym, true, zero, ℕ, ◌%◌,
  ◌++◌, ◌+◌, ◌<◌, ◌==◌, ◌∙◌, ◌∷◌, ◌≡◌, ◌≢◌, ◌≤◌,
}
use ctu_real_time_systems_pr.Motor.{MotorShared}
use ctu_real_time_systems_pr.History.{
  Sample, History, Updater, update, run, sample_at, copy_rows, plot_rows, history_size,
  history_cyclic_array_size,
}
use ctu_real_time_systems_pr.History.Window.{
  window, shown, shown-update, IsValid, update-IsValid, added, slot, start-update, sample_at-update,
  length-window,
}

-- The copying loop ends when it comes to the index `n` places on, with the `n` rows before it.
copy_rows-window :
    (fuel : ℕ) (row : ℕ → Sample) (i n stop : ℕ)
    → n < fuel
    → i < history_cyclic_array_size
    → n < history_cyclic_array_size
    → stop ≡ (i + n) % history_cyclic_array_size
    → copy_rows fuel row i stop ≡ some (window row i n)
unfolding copy_rows window
copy_rows-window zero row i n stop f a b e = absurd (omega arith)
copy_rows-window (suc fuel) row i zero stop f a b e =
    let same : (i == stop) ≡ true = (==_iff i stop).1 (omega arith) in rw (same, copy_rows)
copy_rows-window (suc fuel) row i (suc n) stop f a b e =
    let other : (i == stop) ≡ false = ground arith in
    rw (
      other,
      copy_rows,
      copy_rows-window fuel row ((i + 1) % history_cyclic_array_size) n stop (omega arith)
          (omega arith) (omega arith) (omega arith),
    )

-- Of a valid history the plots always show exactly 800 rows, as many as their arrays have room
-- for: the copying loop ends, and it copies the window in order.
pub plot_rows_lem :
    (h : History) → IsValid h → (plot_rows h ≡ some (shown h)) × (length (shown h) ≡ history_size)
unfolding plot_rows
plot_rows_lem h v = (
  copy_rows-window (suc history_cyclic_array_size) (sample_at h) h.array_start_index history_size _
      (omega arith) v.start (omega arith) (omega (arith, v.start)),
  length-window (sample_at h) h.array_start_index history_size,
)

-- The rows that the rounds of a run add.
abbrev pub added_rows : ℕ → Updater → List (ℕ × MotorShared) → List Sample
added_rows freq u [] = []
added_rows freq u (r ∷ rs) = added freq u r ∷ added_rows freq (update freq u r) rs

run-IsValid :
    (freq : ℕ) (u : Updater) (rs : List (ℕ × MotorShared))
    → IsValid u.history
    → IsValid (run freq u rs).history
run-IsValid freq u [] v = v
run-IsValid freq u (r ∷ rs) v = run-IsValid freq (update freq u r) rs (update-IsValid freq u r v)

drop_one-append {ℓ} :
    {A : Type ℓ} (xs ys : List A) → 0 < length xs → drop 1 (xs ++ ys) ≡ drop 1 xs ++ ys
drop_one-append [] ys h = elim h [ ]
drop_one-append (x ∷ xs) ys h = refl

drop-drop_one {ℓ} : {A : Type ℓ} (n : ℕ) (xs : List A) → drop n (drop 1 xs) ≡ drop (suc n) xs
drop-drop_one zero [] = refl
drop-drop_one (suc n) [] = refl
drop-drop_one n (x ∷ xs) = refl

-- After any run on a valid history the plots show the newest 800 of the rows: those that they
-- showed before, followed by those of the run, less as many of the oldest as the run has
-- rounds.
pub shown-run :
    (freq : ℕ) (rs : List (ℕ × MotorShared)) (u : Updater)
    → IsValid u.history
    → shown (run freq u rs).history ≡ drop (length rs) (shown u.history ++ added_rows freq u rs)
shown-run freq [] u v = rw append-nil
shown-run freq (r ∷ rs) u v =
    shown-run freq rs (update freq u r) (update-IsValid freq u r v)
    ∙ ap (λ l. drop (length rs) (l ++ added_rows freq (update freq u r) rs))
        (shown-update freq u r v)
    ∙ ap (drop (length rs)) (
        append_assoc (drop 1 (shown u.history)) (added freq u r ∷ [])
          (added_rows freq (update freq u r) rs)
        ∙ sym (
            drop_one-append (shown u.history)
              (added freq u r ∷ added_rows freq (update freq u r) rs) nonempty))
    ∙ drop-drop_one (length rs)
        (shown u.history ++ added freq u r ∷ added_rows freq (update freq u r) rs)
  where
    nonempty : 0 < length (shown u.history)
    nonempty =
        omega (arith, length-window (sample_at u.history) u.history.array_start_index history_size)

-- `m` rounds after the window began at `s`.
still_there :
    (freq : ℕ) (rs : List (ℕ × MotorShared)) (u : Updater) (s k m : ℕ)
    → IsValid u.history
    → u.history.array_start_index ≡ (s + m) % history_cyclic_array_size
    → m + length rs ≤ 400
    → k < history_size
    → sample_at (run freq u rs).history ((s + k) % history_cyclic_array_size)
      ≡ sample_at u.history ((s + k) % history_cyclic_array_size)
still_there freq [] u s k m v e few h = refl
still_there freq (r ∷ rs) u s k m v e few h =
    still_there freq rs (update freq u r) s k (m + 1) (update-IsValid freq u r v)
      (start-update freq u r v ∙ later) (omega arith) h
    ∙ sample_at-update freq u r ((s + k) % history_cyclic_array_size) v
    ∙ if-ne ((s + k) % history_cyclic_array_size) (slot u.history.array_start_index) _ _ apart
  where
    later :
        (u.history.array_start_index + 1) % history_cyclic_array_size
        ≡ (s + (m + 1)) % history_cyclic_array_size
    later = omega arith

    apart : (s + k) % history_cyclic_array_size ≢ slot u.history.array_start_index
    apart = omega arith

-- While a plot of a valid history is drawn, the task may run on: up to 400 rounds change no row
-- of the window that was to be copied.
pub gap_protects :
    (freq : ℕ) (rs : List (ℕ × MotorShared)) (u : Updater) (k : ℕ)
    → IsValid u.history
    → length rs ≤ 400
    → k < history_size
    → sample_at
        (run freq u rs).history
        ((u.history.array_start_index + k) % history_cyclic_array_size)
      ≡ sample_at u.history ((u.history.array_start_index + k) % history_cyclic_array_size)
gap_protects freq rs u k v few h =
    still_there freq rs u u.history.array_start_index k 0 v (omega (arith, v.start)) (omega arith) h
