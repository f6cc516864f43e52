-- ===== src/History/Window.antt =====
-- The history of semestral_project/src/statistics_updater.c as a window that slides over the samples.
use ctu_real_time_systems_pr.Base.{
  List, [], ap, ap₂, arith, drop, get_or, get_or-set, if-eq, if-ne, if◌then◌else◌, length,
  length-set, pos, refl, set, sub_u32, suc, u32, u64, zero, ℕ, ◌%◌, ◌*◌, ◌++◌, ◌+◌, ◌/◌, ◌<◌, ◌==◌,
  ◌∙◌, ◌∷◌, ◌≡◌, ◌≢◌,
}
use ctu_real_time_systems_pr.Motor.{MotorShared}
use ctu_real_time_systems_pr.History.{
  Sample, History, Updater, update, sample_at, history_size, history_cyclic_array_size,
}

-- `n` rows from the index `i` on, going round.
unfoldable pub window {ℓ} : {A : Type ℓ} → (ℕ → A) → ℕ → ℕ → List A
window row i zero = []
window row i (suc n) = row i ∷ window row ((i + 1) % history_cyclic_array_size) n

-- The arrays have their size, and the window starts in them.
pub record IsValid (h : History) : Type 0 where
  pub positions : length h.position ≡ history_cyclic_array_size
  pub desired_positions : length h.desired_position ≡ history_cyclic_array_size
  pub duties : length h.pwm_duty ≡ history_cyclic_array_size
  pub timestamps : length h.timestamp ≡ history_cyclic_array_size
  pub start : h.array_start_index < history_cyclic_array_size

-- The row that a round adds.
abbrev pub added : ℕ → Updater → ℕ × MotorShared → Sample
added freq u (cur, shared) = record {
  desired = shared.desired_position;
  actual = shared.position;
  pwm = shared.pwm_duty;
  time = u32 (u64 ((u64 (u.timestamp64 + sub_u32 cur u.prev_timestamp)) * 1000) / freq);
}

-- Every round keeps the arrays in shape.
pub update-IsValid :
    (freq : ℕ) (u : Updater) (r : ℕ × MotorShared)
    → IsValid u.history
    → IsValid (update freq u r).history
unfolding update
update-IsValid freq u (cur, shared) v = record {
  positions = length-set _ _ _ ∙ v.positions;
  desired_positions = length-set _ _ _ ∙ v.desired_positions;
  duties = length-set _ _ _ ∙ v.duties;
  timestamps = length-set _ _ _ ∙ v.timestamps;
  start = omega arith;
}

-- The index that a round writes, and an array after the write.
abbrev pub slot : ℕ → ℕ
slot start = (start + history_size) % history_cyclic_array_size

get_or-slot {ℓ} :
    {A : Type ℓ} (xs : List A) (start j : ℕ) (v d : A)
    → length xs ≡ history_cyclic_array_size
    → start < history_cyclic_array_size
    → get_or (set xs (u32 (start + history_size) % history_cyclic_array_size) v) j d
      ≡ (if j == slot start then v else get_or xs j d)
get_or-slot xs start j v d e h =
    let same : u32 (start + history_size) % history_cyclic_array_size ≡ slot start = omega arith in
    rw same (get_or-set xs (slot start) j v d (omega arith))

-- A round changes the row behind the window, and no other.
pub sample_at-update :
    (freq : ℕ) (u : Updater) (r : ℕ × MotorShared) (j : ℕ)
    → IsValid u.history
    → sample_at (update freq u r).history j ≡ (
        if j == (u.history.array_start_index + history_size) % history_cyclic_array_size
        then added freq u r
        else sample_at u.history j)
unfolding update
sample_at-update freq u (cur, shared) j v = ground (
  arith,
  get_or-slot u.history.desired_position u.history.array_start_index j shared.desired_position
      (pos 0) v.desired_positions v.start,
  get_or-slot u.history.position u.history.array_start_index j shared.position (pos 0) v.positions
      v.start,
  get_or-slot u.history.pwm_duty u.history.array_start_index j shared.pwm_duty (pos 0) v.duties
      v.start,
  get_or-slot u.history.timestamp u.history.array_start_index j (added freq u (cur, shared)).time 0
      v.timestamps v.start,
)

-- Rows that agree at the indices of a window make the same window.
window_ext {ℓ} :
    {A : Type ℓ} (f g : ℕ → A) (i n : ℕ)
    → ((k : ℕ)
        → k < n
        → f ((i + k) % history_cyclic_array_size) ≡ g ((i + k) % history_cyclic_array_size))
    → i < history_cyclic_array_size
    → window f i n ≡ window g i n
unfolding window
window_ext f g i zero h lt = refl
window_ext f g i (suc n) h lt = ap₂ ◌∷◌ (rw first at (h 0 (omega arith))) (
    window_ext f g ((i + 1) % history_cyclic_array_size) n
      (λ k q. rw (next k) (h (suc k) (omega arith))) (omega arith))
  where
    first : (i + 0) % history_cyclic_array_size ≡ i
    first = omega arith

    next :
        (k : ℕ)
        → ((i + 1) % history_cyclic_array_size + k) % history_cyclic_array_size
          ≡ (i + suc k) % history_cyclic_array_size
    next k = omega arith

-- A window one longer has the next row at its end.
window-snoc {ℓ} :
    {A : Type ℓ} (f : ℕ → A) (i n : ℕ)
    → i < history_cyclic_array_size
    → window f i (suc n) ≡ window f i n ++ (f ((i + n) % history_cyclic_array_size) ∷ [])
unfolding window
window-snoc f i zero lt =
    let first : (i + 0) % history_cyclic_array_size ≡ i = omega arith in rw first
window-snoc f i (suc n) lt =
    let next : ((i + 1) % history_cyclic_array_size + n) % history_cyclic_array_size
        ≡ (i + suc n) % history_cyclic_array_size =
      omega arith in
    rw (← next)
      (ap (λ l. f i ∷ l) (window-snoc f ((i + 1) % history_cyclic_array_size) n (omega arith)))

-- A window slides by one, if only the row behind it has changed.
window_slides {ℓ} :
    {A : Type ℓ} (f g : ℕ → A) (i m : ℕ)
    → i < history_cyclic_array_size
    → suc m < history_cyclic_array_size
    → ((j : ℕ) → j ≢ (i + suc m) % history_cyclic_array_size → g j ≡ f j)
    → window g ((i + 1) % history_cyclic_array_size) (suc m)
      ≡ drop 1 (window f i (suc m)) ++ (g ((i + suc m) % history_cyclic_array_size) ∷ [])
unfolding window
window_slides f g i m lt small same =
    window-snoc g ((i + 1) % history_cyclic_array_size) m (omega arith)
    ∙ ap₂ (λ l k. l ++ (g k ∷ []))
        (window_ext g f ((i + 1) % history_cyclic_array_size) m (λ k q. same _ (omega arith))
          (omega arith))
        (omega arith)

-- The rows that the plots show.
abbrev pub shown : History → List Sample
shown h = window (sample_at h) h.array_start_index history_size

pub start-update :
    (freq : ℕ) (u : Updater) (r : ℕ × MotorShared)
    → IsValid u.history
    → (update freq u r).history.array_start_index
      ≡ (u.history.array_start_index + 1) % history_cyclic_array_size
unfolding update
start-update freq u (cur, shared) v = omega arith

-- A round shifts the window by one: the oldest row goes, and the row of the round is the newest.
pub shown-update :
    (freq : ℕ) (u : Updater) (r : ℕ × MotorShared)
    → IsValid u.history
    → shown (update freq u r).history ≡ drop 1 (shown u.history) ++ (added freq u r ∷ [])
shown-update freq u r v = rw (start-update freq u r v) (
    window_slides (sample_at u.history) (sample_at (update freq u r).history)
      u.history.array_start_index 799 v.start (omega arith)
      (λ j h. sample_at-update freq u r j v ∙ if-ne j (slot u.history.array_start_index) _ _ h)
    ∙ ap (λ k. drop 1 (shown u.history) ++ (k ∷ []))
        (sample_at-update freq u r (slot u.history.array_start_index) v
          ∙ if-eq (slot u.history.array_start_index) (slot u.history.array_start_index) _ _ refl))

pub length-window {ℓ} : {A : Type ℓ} (f : ℕ → A) (i n : ℕ) → length (window f i n) ≡ n
unfolding window
length-window f i zero = refl
length-window f i (suc n) = ap suc (length-window f ((i + 1) % history_cyclic_array_size) n)
