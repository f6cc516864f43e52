-- ===== src/Motor/Quadrature.antt =====
-- The encoder of semestral_project/src/stepper_motor.c: TRANSITION_TABLE and the position that
-- `motor_isr` keeps, against the turns of the shaft.
use ctu_real_time_systems_pr.Base.{
  IsI32, List, [], arith, i32, i32-IsI32, i32_id, if◌then◌else◌, int_laws, negsuc, pos, refl, suc,
  sym, zero, ℕ, ℤ, ◌+ℤ◌, ◌<◌, ◌==◌, ◌∙◌, ◌∷◌, ◌≡◌,
}
use ctu_real_time_systems_pr.Motor.{Motor, motor_isr, table_at, read_state}

-- One turn of the shaft by one phase, or none.
pub data Turn : Type 0 where
  forth back still : Turn

-- The Gray code of the two channels, forward: 0, 1, 3, 2, and again 0.
abbrev pub next_phase : ℕ → ℕ
next_phase zero = 1
next_phase (suc zero) = 3
next_phase (suc (suc zero)) = 0
next_phase (suc (suc (suc _))) = 2

abbrev pub previous_phase : ℕ → ℕ
previous_phase zero = 2
previous_phase (suc zero) = 0
previous_phase (suc (suc zero)) = 3
previous_phase (suc (suc (suc _))) = 1

abbrev pub turned : Turn → ℕ → ℕ
turned forth s = next_phase s
turned back s = previous_phase s
turned still s = s

abbrev pub steps : Turn → ℤ
steps forth = pos 1
steps back = negsuc 0
steps still = pos 0

-- The table counts one step for a change to the next or the previous phase of the Gray code, and
-- nothing for no change and for a jump by two phases, of which the direction is unknown.
pub table_at_turns :
    (old new : ℕ)
    → old < 4
    → new < 4
    → table_at old new ≡ (
        if new == next_phase old
        then pos 1
        else (if new == previous_phase old then negsuc 0 else pos 0))
unfolding table_at
table_at_turns zero zero p q = refl
table_at_turns zero (suc zero) p q = refl
table_at_turns zero (suc (suc zero)) p q = refl
table_at_turns zero (suc (suc (suc zero))) p q = refl
table_at_turns (suc zero) zero p q = refl
table_at_turns (suc zero) (suc zero) p q = refl
table_at_turns (suc zero) (suc (suc zero)) p q = refl
table_at_turns (suc zero) (suc (suc (suc zero))) p q = refl
table_at_turns (suc (suc zero)) zero p q = refl
table_at_turns (suc (suc zero)) (suc zero) p q = refl
table_at_turns (suc (suc zero)) (suc (suc zero)) p q = refl
table_at_turns (suc (suc zero)) (suc (suc (suc zero))) p q = refl
table_at_turns (suc (suc (suc zero))) zero p q = refl
table_at_turns (suc (suc (suc zero))) (suc zero) p q = refl
table_at_turns (suc (suc (suc zero))) (suc (suc zero)) p q = refl
table_at_turns (suc (suc (suc zero))) (suc (suc (suc zero))) p q = refl
table_at_turns _ _ p q = absurd (omega arith)

-- Every state that is read is a phase, and every index into the table is below 16.
pub read_state-lt : (a b : ℕ) → read_state a b < 4
unfolding read_state
read_state-lt a b = ground arith

pub i32-add_i32 : (x y : ℤ) → i32 (i32 x +ℤ y) ≡ i32 (x +ℤ y)
unfolding i32 ◌+ℤ◌
i32-add_i32 (pos m) (pos n) = ground arith
i32-add_i32 (pos m) (negsuc n) = ground arith
i32-add_i32 (negsuc m) (pos n) = ground arith
i32-add_i32 (negsuc m) (negsuc n) = ground arith

pub isr_counts :
    (a b : ℕ) (m : Motor)
    → ((motor_isr a b m).shared.position
        ≡ i32 (m.shared.position +ℤ table_at m.motor_state (read_state a b)))
      × ((motor_isr a b m).motor_state ≡ read_state a b)
unfolding motor_isr
isr_counts a b m = ground arith

pub table_turned : (t : Turn) (s : ℕ) → s < 4 → table_at s (turned t s) ≡ steps t
unfolding table_at
table_turned forth zero h = refl
table_turned forth (suc zero) h = refl
table_turned forth (suc (suc zero)) h = refl
table_turned forth (suc (suc (suc zero))) h = refl
table_turned back zero h = refl
table_turned back (suc zero) h = refl
table_turned back (suc (suc zero)) h = refl
table_turned back (suc (suc (suc zero))) h = refl
table_turned still zero h = refl
table_turned still (suc zero) h = refl
table_turned still (suc (suc zero)) h = refl
table_turned still (suc (suc (suc zero))) h = refl
table_turned t (suc (suc (suc (suc s)))) h = absurd (omega arith)

+ℤ_assoc : (a b c : ℤ) → a +ℤ b +ℤ c ≡ a +ℤ (b +ℤ c)
+ℤ_assoc a b c = omega int_laws

+ℤ_zero : (a : ℤ) → a +ℤ pos 0 ≡ a
+ℤ_zero a = omega int_laws

-- The interrupts of a run, with the two words that each reads.
abbrev pub run_isr : List (ℕ × ℕ) → Motor → Motor
run_isr [] m = m
run_isr ((a, b) ∷ rs) m = run_isr rs (motor_isr a b m)

-- The readings show the shaft turned by `ts`, one turn for each interrupt, from the phase `s`.
abbrev pub Shows : ℕ → List (ℕ × ℕ) → List Turn → Type 0
Shows s [] [] = Unit {0}
Shows s ((a, b) ∷ rs) (t ∷ ts) = (read_state a b ≡ turned t s) × Shows (turned t s) rs ts
Shows s [] (t ∷ ts) = ⊥
Shows s (r ∷ rs) [] = ⊥

abbrev pub net : List Turn → ℤ
net [] = pos 0
net (t ∷ ts) = steps t +ℤ net ts

-- As long as no turn is missed, from a position of 32 bits and a phase of the encoder, the
-- position is the sum of the turns of the shaft, wrapped to 32 bits, however many interrupts
-- there are and whether or not they drive the motor.
pub position_tracks :
    (rs : List (ℕ × ℕ)) (ts : List Turn) (m : Motor)
    → m.motor_state < 4
    → IsI32 m.shared.position
    → Shows m.motor_state rs ts
    → (run_isr rs m).shared.position ≡ i32 (m.shared.position +ℤ net ts)
position_tracks [] [] m h r s = rw +ℤ_zero (sym (i32_id _ r))
position_tracks ((a, b) ∷ rs) (t ∷ ts) m h r s =
    position_tracks rs ts (motor_isr a b m) (rw c.1 (read_state-lt a b))
      (rw c.0 (i32-IsI32 (m.shared.position +ℤ table_at m.motor_state (read_state a b))))
      (rw (c.1, s.0) s.1)
    ∙ (rw (c.0, s.0, table_turned t m.motor_state h, i32-add_i32, +ℤ_assoc))
  where
    c :
        ((motor_isr a b m).shared.position
          ≡ i32 (m.shared.position +ℤ table_at m.motor_state (read_state a b)))
        × ((motor_isr a b m).motor_state ≡ read_state a b)
    c = isr_counts a b m
position_tracks [] (t ∷ ts) m h r s = absurd s
position_tracks (q ∷ rs) [] m h r s = absurd s
