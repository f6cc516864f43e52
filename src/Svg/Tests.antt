-- ===== src/Svg/Tests.antt =====
-- The theorems on the plots at inputs that meet their hypotheses.
use mathlib.Core.List.{Memᴰ}
use mathlib.Core.List.Memᴰ
use ctu_real_time_systems_pr.Base.{
  Bool, List, [], abs, ap, arith, leb, ltb, map, negsuc, none, pos, pos_part, refl, replicate, some,
  true, ℕ, ℤ, ◌&&◌, ◌+◌, ◌<◌, ◌^◌, ◌∙◌, ◌∷◌, ◌≡◌, ◌≤ℤ◌,
}
use ctu_real_time_systems_pr.Float.{inf, single, fin, nan, of_int}
use ctu_real_time_systems_pr.History.{History, Sample}
use ctu_real_time_systems_pr.History.Window.{IsValid, shown, window}
use ctu_real_time_systems_pr.Svg.{Piece, cordx, cordy, max_min, path_points}
use ctu_real_time_systems_pr.Svg.Draw.{context, plot_context}
use ctu_real_time_systems_pr.Svg.Accuracy.Points.{IsOn, IsPlaced, points-IsPlaced}
use ctu_real_time_systems_pr.Svg.Markup.{IsClosed}
use ctu_real_time_systems_pr.Svg.Extremes.{IsSmall, IsExtremes, float_at, max_min_lem}
use ctu_real_time_systems_pr.Svg.Plottable.{IsPlottable}
use ctu_real_time_systems_pr.Svg.Flat.{flat_context, without_y, path_points-flat}
use ctu_real_time_systems_pr.Svg.Page.{html_page, generate_html_file}
use ctu_real_time_systems_pr.Svg.Page.WellFormed.{IsDrawable, html_page-IsClosed}
use ctu_real_time_systems_pr.Svg.Page.Hang.{generate_html_file-hangs}

-- A motor that stood one step higher when the history began.
abbrev stepped : ℕ → History
stepped n = record {
  position = pos (n + 1) ∷ replicate 1199 (pos n);
  desired_position = replicate 1200 (pos 7);
  pwm_duty = replicate 1200 (pos 3);
  timestamp = 100 ∷ replicate 1199 1700;
  timestamp_start = 0;
  array_start_index = 0;
}

stepped-IsValid : (n : ℕ) → IsValid (stepped n)
stepped-IsValid n = record {
  positions = refl;
  desired_positions = refl;
  duties = refl;
  timestamps = refl;
  start = omega arith;
}

-- A test that every entry of a list passes.
abbrev every {ℓ} : {A : Type ℓ} → (A → Bool) → List A → Bool
every test [] = true
every test (a ∷ as') = test a && every test as'

every-Memᴰ {ℓ} :
    {A : Type ℓ} (test : A → Bool) (as' : List A)
    → every test as' ≡ true
    → (a : A) → Memᴰ a as'
    → test a ≡ true
every-Memᴰ test [] h a m = absurd (Memᴰ.not-nil m)
every-Memᴰ test (b ∷ bs) h a (Memᴰ.head e) = ap test e ∙ first h
  where
    first : test b && every test bs ≡ true → test b ≡ true
    first h = ground arith
every-Memᴰ test (b ∷ bs) h a (Memᴰ.tail m) = every-Memᴰ test bs (rest h) a m
  where
    rest : test b && every test bs ≡ true → every test bs ≡ true
    rest h = ground arith

abbrev is_small : Sample → Bool
is_small r = ltb (abs r.actual) 524288 && ltb (abs r.desired) 524288 && ltb (abs r.pwm) 524288

small_values :
    (r : Sample)
    → is_small r ≡ true
    → (abs r.actual < 2 ^ 19) × (abs r.desired < 2 ^ 19) × (abs r.pwm < 2 ^ 19)
small_values r h = ground arith

stepped-IsDrawable : IsDrawable (shown (stepped 40))
unfolding window
stepped-IsDrawable = record {
  times = record {
    low_small = omega arith;
    high_small = omega arith;
    plottable = IsPlottable.ranged 0 (omega arith) (omega arith) (omega arith) (omega arith);
  };
  values = λ r m. small_values r (every-Memᴰ is_small (shown (stepped 40)) refl r m);
}

html_page-IsClosed_example : (ps : List Piece) × (html_page 34 (stepped 40) ≡ some ps) × IsClosed ps
html_page-IsClosed_example =
    html_page-IsClosed 34 (stepped 40) (omega arith) (stepped-IsValid 40) stepped-IsDrawable

abbrev is_step : ℤ → Bool
is_step z = leb 2097152 (pos_part z) && leb (pos_part z) 2097153

step_between : (z : ℤ) → is_step z ≡ true → (pos 2097152 ≤ℤ z) × (z ≤ℤ pos 2097153)
step_between z h = ground arith

stepped-IsExtremes :
    IsExtremes (pos 2097152) (pos 2097153) (map (λ r. r.actual) (shown (stepped 2097152)))
unfolding window
stepped-IsExtremes = record {
  least = λ y m.
      (step_between y
        (every-Memᴰ is_step (map (λ r. r.actual) (shown (stepped 2097152))) refl y m)).0;
  greatest = λ y m.
      (step_between y
        (every-Memᴰ is_step (map (λ r. r.actual) (shown (stepped 2097152))) refl y m)).1;
  low_attained = Memᴰ.tail (Memᴰ.head refl);
  high_attained = Memᴰ.head refl;
}

generate_html_file-hangs_example : generate_html_file 1000 (stepped 2097152) ≡ none
generate_html_file-hangs_example =
    generate_html_file-hangs 2097152 (omega arith) (omega arith) (stepped 2097152)
      (stepped-IsValid 2097152) stepped-IsExtremes 1000

abbrev heights : List ℤ
heights = pos 8 ∷ negsuc 2 ∷ pos 11 ∷ pos 0 ∷ []

heights-IsSmall : IsSmall heights
heights-IsSmall y m = small (abs y) (every-Memᴰ (λ z. ltb (abs z) 20) heights refl y m)
  where
    small : (n : ℕ) → ltb n 20 ≡ true → n < 2 ^ 23
    small n h = ground arith

max_min_lem_example :
    (low high : ℤ) × (max_min (map (of_int single) heights) (nan, nan)
      ≡ (float_at low, float_at high))
    × IsExtremes low high heights
max_min_lem_example =
    max_min_lem (pos 8) (negsuc 2 ∷ pos 11 ∷ pos 0 ∷ []) (nan, nan) heights-IsSmall

path_points-flat_example :
    path_points
      (flat_context context (fin (pos 0), inf) (float_at (pos 5)))
      true
      ((fin (pos 0), float_at (pos 5)) ∷ (nan, float_at (pos 5)) ∷ [])
    ≡ without_y
        (flat_context context (fin (pos 0), inf) (float_at (pos 5)))
        true
        (fin (pos 0) ∷ nan ∷ [])
path_points-flat_example =
    path_points-flat context (fin (pos 0), inf) true (pos 5) (fin (pos 0) ∷ nan ∷ []) (omega arith)

times-IsOn : IsOn (pos 100) (pos 1700) (pos 333)
times-IsOn = record {
  low_small = omega arith;
  high_small = omega arith;
  wide = omega arith;
  from_low = omega arith;
  to_high = omega arith;
}

heights-IsOn : IsOn (negsuc 6) (pos 0) (negsuc 2)
heights-IsOn = record {
  low_small = omega arith;
  high_small = omega arith;
  wide = omega arith;
  from_low = omega arith;
  to_high = omega arith;
}

points-IsPlaced_example :
    let drawn =
      plot_context context
        (float_at (pos 100), float_at (pos 1700))
        (float_at (negsuc 6), float_at (pos 0)) in
    IsPlaced 900 (pos 100) (pos 1700) (pos 333) (cordx drawn (float_at (pos 333)))
    × IsPlaced 200 (negsuc 6) (pos 0) (negsuc 2) (cordy drawn (float_at (negsuc 2)))
points-IsPlaced_example =
    points-IsPlaced context (pos 100) (pos 1700) (pos 333) (negsuc 6) (pos 0) (negsuc 2) times-IsOn
      heights-IsOn
