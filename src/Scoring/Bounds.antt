-- ===== src/Scoring/Bounds.antt =====
-- The range of a guesser's score, and how it falls with time and with the place among the guessers.
use skribbl_app.Prelude.{ℕ, ◌-◌, ◌*◌, ◌≤◌, ◌<◌, min, arith}
use skribbl_app.Scoring.{multiplier, base_score, compute_guesser_score}
use skribbl_app.Scoring.Rounding.{round_ratio_mono, round_ratio-le_of_le, le-round_ratio_of_le}

square_mono : (a b : ℕ) → a ≤ b → a * a ≤ b * b
square_mono a b h = grind arith

square_pos : (a : ℕ) → 0 < a → 0 < a * a
square_pos a h = grind arith

base_score_bounds :
    (elapsed duration : ℕ)
    → 0 < duration
    → (50 ≤ base_score elapsed duration) × (base_score elapsed duration ≤ 500)
unfolding base_score
base_score_bounds elapsed duration pos =
    let left = duration - min elapsed duration in
    let top =
      round_ratio-le_of_le (500 * (left * left)) (duration * duration) 500 (square_pos duration pos)
        (omega (arith, square_mono left duration (omega arith))) in
    (omega arith, omega (arith, top))

base_score_antitone :
    (e e' duration : ℕ) → 0 < duration → e ≤ e' → base_score e' duration ≤ base_score e duration
unfolding base_score
base_score_antitone e e' duration pos h =
    let late = duration - min e' duration in
    let early = duration - min e duration in
    let lower =
      round_ratio_mono (500 * (late * late)) (500 * (early * early)) (duration * duration)
        (square_pos duration pos) (omega (arith, square_mono late early (omega arith))) in
    omega (arith, lower)

multiplier_bounds : (position : ℕ) → (9 ≤ multiplier position) × (multiplier position ≤ 15)
unfolding multiplier
multiplier_bounds position = ground arith

multiplier_antitone : (p p' : ℕ) → 1 ≤ p → p ≤ p' → multiplier p' ≤ multiplier p
unfolding multiplier
multiplier_antitone p p' h k = ground arith

product_mono : (a b c d : ℕ) → a ≤ b → c ≤ d → a * c ≤ b * d
product_mono a b c d h k = grind arith

-- Over a positive turn duration, a correct guess scores from 45 to 750 points at every time and at
-- every position.
pub compute_guesser_score_bounds :
    (elapsed duration position : ℕ)
    → 0 < duration
    → (45 ≤ compute_guesser_score elapsed duration position)
      × (compute_guesser_score elapsed duration position ≤ 750)
unfolding compute_guesser_score
compute_guesser_score_bounds elapsed duration position pos =
    let (low, high) = base_score_bounds elapsed duration pos in
    let (slow, fast) = multiplier_bounds position in
    let n = base_score elapsed duration * multiplier position in
    (
      le-round_ratio_of_le n 10 45 (omega arith) (
          omega (
            arith,
            product_mono 50 (base_score elapsed duration) 9 (multiplier position) low slow,
          )),
      round_ratio-le_of_le n 10 750 (omega arith) (
          omega (
            arith,
            product_mono (base_score elapsed duration) 500 (multiplier position) 15 high fast,
          )),
    )

-- Over a positive turn duration, a guess that is later in time and in position, positions counted
-- from 1, never scores more.
pub compute_guesser_score_antitone :
    (e e' duration p p' : ℕ)
    → 0 < duration
    → e ≤ e'
    → 1 ≤ p
    → p ≤ p'
    → compute_guesser_score e' duration p' ≤ compute_guesser_score e duration p
unfolding compute_guesser_score
compute_guesser_score_antitone e e' duration p p' pos h first k =
    round_ratio_mono (base_score e' duration * multiplier p') (base_score e duration * multiplier p)
      10 (omega arith)
      (product_mono (base_score e' duration) (base_score e duration) (multiplier p') (multiplier p)
        (base_score_antitone e e' duration pos h) (multiplier_antitone p p' first k))
