-- ===== src/Scoring.antt =====
-- backend/game_engine.py, `compute_guesser_score` and `compute_drawer_bonus`. Times are whole ticks
-- and the arithmetic is exact; the division by a duration of 0, which raises, gives 0 here.
pub mod Rounding
pub mod Bounds
pub mod Bonus
use skribbl_app.Prelude.{
  ℕ, zero, suc, ◌+◌, ◌-◌, ◌*◌, ◌/◌, ◌%◌, ◌≡◌, refl, min, max, List, [], ◌∷◌, length, ltb, ◌==◌,
  if◌then◌else◌,
}

-- `round(n / d)`: to the nearest integer, a tie to the even one.
unfoldable pub round_ratio : ℕ → ℕ → ℕ
round_ratio n d =
    let q = n / d in
    let r = n % d in
    if ltb (2 * r) d then q else if ltb d (2 * r) then q + 1 else if q % 2 == 0 then q else q + 1

-- The multipliers 1.5, 1.2, 1.0 and 0.9, in tenths.
unfoldable pub multiplier : ℕ → ℕ
multiplier position =
    if position == 1 then 15 else if position == 2 then 12 else if position == 3 then 10 else 9

-- `max(50, round(500 * (1 - ratio) ** 2))` for the ratio of elapsed to duration, cut off at 1.
unfoldable pub base_score : ℕ → ℕ → ℕ
unfolding round_ratio
base_score elapsed duration =
    let left = duration - min elapsed duration in
    max 50 (round_ratio (500 * (left * left)) (duration * duration))

unfoldable pub compute_guesser_score : ℕ → ℕ → ℕ → ℕ
unfolding base_score multiplier round_ratio
compute_guesser_score elapsed duration position =
    round_ratio (base_score elapsed duration * multiplier position) 10

abbrev pub sum : List ℕ → ℕ
sum [] = 0
sum (x ∷ xs) = x + sum xs

unfoldable pub compute_drawer_bonus : List ℕ → ℕ
unfolding round_ratio
compute_drawer_bonus [] = 0
compute_drawer_bonus (score ∷ scores) = round_ratio (sum (score ∷ scores)) (length (score ∷ scores))
