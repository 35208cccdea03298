-- ===== src/Scoring/Bonus.antt =====
-- The drawer's bonus is an average.
use skribbl_app.Prelude.{ℕ, ◌*◌, ◌≤◌, List, [], ◌∷◌, length, All, arith}
use skribbl_app.Scoring.{sum, compute_drawer_bonus}
use skribbl_app.Scoring.Rounding.{round_ratio-le_of_le, le-round_ratio_of_le}

sum_bounds :
    (lo hi : ℕ) (scores : List ℕ)
    → All (λ s. (lo ≤ s) × (s ≤ hi)) scores
    → (lo * length scores ≤ sum scores) × (sum scores ≤ hi * length scores)
sum_bounds lo hi [] h = (omega arith, omega arith)
sum_bounds lo hi (s ∷ scores) h =
    let (low, high) = sum_bounds lo hi scores h.1 in (omega arith, omega arith)

-- When some guesser scored, the drawer's bonus lies between any bounds on the guessers' scores.
pub compute_drawer_bonus_bounds :
    (lo hi s : ℕ) (scores : List ℕ)
    → All (λ x. (lo ≤ x) × (x ≤ hi)) (s ∷ scores)
    → (lo ≤ compute_drawer_bonus (s ∷ scores)) × (compute_drawer_bonus (s ∷ scores) ≤ hi)
unfolding compute_drawer_bonus
compute_drawer_bonus_bounds lo hi s scores h =
    let (low, high) = sum_bounds lo hi (s ∷ scores) h in
    (
      le-round_ratio_of_le (sum (s ∷ scores)) (length (s ∷ scores)) lo (omega arith) low,
      round_ratio-le_of_le (sum (s ∷ scores)) (length (s ∷ scores)) hi (omega arith) high,
    )
