-- ===== src/Scoring/Rounding.antt =====
-- Rounding of a quotient is monotone and within bounds.
use skribbl_app.Prelude.{
  ℕ, ◌+◌, ◌*◌, ◌/◌, ◌%◌, ◌≤◌, ◌<◌, ◌≡◌, arith, ◌==◌, ap, Bool-cases, inl, inr,
}
use native.Mathlib.Nat.{div-add-mod', div-mul-le_self, le-div_iff_mul-le, mul-div_cancel}
use skribbl_app.Scoring.{round_ratio}

round_ratio-ge : (n d : ℕ) → n / d ≤ round_ratio n d
unfolding round_ratio
round_ratio-ge n d = ground arith

round_ratio-le : (n d : ℕ) → round_ratio n d ≤ n / d + 1
unfolding round_ratio
round_ratio-le n d = ground arith

round_ratio_same : (n m d : ℕ) → n / d ≡ m / d → n % d ≤ m % d → round_ratio n d ≤ round_ratio m d
unfolding round_ratio
round_ratio_same n m d q r = ground arith

div_mono : (n m d : ℕ) → 0 < d → n ≤ m → n / d ≤ m / d
div_mono n m d pos h = (le-div_iff_mul-le pos).1 (omega (arith, div-mul-le_self n d))

mod_mono : (n m d : ℕ) → n / d ≡ m / d → n ≤ m → n % d ≤ m % d
mod_mono n m d q h = omega (arith, div-add-mod' n d, div-add-mod' m d, ap (λ (x : ℕ). x * d) q)

pub round_ratio_mono : (n m d : ℕ) → 0 < d → n ≤ m → round_ratio n d ≤ round_ratio m d
round_ratio_mono n m d pos h = elim (Bool-cases (n / d == m / d)) [
  | inl e ↦ let q : n / d ≡ m / d = ground arith in round_ratio_same n m d q (mod_mono n m d q h)
  | inr e ↦
      let below : n / d < m / d = ground (arith, div_mono n m d pos h) in
      omega (arith, round_ratio-le n d, round_ratio-ge m d)
]

pub round_ratio-mul : (k d : ℕ) → 0 < d → round_ratio (k * d) d ≡ k
unfolding round_ratio
round_ratio-mul k d pos =
    let q : k * d / d ≡ k = mul-div_cancel k pos in
    let r : k * d % d ≡ 0 = omega (arith, div-add-mod' (k * d) d, ap (λ (x : ℕ). x * d) q) in
    ground (arith, q, r)

-- A quotient of at most `k` is rounded to at most `k`.
pub round_ratio-le_of_le : (n d k : ℕ) → 0 < d → n ≤ k * d → round_ratio n d ≤ k
round_ratio-le_of_le n d k pos h =
    omega (arith, round_ratio_mono n (k * d) d pos h, round_ratio-mul k d pos)

-- A quotient of at least `k` is rounded to at least `k`.
pub le-round_ratio_of_le : (n d k : ℕ) → 0 < d → k * d ≤ n → k ≤ round_ratio n d
le-round_ratio_of_le n d k pos h =
    omega (arith, round_ratio_mono (k * d) n d pos h, round_ratio-mul k d pos)
