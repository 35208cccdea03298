-- ===== src/Joining/Codes.antt =====
-- The loop that draws a code for a new room ends.
use skribbl_app.Prelude.{
  ℕ, ◌≤◌, ◌<◌, ◌≡◌, ◌≢◌, refl, sym, ◌∙◌, inl, inr, true, false, Bool-cases, not, some, List, [],
  ◌∷◌, arith, length, keep, any, ◌==◌,
}
use skribbl_app.Joining.Create.{has_code, generate_room_code}

-- No code is drawn twice.
abbrev pub IsFresh : List ℕ → Type 0
IsFresh [] = Unit
IsFresh (code ∷ codes) = (any (λ c. c == code) codes ≡ false) × IsFresh codes

module _ {ℓ} {A : Type ℓ} where
  abbrev without : ℕ → List (ℕ × A) → List (ℕ × A)
  without code rooms = keep (λ e. not (e.0 == code)) rooms

  length-without : (code : ℕ) (rooms : List (ℕ × A)) → length (without code rooms) ≤ length rooms
  length-without code [] = omega arith
  length-without code (e ∷ rooms) = ground (arith, length-without code rooms)

  length-without_taken :
      (code : ℕ) (rooms : List (ℕ × A))
      → has_code code rooms ≡ true
      → length (without code rooms) < length rooms
  length-without_taken code [] h = absurd (cc)
  length-without_taken code (e ∷ rooms) h =
      let shorter = length-without code rooms in
      let taken = length-without_taken code rooms in ground (arith, shorter, taken)

  has_code-without :
      (c code : ℕ) (rooms : List (ℕ × A))
      → c ≢ code
      → has_code c (without code rooms) ≡ has_code c rooms
  has_code-without c code [] other = refl
  has_code-without c code (e ∷ rooms) other = ground (arith, has_code-without c code rooms other)

  -- The loop goes the same way without a room whose code is not drawn.
  generate_without :
      (code : ℕ) (draws : List ℕ) (rooms : List (ℕ × A))
      → any (λ c. c == code) draws ≡ false
      → generate_room_code draws (without code rooms) ≡ generate_room_code draws rooms
  unfolding generate_room_code
  generate_without code [] rooms h = refl
  generate_without code (c ∷ draws) rooms h =
      let same = has_code-without c code rooms (λ e. ground arith) in
      let later = generate_without code draws rooms (ground arith) in rw (same, later) refl

  pub generate_free :
      (draws : List ℕ) (rooms : List (ℕ × A)) (found : ℕ)
      → generate_room_code draws rooms ≡ some found
      → has_code found rooms ≡ false
  unfolding generate_room_code
  generate_free [] rooms found e = absurd (cc)
  generate_free (code ∷ draws) rooms found e =
      let later = generate_free draws rooms found in
      elim (Bool-cases (has_code code rooms)) [
        | inl taken ↦ ground (arith, later)
        | inr free ↦ let is : code ≡ found = ground (arith, e) in rw⁻¹ is free
      ]

  -- Among codes of which none is drawn twice, and which are more than the rooms, the loop finds one,
  -- and the code that it finds is the code of no room.
  pub generate_room_code_total :
      (draws : List ℕ) (rooms : List (ℕ × A))
      → IsFresh draws
      → length rooms < length draws
      → (code : ℕ) × (generate_room_code draws rooms ≡ some code) × (has_code code rooms ≡ false)
  unfolding generate_room_code
  generate_room_code_total [] rooms fresh h = absurd (omega (arith, h))
  generate_room_code_total (code ∷ draws) rooms fresh h = elim (Bool-cases (has_code code rooms)) [
    | inr free ↦ rw free (code, refl, free)
    | inl taken ↦
        let shorter = length-without_taken code rooms taken in
        let (found, e, free) =
          generate_room_code_total draws (without code rooms) fresh.1 (omega arith) in
        let goes = sym (generate_without code draws rooms fresh.0) ∙ e in
        rw taken (found, goes, generate_free draws rooms found goes)
  ]
