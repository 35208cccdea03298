-- ===== src/Text/Mask.antt =====
-- A masked text does not hold the word any more.
use skribbl_app.Prelude.{
  ℕ, zero, suc, ◌-◌, ◌≡◌, refl, Bool, true, false, ◌||◌, [], ◌∷◌, length, All, arith, Bool-cases,
  inl, inr,
}
use skribbl_app.Text.{Text, Unicode, matches_at, mask_from, mask_word}

module _ (u : Unicode) where
  -- The word stands somewhere in the text, up to the case of letters.
  abbrev pub occurs : Text → Text → Bool
  occurs word [] = matches_at u word []
  occurs word (c ∷ text) = matches_at u word (c ∷ text) || occurs word text

  -- No character of the word is taken for an asterisk.
  abbrev pub NoStar : Text → Type 0
  NoStar word = All (λ w. u.same_letter w b'*' ≡ false) word

  -- A match in the masked text begins a match in the text.
  matches_at-mask_from :
      (word v text : Text)
      → NoStar v
      → matches_at u v (mask_from u zero word text) ≡ true
      → matches_at u v text ≡ true
  matches_at-mask_from word [] text n h = refl
  matches_at-mask_from word (x ∷ v) [] n h = h
  matches_at-mask_from word (x ∷ v) (c ∷ text) n h =
      elim (Bool-cases (matches_at u word (c ∷ text))) [
        | inl e ↦ ground (arith, n.0)
        | inr e ↦ ground (arith, matches_at-mask_from word v text n.1)
      ]

  occurs-mask_from :
      (skip w : ℕ) (word text : Text)
      → NoStar (w ∷ word)
      → occurs (w ∷ word) (mask_from u skip (w ∷ word) text) ≡ false
  occurs-mask_from skip w word [] n = refl
  occurs-mask_from (suc skip) w word (c ∷ text) n = occurs-mask_from skip w word text n
  occurs-mask_from zero w word (c ∷ text) n =
      elim (Bool-cases (matches_at u (w ∷ word) (c ∷ text))) [
        | inl e ↦ ground (arith, n.0, occurs-mask_from (suc (length word) - 1) w word text n)
        | inr e ↦ ground (
          arith,
          n.0,
          occurs-mask_from zero w word text n,
          matches_at-mask_from (w ∷ word) word text n.1,
        )
      ]

  -- Where no character of a non-empty word is taken for an asterisk, the masked text holds the
  -- word nowhere, whatever the case of its letters.
  pub occurs-mask_word :
      (w : ℕ) (word text : Text)
      → NoStar (w ∷ word)
      → occurs (w ∷ word) (mask_word u (w ∷ word) text) ≡ false
  unfolding mask_word
  occurs-mask_word w word text n = occurs-mask_from zero w word text n
