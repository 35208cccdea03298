-- ===== src/Guess/Clean.antt =====
-- What the filter leaves of a text.
use skribbl_app.Prelude.{
  ℕ, zero, suc, ◌≡◌, refl, inl, inr, true, false, Bool-cases, List, [], ◌∷◌, map, All, keep, length,
  replicate,
}
use skribbl_app.Text.{Text, Unicode, mem_text, split}
use skribbl_app.Text.Pieces.{NoSpace, IsWord, split-IsWord, split-join_spaces}
use skribbl_app.Guess.{star, censor, filter_profanity}

-- What is relied on of Python's tables: a space and an asterisk are what they are, and asterisks have
-- no letters or digits.
pub record Plain (u : Unicode) : Type 0 where
  pub space : u.is_space b' ' ≡ true
  pub visible : u.is_space star ≡ false
  pub no_letters : (n : ℕ) → keep u.is_alnum (u.lower (replicate n star)) ≡ []

module _ (u : Unicode) (banned : List Text) where
  -- The letters and digits of a word are no word of the table.
  abbrev pub IsClean : Text → Type 0
  IsClean word = mem_text (keep u.is_alnum (u.lower word)) banned ≡ false

  module _ (plain : Plain u) where
    stars-NoSpace : (n : ℕ) → NoSpace u (replicate n star)
    stars-NoSpace zero = tt
    stars-NoSpace (suc n) = (plain.visible, stars-NoSpace n)

    stars-IsWord : (word : Text) → IsWord u word → IsWord u (replicate (length word) star)
    stars-IsWord [] h = h
    stars-IsWord (c ∷ word) h = stars-NoSpace (suc (length word))

    censor-IsWord : (word : Text) → IsWord u word → IsWord u (censor u banned word)
    censor-IsWord word h = elim (Bool-cases (mem_text (keep u.is_alnum (u.lower word)) banned)) [
      | inl e ↦ rw e (stars-IsWord word h)
      | inr e ↦ rw e h
    ]

    censor-IsClean : mem_text [] banned ≡ false → (word : Text) → IsClean (censor u banned word)
    censor-IsClean letters word =
        elim (Bool-cases (mem_text (keep u.is_alnum (u.lower word)) banned)) [
          | inl e ↦ rw (e, plain.no_letters (length word)) letters
          | inr e ↦ rw (e, e) refl
        ]

    censored-IsWord :
        (words : List Text) → All (IsWord u) words → All (IsWord u) (map (censor u banned) words)
    censored-IsWord [] h = tt
    censored-IsWord (w ∷ words) h = (censor-IsWord w h.0, censored-IsWord words h.1)

    censored-IsClean :
        mem_text [] banned ≡ false → (words : List Text) → All IsClean (map (censor u banned) words)
    censored-IsClean letters [] = tt
    censored-IsClean letters (w ∷ words) =
        (censor-IsClean letters w, censored-IsClean letters words)

    -- No word of a filtered text has letters and digits that make a word of the table, where the table
    -- has no empty word.
    pub split-filter_profanity :
        (text : Text)
        → mem_text [] banned ≡ false
        → All IsClean (split u (filter_profanity u banned text))
    unfolding filter_profanity
    split-filter_profanity [] letters = unfold split in tt
    split-filter_profanity (c ∷ text) letters =
        let words = split u (c ∷ text) in
        let same =
          split-join_spaces u (map (censor u banned) words) plain.space
            (censored-IsWord words (split-IsWord u (c ∷ text))) in
        rw same (censored-IsClean letters words)
