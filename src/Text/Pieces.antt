-- ===== src/Text/Pieces.antt =====
-- The words of a text, taken apart by `split` and joined by spaces.
use skribbl_app.Prelude.{
  ◌≡◌, refl, sym, ap, ◌∙◌, inl, inr, true, false, Bool-cases, List, [], ◌∷◌, ◌++◌, All, All-append,
  append_assoc, append_nil,
}
use skribbl_app.Text.{Text, Unicode, close_word, split_from, split, join_spaces}

module _ (u : Unicode) where
  abbrev pub NoSpace : Text → Type 0
  NoSpace text = All (λ c. u.is_space c ≡ false) text

  -- A piece of a text between spaces.
  abbrev pub IsWord : Text → Type 0
  IsWord [] = ⊥
  IsWord (c ∷ word) = NoSpace (c ∷ word)

  close_word-IsWord :
      (word : Text) (words : List Text)
      → NoSpace word
      → All IsWord words
      → All IsWord (close_word u word words)
  close_word-IsWord [] words h k = k
  close_word-IsWord (c ∷ word) words h k = (h, k)

  split_from-IsWord : (word text : Text) → NoSpace word → All IsWord (split_from u word text)
  split_from-IsWord word [] h = close_word-IsWord word [] h tt
  split_from-IsWord word (c ∷ text) h = elim (Bool-cases (u.is_space c)) [
    | inl e ↦ rw e (close_word-IsWord word _ h (split_from-IsWord [] text tt))
    | inr e ↦ rw e (
        split_from-IsWord (word ++ c ∷ []) text
          (All-append (λ x. u.is_space x ≡ false) word (c ∷ []) h (e, tt)))
  ]

  -- The pieces of a text are words.
  pub split-IsWord : (text : Text) → All IsWord (split u text)
  unfolding split
  split-IsWord text = split_from-IsWord [] text tt

  split_from-append :
      (begun word rest : Text)
      → NoSpace word
      → split_from u begun (word ++ rest) ≡ split_from u (begun ++ word) rest
  split_from-append begun [] rest h = ap (λ b. split_from u b rest) (sym (append_nil begun))
  split_from-append begun (c ∷ word) rest h = rw h.0 (
      split_from-append (begun ++ c ∷ []) word rest h.1
      ∙ ap (λ b. split_from u b rest) (append_assoc begun (c ∷ []) word))

  close-word :
      (word : Text) (words : List Text) → IsWord word → close_word u word words ≡ word ∷ words
  close-word [] words h = absurd h
  close-word (c ∷ word) words h = refl

  spaceless : (word : Text) → IsWord word → NoSpace word
  spaceless [] h = absurd h
  spaceless (c ∷ word) h = h

  -- Words that are joined by spaces are the pieces of the text again.
  pub split-join_spaces :
      (words : List Text)
      → u.is_space b' ' ≡ true
      → All IsWord words
      → split u (join_spaces words) ≡ words
  unfolding split join_spaces
  split-join_spaces [] space h = refl
  split-join_spaces (w ∷ []) space h =
      ap (λ t. split_from u [] t) (sym (append_nil w))
      ∙ split_from-append [] w [] (spaceless w h.0)
      ∙ close-word w [] h.0
  split-join_spaces (w ∷ v ∷ words) space h =
      split_from-append [] w (b' ' ∷ join_spaces (v ∷ words)) (spaceless w h.0)
      ∙ rw space (close-word w _ h.0)
      ∙ ap (λ l. w ∷ l) (split-join_spaces (v ∷ words) space h.1)
