-- ===== src/Tests/Texts.antt =====
-- Tests of the text functions, the edit distance, the hints and the offered words.
use skribbl_app.Prelude.{
  ℕ, zero, suc, keep, replicate, All, ◌≡◌, ◌≤◌, refl, false, some, List, [], ◌∷◌, length, min, ◌+◌,
  arith, inl, inr,
}
use skribbl_app.Text.{Text, codes, ascii, split, strip, mask_word, mem_text, text_eq}
use skribbl_app.Text.Mask.{occurs, occurs-mask_word}
use skribbl_app.Levenshtein.{levenshtein_distance}
use skribbl_app.Levenshtein.Edit.{copy, insert, source, target, cost, Op}
use skribbl_app.Levenshtein.Scripts.{
  EditsAt, levenshtein_distance_achieved, levenshtein_distance-le-cost,
}
use skribbl_app.Guess.{star, filter_profanity}
use skribbl_app.Guess.Clean.{Plain, IsClean, split-filter_profanity}
use skribbl_app.Hints.{generate_initial_hint, reveal_hint_char}
use skribbl_app.Hints.Reveal.{Masks, hidden_count, reveal_hint_char-Masks}
use skribbl_app.Models.{Room, new_room, default_config}
use skribbl_app.Words.{draw_word_pack_choices, small_packs}

splits : split ascii (codes " ice  cream ") ≡ codes "ice" ∷ codes "cream" ∷ []
unfolding split
splits = refl

strips : strip ascii (codes " ice cream ") ≡ codes "ice cream"
unfolding strip
strips = refl

masks : mask_word ascii (codes "cat") (codes "a CaT, a dog") ≡ codes "a ***, a dog"
unfolding mask_word
masks = refl

occurs-mask_word_example :
    occurs ascii (codes "cat") (mask_word ascii (codes "cat") (codes "CaTcat")) ≡ false
occurs-mask_word_example =
    occurs-mask_word ascii b'c' (codes "at") (codes "CaTcat") (refl, (refl, (refl, tt)))

kitten_sitting : levenshtein_distance (codes "kitten") (codes "sitting") ≡ 3
unfolding levenshtein_distance
kitten_sitting = refl

levenshtein_distance_achieved_example :
    EditsAt
      (levenshtein_distance (codes "kitten") (codes "sitting"))
      (codes "kitten")
      (codes "sitting")
levenshtein_distance_achieved_example =
    levenshtein_distance_achieved (codes "kitten") (codes "sitting")

abbrev to_cart : List Op
to_cart = copy b'c' ∷ copy b'a' ∷ insert b'r' ∷ copy b't' ∷ []

levenshtein_distance-le-cost_example :
    levenshtein_distance (source to_cart) (target to_cart) ≤ cost to_cart
levenshtein_distance-le-cost_example = levenshtein_distance-le-cost to_cart

initial : generate_initial_hint (codes "ice cream") ≡ codes "___ _____"
unfolding generate_initial_hint
initial = refl

revealed : reveal_hint_char 4 (codes "___ _____") (codes "ice cream") ≡ some (codes "___ _r___")
unfolding reveal_hint_char
revealed = refl

kept : reveal_hint_char 4 (codes "ic_ cream") (codes "ice cream") ≡ some (codes "ic_ cream")
unfolding reveal_hint_char
kept = refl

reveal_hint_char-Masks_example :
    (after : Text) × (reveal_hint_char 4 (codes "_a_") (codes "cat") ≡ some after)
    × Masks after (codes "cat")
    × (hidden_count after ≤ hidden_count (codes "_a_"))
    × (hidden_count (codes "_a_") ≤ hidden_count after + 1)
    × (min 1 (hidden_count (codes "_a_")) ≤ hidden_count after)
reveal_hint_char-Masks_example =
    reveal_hint_char-Masks 4 (codes "_a_") (codes "cat")
      (inr (refl, omega arith), (inl refl, (inr (refl, omega arith), tt)))

abbrev plain_room : Room
plain_room = new_room 1 1 default_config

offers :
    (draw_word_pack_choices (1 ∷ 0 ∷ []) small_packs plain_room 3 3).1
    ≡ codes "dog" ∷ codes "apple" ∷ []
unfolding draw_word_pack_choices
offers = refl

abbrev IsShort : Text → Type 0
IsShort w = length w ≤ 5

ascii-Plain : Plain ascii
ascii-Plain = record { space = refl; visible = refl; no_letters = λ n. stars_gone n }
  where
    stars_gone : (n : ℕ) → keep ascii.is_alnum (ascii.lower (replicate n star)) ≡ []
    stars_gone zero = refl
    stars_gone (suc n) = stars_gone n

split-filter_profanity_example :
    All
      (IsClean ascii (codes "darn" ∷ []))
      (split ascii (filter_profanity ascii (codes "darn" ∷ []) (codes "oh  DARN! it")))
split-filter_profanity_example =
    split-filter_profanity ascii (codes "darn" ∷ []) ascii-Plain (codes "oh  DARN! it")
      (unfold mem_text text_eq in refl)
