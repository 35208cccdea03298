-- ===== src/Words/Offers.antt =====
-- What a drawer is offered.
use skribbl_app.Prelude.{
  ℕ, suc, ◌+◌, ◌-◌, ◌≤◌, ◌≡◌, refl, ap, min, Bool, false, not, List, [], ◌∷◌, ◌++◌, length, keep,
  All, All-append, length-append, arith, Bool-cases, inl, inr, ltb,
}
use skribbl_app.Text.{Text, mem_text}
use skribbl_app.Random.{sample, draws_after}
use skribbl_app.Random.Choice.{All-sample, length-sample}
use skribbl_app.Models.{Pack, Room}
use skribbl_app.Words.{
  unused, offer, offer_packs, custom_pack, draw_word_pack_choices, offered_words,
}

All-keep {ℓ κ} :
    {A : Type ℓ} (P : A → Type κ) (p : A → Bool) (xs : List A) → All P xs → All P (keep p xs)
All-keep P p [] h = tt
All-keep P p (x ∷ xs) h = elim (Bool-cases (p x)) [
  | inl e ↦ rw e (h.0, All-keep P p xs h.1)
  | inr e ↦ rw e (All-keep P p xs h.1)
]

All-unused : (used words : List Text) → All (λ w. mem_text w used ≡ false) (unused used words)
All-unused used [] = tt
All-unused used (w ∷ words) = elim (Bool-cases (mem_text w used)) [
  | inl e ↦ rw e (All-unused used words)
  | inr e ↦ rw e (e, All-unused used words)
]

module _ (draws : List ℕ) (n : ℕ) (used words : List Text) where
  All-offer {κ} : (P : Text → Type κ) → All P words → All P (offer draws n used words)
  unfolding offer
  All-offer P h = elim (Bool-cases (ltb (length (unused used words)) n)) [
    | inl few ↦ rw few (All-sample P draws words (min n (length words)) h)
    | inr many ↦ rw many (
        All-sample P draws (unused used words) (min n (length (unused used words)))
          (All-keep P (λ w. not (mem_text w used)) words h))
  ]

  -- A pack offers as many words as asked for, or all that it has.
  length-offer : length (offer draws n used words) ≤ n
  unfolding offer
  length-offer = elim (Bool-cases (ltb (length (unused used words)) n)) [
    | inl few ↦
        rw few (omega (arith, length-sample draws words (min n (length words)) (omega arith)))
    | inr many ↦ rw many (
        omega (
          arith,
          length-sample draws (unused used words) (min n (length (unused used words)))
              (omega arith),
        ))
  ]

  -- A pack with enough unused words offers exactly as many as asked for, and no used one.
  pub offer_lem :
      n ≤ length (unused used words)
      → (length (offer draws n used words) ≡ n)
        × All (λ w. mem_text w used ≡ false) (offer draws n used words)
  unfolding offer
  offer_lem h =
      let many : ltb (length (unused used words)) n ≡ false = ground arith in
      rw many (
        omega (
          arith,
          length-sample draws (unused used words) (min n (length (unused used words)))
              (omega arith),
        ),
        All-sample _ draws (unused used words) (min n (length (unused used words)))
            (All-unused used words),
      )

offered-offer_packs :
    (P : Text → Type 0) (draws : List ℕ) (n : ℕ) (used : List Text) (packs : List Pack)
    → All (λ p. All P p.words) packs
    → All P (offered_words (offer_packs draws n used packs))
offered-offer_packs P draws n used [] h = tt
offered-offer_packs P draws n used (pack ∷ packs) h =
    All-append P _ _ (All-offer draws n used pack.words P h.0)
      (offered-offer_packs P (draws_after n draws) n used packs h.1)

length-offer_packs :
    (draws : List ℕ) (n : ℕ) (used : List Text) (packs : List Pack)
    → length (offer_packs draws n used packs) ≡ length packs
length-offer_packs draws n used [] = refl
length-offer_packs draws n used (pack ∷ packs) =
    ap suc (length-offer_packs (draws_after n draws) n used packs)

fits-offer_packs :
    (draws : List ℕ) (n : ℕ) (used : List Text) (packs : List Pack)
    → All (λ p. length p.words ≤ n) (offer_packs draws n used packs)
fits-offer_packs draws n used [] = tt
fits-offer_packs draws n used (pack ∷ packs) =
    (length-offer draws n used pack.words, fits-offer_packs (draws_after n draws) n used packs)

module _ (draws : List ℕ) (n : ℕ) (used : List Text) where
  -- The custom pack and the sampled ones, whatever the custom words are.
  offered_with_custom :
      (P : Text → Type 0) (draws' : List ℕ) (custom_words : List Text) (packs : List Pack)
      → All P custom_words
      → All (λ p. All P p.words) packs
      → All P
          (offered_words (custom_pack draws n used custom_words ++ offer_packs draws' n used packs))
  offered_with_custom P draws' [] packs hc hp = offered-offer_packs P draws' n used packs hp
  offered_with_custom P draws' (w ∷ custom_words) packs hc hp =
      All-append P _ _ (All-offer draws n used (w ∷ custom_words) P hc)
        (offered-offer_packs P draws' n used packs hp)

  fits_with_custom :
      (draws' : List ℕ) (custom_words : List Text) (packs : List Pack)
      → All
          (λ p. length p.words ≤ n)
          (custom_pack draws n used custom_words ++ offer_packs draws' n used packs)
  fits_with_custom draws' [] packs = fits-offer_packs draws' n used packs
  fits_with_custom draws' (w ∷ custom_words) packs =
      (length-offer draws n used (w ∷ custom_words), fits-offer_packs draws' n used packs)

  length-custom_pack :
      (custom_words : List Text)
      → length (custom_pack draws n used custom_words) ≡ min 1 (length custom_words)
  length-custom_pack [] = refl
  length-custom_pack (w ∷ custom_words) = omega arith

-- For at least one pack asked for: there are as many packs as asked for, or all that there are, the
-- custom one counted; no pack offers more words than asked for; and whatever holds of all custom
-- words and of all words of the packs holds of every word offered.
pub draw_word_pack_choices_lem :
    (P : Text → Type 0) (draws : List ℕ) (packs : List Pack) (room : Room) (num_packs n : ℕ)
    → 1 ≤ num_packs
    → All P room.config.custom_words
    → All (λ p. All P p.words) packs
    → (length (draw_word_pack_choices draws packs room num_packs n).0
        ≡ min num_packs (min 1 (length room.config.custom_words) + length packs))
      × All (λ p. length p.words ≤ n) (draw_word_pack_choices draws packs room num_packs n).0
      × All P (offered_words (draw_word_pack_choices draws packs room num_packs n).0)
unfolding draw_word_pack_choices
draw_word_pack_choices_lem P draws packs room num_packs n pos hc hp =
    let cw = room.config.custom_words in
    let custom = custom_pack draws n room.used_words cw in
    let asked = min (num_packs - length custom) (length packs) in
    let draws' = draws_after n draws in
    let chosen = sample draws' packs asked in
    (
      omega (
        arith,
        length-append custom (offer_packs (draws_after asked draws') n room.used_words chosen),
        length-offer_packs (draws_after asked draws') n room.used_words chosen,
        length-sample draws' packs asked (omega arith),
        length-custom_pack draws n room.used_words cw,
      ),
      fits_with_custom draws n room.used_words (draws_after asked draws') cw chosen,
      offered_with_custom draws n room.used_words P (draws_after asked draws') cw chosen hc
          (All-sample (λ p. All P p.words) draws' packs asked hp),
    )
