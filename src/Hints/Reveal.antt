-- ===== src/Hints/Reveal.antt =====
-- What a hint tells of its word, from the first hint through every reveal.
use skribbl_app.Prelude.{
  ℕ, zero, suc, ◌+◌, min, ◌≤◌, ◌<◌, ◌≡◌, ◌≢◌, refl, ap, ◌⊎◌, inl, inr, Bool-cases, false, some,
  List, [], ◌∷◌, length, get_elem?, get_elem?_total, set, count_if, All, arith, leb, ◌==◌, ==_iff,
  if◌then◌else◌,
}
use skribbl_app.Text.{Text}
use skribbl_app.Random.{choice}
use skribbl_app.Random.Choice.{choice_total, All-choice}
use skribbl_app.Hints.{space, hidden, generate_initial_hint, hidden_from, reveal_hint_char}

-- Place by place, a hint shows the word's own character, or hides one that is no space.
abbrev pub Masks : Text → Text → Type 0
Masks [] [] = Unit
Masks [] (w ∷ word) = ⊥
Masks (h ∷ hint) [] = ⊥
Masks (h ∷ hint) (w ∷ word) = ((h ≡ w) ⊎ (h ≡ hidden) × (w ≢ space)) × Masks hint word

-- How many characters of a hint are hidden.
abbrev pub hidden_count : Text → ℕ
hidden_count hint = count_if (λ ch. ch == hidden) hint

-- How many characters of a word are no spaces.
abbrev pub letter_count : Text → ℕ
letter_count [] = 0
letter_count (w ∷ word) = let rest = letter_count word in if w == space then rest else suc rest

-- The first hint hides exactly the characters that are no spaces.
pub generate_initial_hint_lem :
    (word : Text)
    → Masks (generate_initial_hint word) word
      × (hidden_count (generate_initial_hint word) ≡ letter_count word)
unfolding generate_initial_hint
generate_initial_hint_lem [] = (tt, refl)
generate_initial_hint_lem (w ∷ word) =
    let (m, c) = generate_initial_hint_lem word in
    elim (Bool-cases (w == space)) [ inl e ↦ ground (arith, m, c) | inr e ↦ ground (arith, m, c) ]

length-hidden_from : (i : ℕ) (hint : Text) → length (hidden_from i hint) ≡ hidden_count hint
length-hidden_from i [] = refl
length-hidden_from i (ch ∷ hint) = ground (arith, length-hidden_from (i + 1) hint)

-- An index, counted from `i`, of a hidden character.
abbrev HiddenAt : ℕ → Text → ℕ → Type 0
HiddenAt i hint idx = (j : ℕ) × (idx ≡ i + j) × (get_elem? hint j ≡ some hidden)

All-HiddenAt-cons :
    (i ch : ℕ) (hint : Text) (l : List ℕ)
    → All (HiddenAt (i + 1) hint) l
    → All (HiddenAt i (ch ∷ hint)) l
All-HiddenAt-cons i ch hint [] h = tt
All-HiddenAt-cons i ch hint (idx ∷ l) ((j, e, g), h) =
    ((suc j, omega arith, g), All-HiddenAt-cons i ch hint l h)

hidden_from-HiddenAt : (i : ℕ) (hint : Text) → All (HiddenAt i hint) (hidden_from i hint)
hidden_from-HiddenAt i [] = tt
hidden_from-HiddenAt i (ch ∷ hint) =
    let rest = All-HiddenAt-cons i ch hint _ (hidden_from-HiddenAt (i + 1) hint) in
    elim (Bool-cases (ch == hidden)) [
      | inl e ↦ rw e ((0, omega arith, ap some ((==_iff ch hidden).0 e)), rest)
      | inr e ↦ rw e rest
    ]

module _ (v : ℕ) where
  set-Masks :
      (hint word : Text) (j : ℕ)
      → Masks hint word
      → get_elem? word j ≡ some v
      → Masks (set hint j v) word
  set-Masks [] word j m e = m
  set-Masks (h ∷ hint) [] j m e = absurd m
  set-Masks (h ∷ hint) (w ∷ word) zero m e = (inl (ground arith), m.1)
  set-Masks (h ∷ hint) (w ∷ word) (suc j) m e = (m.0, set-Masks hint word j m.1 e)

  hidden_count-set :
      (hint : Text) (j : ℕ)
      → get_elem? hint j ≡ some hidden
      → hidden_count (set hint j v) + 1 ≡ hidden_count hint + hidden_count (v ∷ [])
  hidden_count-set [] j e = absurd (cc)
  hidden_count-set (h ∷ hint) zero e = ground arith
  hidden_count-set (h ∷ hint) (suc j) e = ground (arith, hidden_count-set hint j e)

length-Masks : (hint word : Text) → Masks hint word → length hint ≡ length word
length-Masks [] [] m = refl
length-Masks [] (w ∷ word) m = absurd m
length-Masks (h ∷ hint) [] m = absurd m
length-Masks (h ∷ hint) (w ∷ word) m = ap suc (length-Masks hint word m.1)

get_elem?-lt {ℓ} :
    {A : Type ℓ} (xs : List A) (i : ℕ) {x : A} → get_elem? xs i ≡ some x → i < length xs
get_elem?-lt [] i e = absurd (cc)
get_elem?-lt (y ∷ xs) zero e = omega arith
get_elem?-lt (y ∷ xs) (suc i) e = omega (arith, get_elem?-lt xs i e)

-- One hidden character is replaced by the word's.
record Uncovers (hint word after : Text) : Type 0 where
  idx : ℕ
  ch : ℕ
  was : get_elem? hint idx ≡ some hidden
  of_word : get_elem? word idx ≡ some ch
  result : after ≡ set hint idx ch

uncover_at :
    (draw : ℕ) (hint word : Text) (idx : ℕ)
    → Masks hint word
    → leb (hidden_count hint) 1 ≡ false
    → choice draw (hidden_from 0 hint) ≡ some idx
    → get_elem? hint idx ≡ some hidden
    → (after : Text) × (reveal_hint_char draw hint word ≡ some after) × Uncovers hint word after
unfolding reveal_hint_char
uncover_at draw hint word idx m many picked was =
    let (ch, of_word) =
      get_elem?_total word idx
        (omega (arith, get_elem?-lt hint idx was, length-Masks hint word m)) in
    let len = length-hidden_from 0 hint in
    (
      set hint idx ch,
      ground (arith, len, picked, of_word),
      record { idx = idx; ch = ch; was = was; of_word = of_word; result = refl },
    )

HiddenAt-zero : (hint : Text) (idx : ℕ) → HiddenAt 0 hint idx → get_elem? hint idx ≡ some hidden
HiddenAt-zero hint idx (j, e, g) = let same : j ≡ _ = omega arith in rw same at g

reveal-Uncovers :
    (draw : ℕ) (hint word : Text)
    → Masks hint word
    → leb (hidden_count hint) 1 ≡ false
    → (after : Text) × (reveal_hint_char draw hint word ≡ some after) × Uncovers hint word after
reveal-Uncovers draw hint word m many =
    let (idx, picked) =
      choice_total draw (hidden_from 0 hint) (ground (arith, length-hidden_from 0 hint)) in
    uncover_at draw hint word idx m many picked (
      HiddenAt-zero hint idx (
        All-choice (HiddenAt 0 hint) draw (hidden_from 0 hint) (hidden_from-HiddenAt 0 hint)
          picked))

Uncovers-Masks :
    {hint word after : Text} → Uncovers hint word after → Masks hint word → Masks after word
Uncovers-Masks {hint} {word} u m = rw u.result (set-Masks u.ch hint word u.idx m u.of_word)

hidden_count-Uncovers :
    {hint word after : Text}
    → Uncovers hint word after
    → (hidden_count after ≤ hidden_count hint) × (hidden_count hint ≤ hidden_count after + 1)
hidden_count-Uncovers {hint} u =
    rw u.result (ground (arith, hidden_count-set u.ch hint u.idx u.was))

-- A reveal never fails on a hint of its word. The result is a hint of the word again, it hides at
-- most one character less than before and none more, and it hides some character if any was hidden.
pub reveal_hint_char-Masks :
    (draw : ℕ) (hint word : Text)
    → Masks hint word
    → (after : Text) × (reveal_hint_char draw hint word ≡ some after)
      × Masks after word
      × (hidden_count after ≤ hidden_count hint)
      × (hidden_count hint ≤ hidden_count after + 1)
      × (min 1 (hidden_count hint) ≤ hidden_count after)
unfolding reveal_hint_char
reveal_hint_char-Masks draw hint word m = elim (Bool-cases (leb (hidden_count hint) 1)) [
  | inl few ↦
      (hint, ground (arith, length-hidden_from 0 hint), m, omega arith, omega arith, omega arith)
  | inr many ↦
      let (after, e, u) = reveal-Uncovers draw hint word m many in
      let (least, most) = hidden_count-Uncovers u in
      (after, e, Uncovers-Masks u m, least, most, ground arith)
]
