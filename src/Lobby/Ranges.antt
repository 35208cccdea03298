-- ===== src/Lobby/Ranges.antt =====
-- What the settings of a room can be.
use skribbl_app.Prelude.{
  ℕ, zero, suc, ◌≤◌, ◌≡◌, refl, inl, inr, true, false, Bool-cases, Option, none, some, List, [],
  ◌∷◌, take, length, length-take, All, arith, ◌==◌,
}
use skribbl_app.Text.{Text, Unicode, text_eq, mem_text, strip, lstrip, rstrip}
use skribbl_app.Models.{GameConfig, lobby, state_eq}
use skribbl_app.Session.{Session}
use skribbl_app.Lobby.Settings.{
  Value, SettingsDict, integer, in_range, valid, number_or, setting, raw_list, add_word, sanitize,
  new_words, password_of, new_password, apply_settings, update_settings, scalar, array, str, null,
  natural, negative, boolean, other,
}

abbrev pub Within : ℕ → ℕ → ℕ → Type 0
Within lo hi n = (lo ≤ n) × (n ≤ hi)

abbrev pub PasswordOk : Option Text → Type 0
PasswordOk none = Unit
PasswordOk (some password) = Within 1 64 (length password)

-- No two words are the same but for the case of their letters.
abbrev pub Distinct : Unicode → List Text → Type 0
Distinct u [] = Unit
Distinct u (w ∷ words) = All (λ v. text_eq (u.lower w) (u.lower v) ≡ false) words × Distinct u words

-- The ranges that comments in backend/models.py give, and the limits on the custom words.
pub record ConfigOk (u : Unicode) (c : GameConfig) : Type 0 where
  pub rounds : Within 2 10 c.num_rounds
  pub duration : Within 30 180 c.turn_duration
  pub capacity : Within 2 12 c.max_players
  pub word_count : length c.custom_words ≤ 500
  pub word_lengths : All (λ w. Within 1 40 (length w)) c.custom_words
  pub distinct : Distinct u c.custom_words
  pub password_ok : PasswordOk c.password

setting-Within :
    (lo hi old : ℕ) (v : Option Value)
    → Within lo hi old
    → valid lo hi v ≡ true
    → Within lo hi (setting old v)
setting-Within lo hi old none ok h = ok
setting-Within lo hi old (some v) ok h = number_ok (integer v) h
  where
    number_ok : (n : Option ℕ) → in_range lo hi n ≡ true → Within lo hi (number_or old n)
    number_ok none h = cc
    number_ok (some n) h = ground arith

module _ (u : Unicode) where
  length-lstrip-le : (s : Text) → length (lstrip u s) ≤ length s
  length-lstrip-le [] = omega arith
  length-lstrip-le (c ∷ s) = ground (arith, length-lstrip-le s)

  length-rstrip-le : (s : Text) → length (rstrip u s) ≤ length s
  length-rstrip-le [] = omega arith
  length-rstrip-le (c ∷ s) = ground (arith, length-rstrip-le s)

  length-strip-le : (s : Text) → length (strip u s) ≤ length s
  unfolding strip
  length-strip-le s = omega (arith, length-lstrip-le s, length-rstrip-le (lstrip u s))

  All-add_word :
      (P : Text → Type 0) (w : Text) (seen kept skipped : List Text)
      → ((c : ℕ) (v : Text) → w ≡ c ∷ v → mem_text (u.lower w) seen ≡ false → P w)
      → All P kept
      → All P skipped
      → All P (add_word u w seen kept skipped)
  All-add_word P [] seen kept skipped new h k = k
  All-add_word P (c ∷ w) seen kept skipped new h k =
      elim (Bool-cases (mem_text (u.lower (c ∷ w)) seen)) [
        | inl e ↦ rw e k
        | inr e ↦ rw e (new c w refl e, h)
      ]

  sanitize-lengths :
      (seen raws : List Text) → All (λ w. Within 1 40 (length w)) (sanitize u seen raws)
  sanitize-lengths seen [] = tt
  sanitize-lengths seen (raw ∷ raws) =
      let w = strip u (take 40 raw) in
      let short : length w ≤ 40 =
        omega (arith, length-strip-le (take 40 raw), length-take 40 raw) in
      All-add_word (λ w. Within 1 40 (length w)) w seen _ _ (λ c v e _. ground arith)
        (sanitize-lengths (u.lower w ∷ seen) raws) (sanitize-lengths seen raws)

  All-tail :
      (v : Text) (seen words : List Text)
      → All (λ w. mem_text (u.lower w) (v ∷ seen) ≡ false) words
      → All (λ w. text_eq v (u.lower w) ≡ false) words
        × All (λ w. mem_text (u.lower w) seen ≡ false) words
  unfolding mem_text
  All-tail v seen [] h = (tt, tt)
  All-tail v seen (w ∷ words) h =
      let (first, rest) = All-tail v seen words h.1 in
      elim (Bool-cases (text_eq v (u.lower w))) [
        | inl e ↦ ground (arith, h.0)
        | inr e ↦ ((e, first), (ground (arith, h.0), rest))
      ]

  sanitize-fresh :
      (seen raws : List Text) → All (λ w. mem_text (u.lower w) seen ≡ false) (sanitize u seen raws)
  sanitize-fresh seen [] = tt
  sanitize-fresh seen (raw ∷ raws) =
      let w = strip u (take 40 raw) in
      All-add_word (λ v. mem_text (u.lower v) seen ≡ false) w seen _ _ (λ c v e new. new)
        (All-tail (u.lower w) seen _ (sanitize-fresh (u.lower w ∷ seen) raws)).1
        (sanitize-fresh seen raws)

  Distinct-add_word :
      (w : Text) (seen kept skipped : List Text)
      → Distinct u (w ∷ kept)
      → Distinct u skipped
      → Distinct u (add_word u w seen kept skipped)
  Distinct-add_word [] seen kept skipped h k = k
  Distinct-add_word (c ∷ w) seen kept skipped h k =
      elim (Bool-cases (mem_text (u.lower (c ∷ w)) seen)) [ inl e ↦ rw e k | inr e ↦ rw e h ]

  sanitize-Distinct : (seen raws : List Text) → Distinct u (sanitize u seen raws)
  sanitize-Distinct seen [] = tt
  sanitize-Distinct seen (raw ∷ raws) =
      let w = strip u (take 40 raw) in
      Distinct-add_word w seen _ _
        (
          (All-tail (u.lower w) seen _ (sanitize-fresh (u.lower w ∷ seen) raws)).0,
          sanitize-Distinct (u.lower w ∷ seen) raws,
        )
        (sanitize-Distinct seen raws)

  All-take : (P : Text → Type 0) (n : ℕ) (words : List Text) → All P words → All P (take n words)
  All-take P zero words h = tt
  All-take P (suc n) [] h = tt
  All-take P (suc n) (w ∷ words) h = (h.0, All-take P n words h.1)

  Distinct-take : (n : ℕ) (words : List Text) → Distinct u words → Distinct u (take n words)
  Distinct-take zero words h = tt
  Distinct-take (suc n) [] h = tt
  Distinct-take (suc n) (w ∷ words) h = (All-take _ n words h.0, Distinct-take n words h.1)

  PasswordOk-password_of : (text : Text) → PasswordOk (password_of u text)
  PasswordOk-password_of [] = tt
  PasswordOk-password_of (c ∷ text) = omega (arith, length-take 64 (c ∷ text))

  PasswordOk-new_password :
      (old : Option Text) (v : Option Value) → PasswordOk old → PasswordOk (new_password u old v)
  PasswordOk-new_password old (some (scalar null)) h = tt
  PasswordOk-new_password old (some (scalar (str text))) h = PasswordOk-password_of (strip u text)
  PasswordOk-new_password old none h = h
  PasswordOk-new_password old (some (array xs)) h = h
  PasswordOk-new_password old (some (scalar (natural n))) h = h
  PasswordOk-new_password old (some (scalar (negative n))) h = h
  PasswordOk-new_password old (some (scalar (boolean b))) h = h
  PasswordOk-new_password old (some (scalar other)) h = h

  apply_settings-ConfigOk :
      (d : SettingsDict) (c : GameConfig)
      → valid 2 10 d.num_rounds ≡ true
      → valid 30 180 d.turn_duration ≡ true
      → valid 2 12 d.max_players ≡ true
      → ConfigOk u c
      → ConfigOk u (apply_settings u d c)
  apply_settings-ConfigOk d c rounds duration players ok =
      let words : (length (new_words u c.custom_words d.custom_words) ≤ 500)
          × All (λ w. Within 1 40 (length w)) (new_words u c.custom_words d.custom_words)
          × Distinct u (new_words u c.custom_words d.custom_words) =
        words_ok d.custom_words in
      record {
        rounds = setting-Within 2 10 c.num_rounds d.num_rounds ok.rounds rounds;
        duration = setting-Within 30 180 c.turn_duration d.turn_duration ok.duration duration;
        capacity = setting-Within 2 12 c.max_players d.max_players ok.capacity players;
        word_count = words.0;
        word_lengths = words.1;
        distinct = words.2;
        password_ok = PasswordOk-new_password c.password d.password ok.password_ok;
      }
    where
      words_ok :
          (v : Option Value)
          → (length (new_words u c.custom_words v) ≤ 500)
            × All (λ w. Within 1 40 (length w)) (new_words u c.custom_words v)
            × Distinct u (new_words u c.custom_words v)
      words_ok none = (ok.word_count, ok.word_lengths, ok.distinct)
      words_ok (some v) = (
        omega (arith, length-take 500 (sanitize u [] (raw_list u v))),
        All-take _ 500 _ (sanitize-lengths [] (raw_list u v)),
        Distinct-take 500 _ (sanitize-Distinct [] (raw_list u v)),
      )

  -- However the settings of a room are changed, by whomever, its rounds stay between 2 and 10, a
  -- turn between 30 and 180 seconds, and its capacity between 2 and 12; it has at most 500 custom
  -- words, of 1 to 40 characters each, no two of them the same but for case; and a password has 1
  -- to 64 characters.
  pub update_settings-ConfigOk :
      (id : ℕ) (d : SettingsDict) (s : Session)
      → ConfigOk u s.room.config
      → ConfigOk u (update_settings u id d s).1.room.config
  unfolding update_settings
  update_settings-ConfigOk id d s ok = elim (Bool-cases (s.room.host_id == id)) [
    | inr e ↦ rw e ok
    | inl e ↦ elim (Bool-cases (state_eq s.room.state lobby)) [
      | inr f ↦ rw (e, f) ok
      | inl f ↦ elim (Bool-cases (valid 2 10 d.num_rounds)) [
        | inr g ↦ rw (e, f, g) ok
        | inl g ↦ elim (Bool-cases (valid 30 180 d.turn_duration)) [
          | inr h ↦ rw (e, f, g, h) ok
          | inl h ↦ elim (Bool-cases (valid 2 12 d.max_players)) [
            | inr i ↦ rw (e, f, g, h, i) ok
            | inl i ↦ rw (e, f, g, h, i) (apply_settings-ConfigOk d s.room.config g h i ok)
          ]
        ]
      ]
    ]
  ]
