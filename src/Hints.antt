-- ===== src/Hints.antt =====
-- backend/game_engine.py, `generate_initial_hint` and `reveal_hint_char`.
pub mod Reveal
use skribbl_app.Prelude.{
  ℕ, zero, suc, ◌+◌, ◌≡◌, refl, Option, none, some, List, [], ◌∷◌, length, get_elem?, set, map, leb,
  ◌==◌, if◌then◌else◌,
}
use skribbl_app.Random.{choice}
use skribbl_app.Text.{Text, codes}

abbrev pub space : ℕ
space = b' '

-- The mark of a character that is not revealed.
abbrev pub hidden : ℕ
hidden = b'_'

unfoldable pub generate_initial_hint : Text → Text
generate_initial_hint word = map (λ ch. if ch == space then space else hidden) word

-- `[i for i, ch in enumerate(hint) if ch == '_']`, for a hint that starts at an index.
abbrev pub hidden_from : ℕ → Text → List ℕ
hidden_from i [] = []
hidden_from i (ch ∷ hint) =
    let rest = hidden_from (i + 1) hint in if ch == hidden then i ∷ rest else rest

-- `hint[idx] = word[idx]`; `none` is IndexError.
abbrev pub uncover : Text → Text → Option ℕ → Option Text
uncover hint word none = none
uncover hint word (some idx) = elim (get_elem? word idx) [
  | none ↦ none
  | some ch ↦ some (set hint idx ch)
]

-- The hint after a reveal; the number drawn decides which index `random.choice` takes.
unfoldable pub reveal_hint_char : ℕ → Text → Text → Option Text
unfolding choice
reveal_hint_char draw hint word =
    let unrevealed = hidden_from 0 hint in
    if leb (length unrevealed) 1 then some hint else uncover hint word (choice draw unrevealed)
