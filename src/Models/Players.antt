-- ===== src/Models/Players.antt =====
-- The list of players under the changes that the handlers make to single players.
use skribbl_app.Prelude.{
  ℕ, ◌+◌, ◌≤◌, ◌≡◌, refl, ◌∙◌, Bool, Bool-cases, inl, inr, some, List, [], ◌∷◌, count_if, find, map,
  arith, ◌==◌,
}
use skribbl_app.Models.{Player, modify_player}

-- The points of all players together.
abbrev pub total_score : List Player → ℕ
total_score [] = 0
total_score (p ∷ players) = p.score + total_score players

-- The same players in the same order, none with fewer points.
abbrev pub NoneFalls : List Player → List Player → Type 0
NoneFalls [] [] = Unit
NoneFalls [] (q ∷ after) = ⊥
NoneFalls (p ∷ before) [] = ⊥
NoneFalls (p ∷ before) (q ∷ after) = (p.id ≡ q.id) × (p.score ≤ q.score) × NoneFalls before after

pub NoneFalls-refl : (players : List Player) → NoneFalls players players
NoneFalls-refl [] = tt
NoneFalls-refl (p ∷ players) = (refl, omega arith, NoneFalls-refl players)

pub NoneFalls-trans : (a b c : List Player) → NoneFalls a b → NoneFalls b c → NoneFalls a c
NoneFalls-trans [] [] c h k = k
NoneFalls-trans [] (q ∷ b) c h k = absurd h
NoneFalls-trans (p ∷ a) [] c h k = absurd h
NoneFalls-trans (p ∷ a) (q ∷ b) [] h k = absurd k
NoneFalls-trans (p ∷ a) (q ∷ b) (r ∷ c) (i, s, h) (j, t, k) =
    (i ∙ j, omega arith, NoneFalls-trans a b c h k)

module _ (f : Player → Player) where
  pub NoneFalls-modify :
      (id : ℕ) (players : List Player)
      → ((p : Player) → (p.id ≡ (f p).id) × (p.score ≤ (f p).score))
      → NoneFalls players (modify_player id f players)
  unfolding modify_player
  NoneFalls-modify id [] h = tt
  NoneFalls-modify id (p ∷ players) h = elim (Bool-cases (p.id == id)) [
    | inl e ↦ rw e ((h p).0, (h p).1, NoneFalls-refl players)
    | inr e ↦ rw e (refl, omega arith, NoneFalls-modify id players h)
  ]

  pub NoneFalls-map :
      (players : List Player)
      → ((p : Player) → (p.id ≡ (f p).id) × (p.score ≤ (f p).score))
      → NoneFalls players (map f players)
  NoneFalls-map [] h = tt
  NoneFalls-map (p ∷ players) h = ((h p).0, (h p).1, NoneFalls-map players h)

  -- One player's points change by what the function changes.
  pub total_score-modify :
      (id : ℕ) (players : List Player) (q : Player)
      → find (λ p. p.id == id) players ≡ some q
      → total_score (modify_player id f players) + q.score ≡ total_score players + (f q).score
  unfolding modify_player
  total_score-modify id [] q e = absurd (cc)
  total_score-modify id (p ∷ players) q e = elim (Bool-cases (p.id == id)) [
    | inl same ↦ ground arith
    | inr other ↦ ground (arith, total_score-modify id players q)
  ]

  pub total_score-map :
      (players : List Player)
      → ((p : Player) → (f p).score ≡ p.score)
      → total_score (map f players) ≡ total_score players
  total_score-map [] h = refl
  total_score-map (p ∷ players) h = omega (arith, h p, total_score-map players h)

  pub count_if-modify :
      (t : Player → Bool) (id : ℕ) (players : List Player)
      → ((p : Player) → t (f p) ≡ t p)
      → count_if t (modify_player id f players) ≡ count_if t players
  unfolding modify_player
  count_if-modify t id [] h = refl
  count_if-modify t id (p ∷ players) h = ground (arith, h p, count_if-modify t id players h)

  pub count_if-map :
      (t : Player → Bool) (players : List Player)
      → ((p : Player) → t (f p) ≡ t p)
      → count_if t (map f players) ≡ count_if t players
  count_if-map t [] h = refl
  count_if-map t (p ∷ players) h = ground (arith, h p, count_if-map t players h)
