-- ===== src/EndTurn/Scores.antt =====
-- The points that a turn gives.
use skribbl_app.Prelude.{
  ℕ, ◌+◌, ◌≡◌, refl, sym, ◌∙◌, Bool, true, false, not, ◌&&◌, Bool-cases, inl, inr, Option, none,
  some, List, [], ◌∷◌, ◌++◌, any, map, arith, ◌==◌, if◌then◌else◌,
}
use skribbl_app.Scoring.{sum, compute_guesser_score, compute_drawer_bonus}
use skribbl_app.Models.{Player, TurnState}
use skribbl_app.Models.Players.{
  total_score, NoneFalls, NoneFalls-refl, NoneFalls-trans, NoneFalls-modify, NoneFalls-map,
  total_score-modify, total_score-map,
}
use skribbl_app.EndTurn.{
  Tally, credit, elapsed_of, find_player, award_found, award_guesser, award_guessers, mem_id,
  reset_streak, add_bonus, reward_found, score_turn,
}

sum-snoc : (xs : List ℕ) (x : ℕ) → sum (xs ++ x ∷ []) ≡ sum xs + x
sum-snoc [] x = omega arith
sum-snoc (y ∷ xs) x = omega (arith, sum-snoc xs x)

module _ (now start duration : ℕ) where
  total_score-award_found :
      (position id : ℕ) (tally : Tally) (o : Option Player)
      → find_player id tally.players ≡ o
      → total_score (award_found now start duration position id tally o).players
          + sum tally.guesser_scores
        ≡ total_score tally.players
          + sum (award_found now start duration position id tally o).guesser_scores
  total_score-award_found position id tally none e = refl
  total_score-award_found position id tally (some q) e =
      let elapsed = elapsed_of now start duration q in
      let score = compute_guesser_score elapsed duration position in
      omega (
        arith,
        total_score-modify (credit score elapsed) id tally.players q e,
        sum-snoc tally.guesser_scores score,
      )

  total_score-award_guessers :
      (position : ℕ) (order : List ℕ) (tally : Tally)
      → total_score (award_guessers now start duration position order tally).players
          + sum tally.guesser_scores
        ≡ total_score tally.players
          + sum (award_guessers now start duration position order tally).guesser_scores
  unfolding award_guessers
  total_score-award_guessers position [] tally = refl
  total_score-award_guessers position (id ∷ order) tally =
      let next = award_guesser now start duration position id tally in
      omega (
        arith,
        total_score-award_found position id tally (find_player id tally.players) refl,
        total_score-award_guessers (position + 1) order next,
      )

  NoneFalls-award_found :
      (position id : ℕ) (tally : Tally) (o : Option Player)
      → NoneFalls tally.players (award_found now start duration position id tally o).players
  NoneFalls-award_found position id tally none = NoneFalls-refl tally.players
  NoneFalls-award_found position id tally (some q) =
      NoneFalls-modify _ id tally.players (λ p. (refl, omega arith))

  NoneFalls-award_guessers :
      (position : ℕ) (order : List ℕ) (tally : Tally)
      → NoneFalls tally.players (award_guessers now start duration position order tally).players
  unfolding award_guessers
  NoneFalls-award_guessers position [] tally = NoneFalls-refl tally.players
  NoneFalls-award_guessers position (id ∷ order) tally =
      NoneFalls-trans tally.players (award_guesser now start duration position id tally).players _
        (NoneFalls-award_found position id tally (find_player id tally.players))
        (NoneFalls-award_guessers (position + 1) order _)

-- Whether a player of the list has the id.
abbrev pub has_player : ℕ → List Player → Bool
has_player id players = any (λ p. p.id == id) players

has_player-NoneFalls :
    (id : ℕ) (a b : List Player) → NoneFalls a b → has_player id b ≡ has_player id a
has_player-NoneFalls id [] [] h = refl
has_player-NoneFalls id [] (q ∷ b) h = absurd h
has_player-NoneFalls id (p ∷ a) [] h = absurd h
has_player-NoneFalls id (p ∷ a) (q ∷ b) (i, s, h) = ground (arith, has_player-NoneFalls id a b h)

abbrev found : Option Player → Bool
found none = false
found (some p) = true

found-find_player :
    (id : ℕ) (players : List Player) → found (find_player id players) ≡ has_player id players
found-find_player id [] = refl
found-find_player id (p ∷ players) = ground (arith, found-find_player id players)

module _ (drawer_id : ℕ) (tally : Tally) where
  total_score-reward_found :
      (bonus : ℕ) (o : Option Player)
      → find_player drawer_id tally.players ≡ o
      → total_score (reward_found drawer_id bonus tally o).players
        ≡ total_score tally.players + (if found o then bonus else 0)
  total_score-reward_found bonus none e = omega arith
  total_score-reward_found bonus (some d) e =
      omega (arith, total_score-modify (add_bonus bonus) drawer_id tally.players d e)

  NoneFalls-reward_found :
      (bonus : ℕ) (o : Option Player)
      → NoneFalls tally.players (reward_found drawer_id bonus tally o).players
  NoneFalls-reward_found bonus none = NoneFalls-refl tally.players
  NoneFalls-reward_found bonus (some d) =
      NoneFalls-modify _ drawer_id tally.players (λ p. (refl, omega arith))

  scores-reward_found :
      (bonus : ℕ) (o : Option Player)
      → (reward_found drawer_id bonus tally o).guesser_scores ≡ tally.guesser_scores
  scores-reward_found bonus none = refl
  scores-reward_found bonus (some d) = refl

module _ (drawer_id : ℕ) (order : List ℕ) where
  score-reset_streak :
      (p : Player)
      → (p.id ≡ (reset_streak drawer_id order p).id)
        × (p.score ≡ (reset_streak drawer_id order p).score)
  score-reset_streak p = elim (Bool-cases (not (p.id == drawer_id) && not (mem_id p.id order))) [
    | inl e ↦ rw e (refl, refl)
    | inr e ↦ rw e (refl, refl)
  ]

module _ (now duration : ℕ) (turn : TurnState) (players : List Player) where
  -- The tally when the streaks are reset.
  abbrev pub guessed : Tally
  guessed =
      award_guessers now turn.start_time duration 1 turn.guess_order
        (record { players = players; guesser_scores = []; scores = [] })

  abbrev pub reset : Tally
  reset = record guessed {
    players = map (reset_streak turn.drawer_id turn.guess_order) guessed.players;
  }

  guessed-NoneFalls : NoneFalls players guessed.players
  guessed-NoneFalls = NoneFalls-award_guessers now turn.start_time duration 1 turn.guess_order _

  reset-NoneFalls : NoneFalls guessed.players reset.players
  reset-NoneFalls =
      NoneFalls-map (reset_streak turn.drawer_id turn.guess_order) guessed.players
        (λ p. let (i, s) = score-reset_streak turn.drawer_id turn.guess_order p in (i, omega arith))

  -- The players together gain exactly the guessers' scores and, if the drawer is in the room, the
  -- bonus that is computed from these scores.
  pub total_score-score_turn :
      total_score (score_turn now duration turn players).players
      ≡ total_score players
        + sum (score_turn now duration turn players).guesser_scores
        + (if has_player turn.drawer_id players
            then compute_drawer_bonus (score_turn now duration turn players).guesser_scores
            else 0)
  unfolding score_turn
  total_score-score_turn =
      let gs = guessed.guesser_scores in
      let found_reset =
        found-find_player turn.drawer_id reset.players
        ∙ has_player-NoneFalls turn.drawer_id guessed.players reset.players reset-NoneFalls
        ∙ has_player-NoneFalls turn.drawer_id players guessed.players guessed-NoneFalls in
      let step =
        total_score-award_guessers now turn.start_time duration 1 turn.guess_order
          (record { players = players; guesser_scores = []; scores = [] }) in
      let same =
        total_score-map (reset_streak turn.drawer_id turn.guess_order) guessed.players
          (λ p. sym (score-reset_streak turn.drawer_id turn.guess_order p).1) in
      let rewarded =
        total_score-reward_found turn.drawer_id reset (compute_drawer_bonus gs)
          (find_player turn.drawer_id reset.players) refl in
      let unchanged : (score_turn now duration turn players).guesser_scores ≡ gs =
        scores-reward_found turn.drawer_id reset (compute_drawer_bonus gs)
          (find_player turn.drawer_id reset.players) in
      rw (unchanged, ← found_reset) (omega (arith, rewarded, same, step))

  -- A turn that is scored keeps the players and their order, and nobody loses points.
  pub score_turn-NoneFalls : NoneFalls players (score_turn now duration turn players).players
  unfolding score_turn
  score_turn-NoneFalls = NoneFalls-trans players guessed.players _ guessed-NoneFalls (
      NoneFalls-trans guessed.players reset.players _ reset-NoneFalls (
        NoneFalls-reward_found turn.drawer_id reset (compute_drawer_bonus reset.guesser_scores)
          (find_player turn.drawer_id reset.players)))
