-- ===== src/EndTurn/Counts.antt =====
-- What the scores of a turn leave as it is: how many players pass a test that does not look at them.
use skribbl_app.Prelude.{
  ℕ, ◌+◌, ◌≡◌, refl, ◌∙◌, Bool, not, ◌&&◌, Bool-cases, inl, inr, Option, none, some, List, [], ◌∷◌,
  count_if, ◌==◌,
}
use skribbl_app.Scoring.{compute_drawer_bonus}
use skribbl_app.Models.{
  TurnEndReason, timer_expired, all_guessed, drawer_disconnected, Player, TurnState, is_active,
}
use skribbl_app.Models.Players.{count_if-modify, count_if-map}
use skribbl_app.EndTurn.{
  Tally, credit, find_player, award_found, award_guessers, mem_id, reset_streak, add_bonus,
  reward_found, score_turn, tally_for,
}
use skribbl_app.EndTurn.Scores.{guessed, reset}

-- A test on players that the scores and streaks of a turn do not change.
pub record Untouched (t : Player → Bool) : Type 0 where
  pub by_credit : (score elapsed : ℕ) (p : Player) → t (credit score elapsed p) ≡ t p
  pub by_bonus : (bonus : ℕ) (p : Player) → t (add_bonus bonus p) ≡ t p
  pub by_streak : (p : Player) → t (record p { streak = 0 }) ≡ t p

pub is_active-Untouched : Untouched is_active
is_active-Untouched = record {
  by_credit = λ _ _ _. refl;
  by_bonus = λ _ _. refl;
  by_streak = λ _. refl;
}

pub is_connected-Untouched : Untouched (λ p. p.is_connected)
is_connected-Untouched = record {
  by_credit = λ _ _ _. refl;
  by_bonus = λ _ _. refl;
  by_streak = λ _. refl;
}

module _ {t : Player → Bool} (keeps : Untouched t) (now start duration : ℕ) where
  count-award_found :
      (position id : ℕ) (tally : Tally) (o : Option Player)
      → count_if t (award_found now start duration position id tally o).players
        ≡ count_if t tally.players
  count-award_found position id tally none = refl
  count-award_found position id tally (some q) =
      count_if-modify _ t id tally.players (keeps.by_credit _ _)

  count-award_guessers :
      (position : ℕ) (order : List ℕ) (tally : Tally)
      → count_if t (award_guessers now start duration position order tally).players
        ≡ count_if t tally.players
  unfolding award_guessers
  count-award_guessers position [] tally = refl
  count-award_guessers position (id ∷ order) tally =
      count-award_guessers (position + 1) order _
      ∙ count-award_found position id tally (find_player id tally.players)

module _ (drawer_id : ℕ) (tally : Tally) where
  count-reward_found :
      {t : Player → Bool} (keeps : Untouched t) (bonus : ℕ) (o : Option Player)
      → count_if t (reward_found drawer_id bonus tally o).players ≡ count_if t tally.players
  count-reward_found keeps bonus none = refl
  count-reward_found {t} keeps bonus (some d) =
      count_if-modify _ t drawer_id tally.players (keeps.by_bonus bonus)

module _ (drawer_id : ℕ) (order : List ℕ) where
  test-reset_streak :
      {t : Player → Bool} (keeps : Untouched t) (p : Player)
      → t (reset_streak drawer_id order p) ≡ t p
  test-reset_streak keeps p =
      elim (Bool-cases (not (p.id == drawer_id) && not (mem_id p.id order))) [
        | inl e ↦ rw e (keeps.by_streak p)
        | inr e ↦ rw e refl
      ]

module _ (now duration : ℕ) (turn : TurnState) (players : List Player) where
  count-score_turn :
      {t : Player → Bool} (keeps : Untouched t)
      → count_if t (score_turn now duration turn players).players ≡ count_if t players
  unfolding score_turn
  count-score_turn {t} keeps =
      count-reward_found turn.drawer_id (reset now duration turn players) keeps
        (compute_drawer_bonus (reset now duration turn players).guesser_scores)
        (find_player turn.drawer_id (reset now duration turn players).players)
      ∙ count_if-map (reset_streak turn.drawer_id turn.guess_order) t
          (guessed now duration turn players).players
          (test-reset_streak turn.drawer_id turn.guess_order keeps)
      ∙ count-award_guessers keeps now turn.start_time duration 1 turn.guess_order _

-- Whatever ends a turn, as many players pass such a test as before.
pub count-tally_for :
    {t : Player → Bool} (keeps : Untouched t) (reason : TurnEndReason) (now duration : ℕ)
    (turn : TurnState) (players : List Player)
    → count_if t (tally_for reason now duration turn players).players ≡ count_if t players
count-tally_for keeps timer_expired now duration turn players =
    count-score_turn now duration turn players keeps
count-tally_for keeps all_guessed now duration turn players =
    count-score_turn now duration turn players keeps
count-tally_for keeps drawer_disconnected now duration turn players = refl
