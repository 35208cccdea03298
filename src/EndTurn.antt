-- ===== src/EndTurn.antt =====
-- backend/game_engine.py, `end_turn`: the scores of a turn, and the step to the next one.
pub mod Scores
pub mod Counts
pub mod Stop
use skribbl_app.Prelude.{
  ℕ, zero, suc, ◌+◌, ◌-◌, ◌*◌, min, max, Bool, true, false, not, ◌&&◌, ◌||◌, Option, none, some,
  List, [], ◌∷◌, ◌++◌, any, find, map, ltb, ◌==◌, if◌then◌else◌,
}
use skribbl_app.Scoring.{compute_guesser_score, compute_drawer_bonus}
use skribbl_app.Models.{
  TurnEndReason, timer_expired, all_guessed, drawer_disconnected, Player, TurnState, modify_player,
}
use skribbl_app.Session.{Env, second, Session, turn_ended, broadcast, set_room}
use skribbl_app.Turns.{cancel_turn_tasks, advance_turn_or_round}

-- `scores[key] = value` on the dictionary of the turn's scores
abbrev pub put_score : ℕ → ℕ → List (ℕ × ℕ) → List (ℕ × ℕ)
put_score id score [] = (id, score) ∷ []
put_score id score ((j, old) ∷ scores) =
    let later = put_score id score scores in
    if j == id then (id, score) ∷ scores else (j, old) ∷ later

-- The players, `guesser_scores` and `scores_payload` while the scores are computed.
pub record Tally : Type 0 where
  pub players : List Player
  pub guesser_scores : List ℕ
  pub scores : List (ℕ × ℕ)

abbrev pub faster : ℕ → Option ℕ → Option ℕ
faster elapsed none = some elapsed
faster elapsed (some best) = if ltb elapsed best then some elapsed else some best

-- What a correct guess adds to a player.
abbrev pub credit : ℕ → ℕ → Player → Player
credit score elapsed p = record p {
  score = p.score + score;
  correct_guesses_count = p.correct_guesses_count + 1;
  fastest_guess_time = faster elapsed p.fastest_guess_time;
  streak = p.streak + 1;
  max_streak = max p.max_streak (p.streak + 1);
}

-- `max(0, min(guess_time - start_time, duration))`, where the guess time is now if there is none
abbrev pub elapsed_of : ℕ → ℕ → ℕ → Player → ℕ
elapsed_of now start duration p =
    min ((elim p.guess_time [ none ↦ now | some t ↦ t ]) - start) duration

-- The body of the loop over `guess_order`, from the lookup of the player on.
abbrev pub award_found : ℕ → ℕ → ℕ → ℕ → ℕ → Tally → Option Player → Tally
award_found now start duration position id tally none = tally
award_found now start duration position id tally (some player) =
    let elapsed = elapsed_of now start duration player in
    let score = compute_guesser_score elapsed duration position in
    record {
      players = modify_player id (credit score elapsed) tally.players;
      guesser_scores = tally.guesser_scores ++ score ∷ [];
      scores = put_score id score tally.scores;
    }

abbrev pub find_player : ℕ → List Player → Option Player
find_player id players = find (λ p. p.id == id) players

abbrev pub award_guesser : ℕ → ℕ → ℕ → ℕ → ℕ → Tally → Tally
award_guesser now start duration position id tally =
    award_found now start duration position id tally (find_player id tally.players)

-- The loop from a position on; times are in ticks.
unfoldable pub award_guessers : ℕ → ℕ → ℕ → ℕ → List ℕ → Tally → Tally
unfolding modify_player compute_guesser_score
award_guessers now start duration position [] tally = tally
award_guessers now start duration position (id ∷ order) tally =
    award_guessers now start duration (position + 1) order
      (award_guesser now start duration position id tally)

abbrev pub mem_id : ℕ → List ℕ → Bool
mem_id id ids = any (λ j. j == id) ids

-- The streak of a player who did not guess ends, unless it is the drawer's.
abbrev pub reset_streak : ℕ → List ℕ → Player → Player
reset_streak drawer_id order p =
    if not (p.id == drawer_id) && not (mem_id p.id order) then record p { streak = 0 } else p

abbrev pub add_bonus : ℕ → Player → Player
add_bonus bonus p = record p {
  score = p.score + bonus;
  drawer_points_earned = p.drawer_points_earned + bonus;
}

-- `if drawer is not None: ...`
abbrev pub reward_found : ℕ → ℕ → Tally → Option Player → Tally
reward_found drawer_id bonus tally none = tally
reward_found drawer_id bonus tally (some drawer) = record tally {
  players = modify_player drawer_id (add_bonus bonus) tally.players;
  scores = put_score drawer_id bonus tally.scores;
}

abbrev pub reward_drawer : ℕ → ℕ → Tally → Tally
reward_drawer drawer_id bonus tally =
    reward_found drawer_id bonus tally (find_player drawer_id tally.players)

-- The part under `if reason != TurnEndReason.DRAWER_DISCONNECTED`.
unfoldable pub score_turn : ℕ → ℕ → TurnState → List Player → Tally
unfolding award_guessers compute_drawer_bonus modify_player
score_turn now duration turn players =
    let guessed =
      award_guessers now turn.start_time duration 1 turn.guess_order
        (record { players = players; guesser_scores = []; scores = [] }) in
    let reset = record guessed {
      players = map (reset_streak turn.drawer_id turn.guess_order) guessed.players;
    } in
    reward_drawer turn.drawer_id (compute_drawer_bonus reset.guesser_scores) reset

abbrev pub tally_for : TurnEndReason → ℕ → ℕ → TurnState → List Player → Tally
tally_for drawer_disconnected now duration turn players = record {
  players = players;
  guesser_scores = [];
  scores = [];
}
tally_for reason now duration turn players = score_turn now duration turn players

-- The steps up to `room.turn = None`.
abbrev pub close_turn : Env → TurnEndReason → TurnState → Session → Session
close_turn env reason turn s =
    let tally =
      tally_for reason env.now (s.room.config.turn_duration * second) turn s.room.players in
    let scored = set_room (λ r. record r { players = tally.players }) (cancel_turn_tasks turn s) in
    let told = broadcast (turn_ended turn.word tally.scores reason) scored in
    set_room (λ r. record r { turn = none }) told

abbrev pub end_turn_of : Env → TurnEndReason → Option TurnState → Session → Session
end_turn_of env reason none s = s
end_turn_of env reason (some turn) s = advance_turn_or_round env (close_turn env reason turn s)

unfoldable pub end_turn : Env → TurnEndReason → Session → Session
unfolding score_turn
end_turn env reason s = end_turn_of env reason s.room.turn s
