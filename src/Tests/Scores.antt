-- ===== src/Tests/Scores.antt =====
-- Tests of the scores, the ranking and the session stats.
use skribbl_app.Prelude.{◌+◌, ◌≤◌, ◌≡◌, refl, some, List, [], ◌∷◌, arith, if◌then◌else◌}
use skribbl_app.Scoring.{sum, compute_guesser_score, compute_drawer_bonus}
use skribbl_app.Scoring.Bounds.{compute_guesser_score_bounds}
use skribbl_app.Models.{Player, TurnState, Room}
use skribbl_app.Models.Players.{total_score}
use skribbl_app.GameOver.{active_players, build_game_over_payload}
use skribbl_app.GameOver.Wins.{AllSettled, build_game_over_payload-AllSettled}
use skribbl_app.EndTurn.{score_turn}
use skribbl_app.EndTurn.Scores.{has_player, total_score-score_turn}
use skribbl_app.Tests.Samples.{alice, bob, carol, watcher, cat_turn, lobby_room}

first_at_once : compute_guesser_score 0 80 1 ≡ 750
unfolding compute_guesser_score
first_at_once = refl

fourth_at_the_end : compute_guesser_score 80 80 4 ≡ 45
unfolding compute_guesser_score
fourth_at_the_end = refl

compute_guesser_score_bounds_example :
    (45 ≤ compute_guesser_score 20 80 2) × (compute_guesser_score 20 80 2 ≤ 750)
compute_guesser_score_bounds_example = compute_guesser_score_bounds 20 80 2 (omega arith)

abbrev three : List Player
three = alice ∷ record bob { guess_time = some 40_000_000 } ∷ carol ∷ []

-- Bob has guessed after 20 of 80 seconds.
abbrev guessed_turn : TurnState
guessed_turn = record cat_turn { guess_order = 2 ∷ [] }

bob_scores : (score_turn 50_000_000 80_000_000 guessed_turn three).scores ≡ (2, 422) ∷ (1, 422) ∷ []
unfolding score_turn
bob_scores = refl

total_score-score_turn_example :
    total_score (score_turn 50_000_000 80_000_000 guessed_turn three).players
    ≡ total_score three
      + sum (score_turn 50_000_000 80_000_000 guessed_turn three).guesser_scores
      + (if has_player guessed_turn.drawer_id three
          then compute_drawer_bonus
              (score_turn 50_000_000 80_000_000 guessed_turn three).guesser_scores
          else 0)
total_score-score_turn_example = total_score-score_turn 50_000_000 80_000_000 guessed_turn three

abbrev finished : Room
finished = lobby_room (record alice { score = 300 } ∷ record bob { score = 750 } ∷ watcher ∷ [])

build_game_over_payload-AllSettled_example :
    AllSettled
      (active_players finished.players)
      finished.players
      (build_game_over_payload finished).1.players
build_game_over_payload-AllSettled_example = build_game_over_payload-AllSettled finished
