-- ===== src/GameOver.antt =====
-- backend/game_engine.py, `build_game_over_payload`: the ranking, the awards and the session stats.
pub mod Ranking
pub mod Wins
use skribbl_app.Prelude.{
  ℕ, zero, suc, ◌+◌, ◌≡◌, refl, Bool, true, false, not, ◌&&◌, ◌||◌, Option, none, some, List, [],
  ◌∷◌, keep, map, ltb, leb, ◌==◌, if◌then◌else◌,
}
use skribbl_app.Text.{Text}
use skribbl_app.Models.{Player, Room}

-- `sorted(players, key=..., reverse=True)`, which keeps the order of players with equal keys;
-- `before a b` says that the key of `a` is at least that of `b`.
abbrev pub insert_by : (Player → Player → Bool) → Player → List Player → List Player
insert_by before p [] = p ∷ []
insert_by before p (q ∷ players) =
    let later = insert_by before p players in if before p q then p ∷ q ∷ players else q ∷ later

abbrev pub sorted_by : (Player → Player → Bool) → List Player → List Player
sorted_by before [] = []
sorted_by before (p ∷ players) = insert_by before p (sorted_by before players)

abbrev pub by_score : Player → Player → Bool
by_score p q = leb q.score p.score

abbrev pub by_session : Player → Player → Bool
by_session p q =
    ltb q.session_wins p.session_wins
    || (p.session_wins == q.session_wins) && leb q.session_score p.session_score

-- The first of the players with the greatest key, `max(players, key=..., default=None)`.
abbrev pub best_from : (Player → ℕ) → Player → List Player → Player
best_from key best [] = best
best_from key best (p ∷ players) =
    best_from key (if ltb (key best) (key p) then p else best) players

abbrev pub max_by : (Player → ℕ) → List Player → Option Player
max_by key [] = none
max_by key (p ∷ players) = some (best_from key p players)

abbrev pub time_or_zero : Player → ℕ
time_or_zero p = elim p.fastest_guess_time [ none ↦ 0 | some t ↦ t ]

-- The first of the players with the least fastest time.
abbrev pub fastest_from : Player → List Player → Player
fastest_from best [] = best
fastest_from best (p ∷ players) =
    fastest_from (if ltb (time_or_zero p) (time_or_zero best) then p else best) players

abbrev pub fastest : List Player → Option Player
fastest [] = none
fastest (p ∷ players) = some (fastest_from p players)

abbrev pub has_time : Player → Bool
has_time p = elim p.fastest_guess_time [ none ↦ false | some t ↦ true ]

-- The badges; the number is what the detail text shows, a time in ticks for the first.
pub data Badge : Type 0 where
  speed_demon master_artist streak_king sharpshooter : Badge

pub record Award : Type 0 where
  pub badge : Badge
  pub player_id : ℕ
  pub player_name : Text
  pub detail : ℕ

abbrev pub award : Badge → (Player → ℕ) → Option Player → List Award → List Award
award badge detail none awards = awards
award badge detail (some p) awards =
    record { badge = badge; player_id = p.id; player_name = p.name; detail = detail p } ∷ awards

abbrev pub mvp_awards : List Player → List Award
mvp_awards players = award speed_demon time_or_zero (fastest (keep has_time players)) (
    award master_artist (λ p. p.drawer_points_earned)
      (max_by (λ p. p.drawer_points_earned) (keep (λ p. ltb 0 p.drawer_points_earned) players))
      (award streak_king (λ p. p.max_streak)
        (max_by (λ p. p.max_streak) (keep (λ p. leb 2 p.max_streak) players))
        (award sharpshooter (λ p. p.correct_guesses_count)
          (max_by (λ p. p.correct_guesses_count)
            (keep (λ p. ltb 0 p.correct_guesses_count) players))
          [])))

pub record FinalScore : Type 0 where
  pub id : ℕ
  pub name : Text
  pub score : ℕ

pub record SessionStats : Type 0 where
  pub id : ℕ
  pub name : Text
  pub session_score : ℕ
  pub session_wins : ℕ
  pub session_games : ℕ

pub record GameOverPayload : Type 0 where
  pub scores : List FinalScore
  pub awards : List Award
  pub session_stats : List SessionStats

abbrev pub active_players : List Player → List Player
active_players players = keep (λ p. not p.is_spectator) players

-- `ranked_players[0].score`, or 0 if nobody is ranked, which awards no win either.
abbrev pub top_score : List Player → ℕ
top_score [] = 0
top_score (p ∷ ranked) = p.score

-- The wins, scores and games that one player object gets.
abbrev pub settle_player : ℕ → Player → Player
settle_player top p = if p.is_spectator then p else record p {
  session_wins = if ltb 0 top && (p.score == top) then p.session_wins + 1 else p.session_wins;
  session_score = p.session_score + p.score;
  session_games = p.session_games + 1;
}

unfoldable pub settle : Room → Room
settle room = record room {
  players =
      map (settle_player (top_score (sorted_by by_score (active_players room.players))))
        room.players;
}

-- The payload, and the room with its players' session fields brought up to date.
unfoldable pub build_game_over_payload : Room → GameOverPayload × Room
unfolding settle
build_game_over_payload room =
    let ranked = sorted_by by_score (active_players room.players) in
    let settled = settle room in
    let active = active_players settled.players in
    (
      record {
        scores = map (λ p. record { id = p.id; name = p.name; score = p.score }) ranked;
        awards = mvp_awards active;
        session_stats =
            map
              (λ p. record {
                id = p.id;
                name = p.name;
                session_score = p.session_score;
                session_wins = p.session_wins;
                session_games = p.session_games;
              })
              (sorted_by by_session active);
      },
      settled,
    )
