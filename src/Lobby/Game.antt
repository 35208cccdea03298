-- ===== src/Lobby/Game.antt =====
-- backend/room_manager.py, `start_game` and `handle_rematch`.
use skribbl_app.Prelude.{
  ℕ, ◌+◌, false, not, Option, none, some, List, [], ◌∷◌, map, length, get_elem?, ltb, ◌==◌,
  if◌then◌else◌,
}
use skribbl_app.Text.{codes}
use skribbl_app.Models.{lobby, word_selection, game_over, state_eq, Player, Room, is_active}
use skribbl_app.GameOver.{active_players}
use skribbl_app.Payloads.{serialize_players, serialize_config}
use skribbl_app.Session.{
  Session, rematch_started, game_started, raised, index_error, emit, broadcast, set_room,
}
use skribbl_app.Lobby.{
  Reply, error, told, crashed, game_not_active, permission_denied, insufficient_players,
}

-- The index of the first player who is connected and no spectator, or `start` if there is none.
abbrev pub first_active : ℕ → ℕ → List Player → ℕ
first_active start i [] = start
first_active start i (p ∷ players) =
    let later = first_active start (i + 1) players in if is_active p then i else later

abbrev pub unready : Player → Player
unready p = record p { is_ready = false; become_player_requests_count = 0 }

abbrev pub open_game : Room → Room
open_game r = record r {
  players = map unready r.players;
  state = word_selection;
  current_round = 1;
  drawer_index = first_active r.drawer_index 0 r.players;
}

abbrev pub announce_game : Option Player → Session → Reply × Session
announce_game none s = (crashed, emit (raised index_error) s)
announce_game (some drawer) s =
    let message = game_started drawer.id s.room.current_round s.room.config.num_rounds in
    (told message, broadcast message s)

unfoldable pub start_game : ℕ → Session → Reply × Session
start_game id s =
    if not (s.room.host_id == id)
    then (error permission_denied (codes "Only the host can start the game"), s)
    else if not (state_eq s.room.state lobby)
    then (error game_not_active (codes "Game can only be started from the lobby"), s)
    else if ltb (length (active_players s.room.players)) 2
    then (
      error insufficient_players (codes "At least 2 active players are required to start the game"),
      s,
    )
    else let opened = set_room open_game s in
      announce_game (get_elem? opened.room.players opened.room.drawer_index) opened

-- What a rematch takes from a player; the stats of the session stay.
abbrev pub reset_player : Player → Player
reset_player p = record p {
  score = 0;
  has_guessed = false;
  streak = 0;
  max_streak = 0;
  correct_guesses_count = 0;
  fastest_guess_time = none;
  drawer_points_earned = 0;
  become_player_requests_count = 0;
}

abbrev pub reset_room : Room → Room
reset_room r = record r {
  players = map reset_player r.players;
  current_round = 0;
  drawer_index = 0;
  used_words = [];
  word_pool = [];
  turn = none;
  state = lobby;
}

unfoldable pub handle_rematch : ℕ → Session → Reply × Session
handle_rematch id s =
    if not (s.room.host_id == id)
    then (error permission_denied (codes "Only the host can initiate a rematch"), s)
    else if not (state_eq s.room.state game_over)
    then (error game_not_active (codes "Rematch can only be initiated from game over state"), s)
    else let reset = set_room reset_room s in
      let message =
        rematch_started (serialize_players reset.room) (serialize_config reset.room.config) in
      (told message, broadcast message reset)
