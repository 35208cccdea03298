-- ===== src/Presence.antt =====
-- backend/room_manager.py: players who lose their connection and come back, `handle_disconnect`,
-- `handle_reconnect`, `_permanently_remove_player` and `_reassign_host_if_disconnected`.
pub mod Return
pub mod Grace
pub mod Succession
pub mod RoundTrip
pub mod Ballots
use skribbl_app.Prelude.{
  ℕ, ◌+◌, ◌*◌, ◌/◌, Bool, true, false, not, ◌&&◌, ◌||◌, Option, none, some, List, [], ◌∷◌, ◌++◌,
  keep, any, find, length, ltb, leb, ◌==◌, if◌then◌else◌,
}
use skribbl_app.Text.{Text, codes, text_eq}
use skribbl_app.Models.{
  RoomState, lobby, game_over, playing, word_selection, state_eq, drawer_disconnected, Player,
  TurnState, Room, get_player, remove_player, modify_player, is_active,
}
use skribbl_app.Session.{
  Env, second, Session, vote_cancelled, vote_kick_ended, vote_kick_updated, system_chat,
  reconnect_resumed, player_reconnected, player_list, broadcast, set_room, is_pending, cancel,
}
use skribbl_app.Turns.{connected_count, active_count, end_game_insufficient_players}
use skribbl_app.EndTurn.{end_turn}
use skribbl_app.Guess.{active_turn}
use skribbl_app.Lobby.{tell_players, set_players}
use skribbl_app.Lobby.Members.{heir, crown}
use skribbl_app.Kick.{drew, in_game, end_if_guessed, next_host}
use skribbl_app.Votes.{VoteKick, Ballot, required_votes, voter_count, cast, drop_timer, kick_found}

-- The tasks that wait for a player: for 120 seconds until the player is removed, and for 3 seconds
-- until another host is named.
pub data WaitKind : Type 0 where
  clean_up reassign : WaitKind

pub record Wait : Type 0 where
  pub id : ℕ
  pub kind : WaitKind
  pub player_id : ℕ
  pub due : ℕ

-- A room with its votes, and the tasks that wait for its players.
pub record Hall : Type 0 where
  pub ballot : Ballot
  pub waits : List Wait
  pub next_wait : ℕ

abbrev pub room_of : Hall → Room
room_of h = h.ballot.session.room

abbrev pub in_session : (Session → Session) → Hall → Hall
in_session f h = record h { ballot = record h.ballot { session = f h.ballot.session } }

abbrev pub in_players : (List Player → List Player) → Hall → Hall
in_players f h = in_session (set_players f) h

abbrev pub drop_wait : ℕ → List Wait → List Wait
drop_wait id waits = keep (λ w. not (w.id == id)) waits

-- `if task is not None and not task.done(): task.cancel()`
abbrev pub cancel_wait : Option ℕ → Hall → Hall
cancel_wait none h = h
cancel_wait (some id) h = record h { waits = drop_wait id h.waits }

abbrev pub schedule : ℕ → WaitKind → ℕ → Hall → Hall
schedule due kind player_id h = record h {
  waits =
      h.waits ++ record { id = h.next_wait; kind = kind; player_id = player_id; due = due } ∷ [];
  next_wait = h.next_wait + 1;
}

abbrev pub lose : ℕ → Player → Player
lose now p = record p { is_connected = false; disconnect_time = some now; websocket = none }

-- The vote ends without a result.
abbrev pub cancel_vote : VoteKick → Text → Ballot → Ballot
cancel_vote v reason b =
    let text =
      codes "Vote to kick " ++ v.target_name ++ codes " was cancelled (" ++ reason ++ codes ")." in
    record b {
      session = broadcast (vote_kick_ended v.target_id v.target_name vote_cancelled text) b.session;
      vote_kick = none;
      timers = drop_timer v.timeout_task b.timers;
    }

-- The vote of a player who has gone is taken back; fewer votes may be enough now.
abbrev pub recount : Env → VoteKick → Ballot → Ballot
recount env v b =
    let voters = voter_count v.target_id b.session.room in
    let told =
      broadcast (vote_kick_updated v.target_id (length v.votes) (required_votes voters))
        b.session in
    if ltb voters 2
    then cancel_vote v (codes "not enough players") b
    else if leb (required_votes voters) (length v.votes)
    then record b {
      session = kick_found env (get_player v.target_id b.session.room) b.session;
      vote_kick = none;
      timers = drop_timer v.timeout_task b.timers;
    }
    else record b { session = told; vote_kick = some v }

abbrev pub drop_voter : Env → ℕ → Option VoteKick → Ballot → Ballot
drop_voter env id none b = b
drop_voter env id (some v) b =
    let less = record v { votes = cast id false v.votes } in
    if v.target_id == id then cancel_vote v (codes "player disconnected") b else recount env less b

-- The task that names another host, in place of one that is pending for the player.
abbrev pub await_host : Env → ℕ → Option Player → Hall → Hall
await_host env id none h = h
await_host env id (some player) h =
    let cleared = cancel_wait player.host_reassign_task h in
    in_players (modify_player id (λ p. record p { host_reassign_task = some cleared.next_wait }))
      (schedule (env.now + 3 * second) reassign id cleared)

-- What happens to the game.
abbrev pub game_without : Env → ℕ → Session → Session
game_without env id s =
    if not (in_game s.room)
    then s
    else if drew id s.room.turn
    then end_turn env drawer_disconnected s
    else if ltb (active_count s.room) 2
    then end_game_insufficient_players env s
    else end_if_guessed env (active_turn s.room) s

-- The steps after the host is seen to.
abbrev pub await_player : Env → ℕ → Hall → Hall
await_player env id h =
    let waiting =
      in_players (modify_player id (λ p. record p { cleanup_task = some h.next_wait }))
        (schedule (env.now + 120 * second) clean_up id h) in
    in_session (λ s. game_without env id (tell_players s)) waiting

-- A room is empty when nobody in it is connected, and idle between the games.
abbrev pub between_games : Room → Bool
between_games r = state_eq r.state lobby || state_eq r.state game_over

abbrev pub disconnect_of : Env → ℕ → Option Player → Hall → Option Hall
disconnect_of env id none h = some h
disconnect_of env id (some player) h =
    let lost = in_players (modify_player id (lose env.now)) h in
    let voted = record lost { ballot = drop_voter env id lost.ballot.vote_kick lost.ballot } in
    let hosted = await_host env id (get_player id (room_of voted)) voted in
    if not ((room_of voted).host_id == id)
    then some (await_player env id voted)
    else if leb 1 (connected_count (room_of voted))
    then some (await_player env id hosted)
    else if between_games (room_of voted)
    then none
    else some (await_player env id voted)

-- `none` where the room is deleted.
unfoldable pub handle_disconnect : Env → ℕ → Hall → Option Hall
unfolding get_player modify_player required_votes cast end_turn end_game_insufficient_players
handle_disconnect env id h = disconnect_of env id (find (λ p. p.id == id) (room_of h).players) h
