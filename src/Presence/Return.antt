-- ===== src/Presence/Return.antt =====
-- backend/room_manager.py, `handle_reconnect`, `_permanently_remove_player` and
-- `_reassign_host_if_disconnected`, on a room that is found.
use skribbl_app.Prelude.{
  ℕ, Bool, true, false, not, ◌&&◌, Option, none, some, List, [], ◌∷◌, ◌++◌, any, find, ltb, leb,
  ◌==◌, if◌then◌else◌,
}
use skribbl_app.Text.{Text, codes, text_eq}
use skribbl_app.Models.{
  RoomState, Player, TurnState, Room, get_player, remove_player, modify_player,
}
use skribbl_app.Payloads.{PlayerView, ConfigView, non_empty, serialize_players, serialize_config}
use skribbl_app.Session.{
  Env, Session, system_chat, reconnect_resumed, player_reconnected, broadcast, set_room, is_pending,
  cancel,
}
use skribbl_app.Turns.{connected_count, end_game_insufficient_players}
use skribbl_app.Lobby.{tell_players}
use skribbl_app.Lobby.Members.{heir, crown, forward_joins, forward_roles}
use skribbl_app.Kick.{in_game, next_host}
use skribbl_app.Presence.{
  WaitKind, clean_up, reassign, Wait, Hall, room_of, in_session, in_players, drop_wait, cancel_wait,
  between_games,
}

-- The payload of `reconnected`.
pub record Welcome : Type 0 where
  pub room_code : ℕ
  pub player_id : ℕ
  pub score : ℕ
  pub is_host : Bool
  pub players : List PlayerView
  pub config : ConfigView
  pub state : RoomState
  pub current_round : ℕ
  pub host_id : ℕ
  pub drawer_id : Option ℕ
  pub hint : Text

pub data ReconnectReply : Type 0 where
  reconnect_failed : ReconnectReply
  reconnected : Welcome → ReconnectReply

-- The player of a name: the first who is disconnected, else the first.
abbrev pub by_name : Option Player → Option Player → Option Player
by_name (some p) other = some p
by_name none other = other

abbrev pub returning : Text → List Player → Option Player
returning name players =
    by_name (find (λ p. text_eq p.name name && not p.is_connected) players)
      (find (λ p. text_eq p.name name) players)

-- `if avatar and not player.avatar: player.avatar = avatar`
abbrev pub choose_avatar : Option Text → Option Text → Option Text → Option Text
choose_avatar none (some avatar) old = some avatar
choose_avatar _ _ old = old

abbrev pub is_waiting : Option ℕ → List Wait → Bool
is_waiting none waits = false
is_waiting (some id) waits = any (λ w. w.id == id) waits

abbrev pub forget : Bool → Option ℕ → Option ℕ
forget true task = none
forget false task = task

-- The player object after the two tasks are cancelled and the connection is restored.
abbrev pub restore : List Wait → ℕ → Option Text → Player → Player
restore waits websocket avatar p = record p {
  cleanup_task = forget (is_waiting p.cleanup_task waits) p.cleanup_task;
  host_reassign_task = forget (is_waiting p.host_reassign_task waits) p.host_reassign_task;
  is_connected = true;
  disconnect_time = none;
  websocket = some websocket;
  avatar = choose_avatar (non_empty p.avatar) (non_empty avatar) p.avatar;
}

-- The countdown of a room that had too few players stops, if two players are connected.
abbrev pub stop_countdown : Session → Session
stop_countdown s =
    let task = s.room.insufficient_players_task in
    if leb 2 (connected_count s.room) && is_pending task s.tasks
    then broadcast reconnect_resumed (record s {
      tasks = cancel task s.tasks;
      room = record s.room { insufficient_players_task = none };
    })
    else s

abbrev pub drawer_of : Option TurnState → Option ℕ
drawer_of none = none
drawer_of (some turn) = some turn.drawer_id

abbrev pub hint_of : Option TurnState → Text
hint_of none = []
hint_of (some turn) = turn.hint

abbrev pub welcome : Player → Room → Welcome
welcome p r = record {
  room_code = r.code;
  player_id = p.id;
  score = p.score;
  is_host = p.id == r.host_id;
  players = serialize_players r;
  config = serialize_config r.config;
  state = r.state;
  current_round = r.current_round;
  host_id = r.host_id;
  drawer_id = drawer_of r.turn;
  hint = hint_of r.turn;
}

abbrev pub reconnect_as : ℕ → Option Text → Option Player → Hall → ReconnectReply × Hall
reconnect_as websocket avatar none h = (reconnect_failed, h)
reconnect_as websocket avatar (some p) h =
    let back = in_players (modify_player p.id (restore h.waits websocket avatar)) h in
    let woken = cancel_wait p.host_reassign_task (cancel_wait p.cleanup_task back) in
    let told =
      in_session (λ s. tell_players (broadcast (player_reconnected p.id p.name) (stop_countdown s)))
        woken in
    (reconnected (welcome p (room_of told)), told)

unfoldable pub handle_reconnect : Text → ℕ → Option Text → Hall → ReconnectReply × Hall
unfolding modify_player text_eq
handle_reconnect name websocket avatar h =
    reconnect_as websocket avatar (returning name (room_of h).players) h

abbrev pub end_if_few : Env → Session → Session
end_if_few env s =
    if in_game s.room && ltb (connected_count s.room) 2
    then end_game_insufficient_players env s
    else s

-- `_permanently_remove_player`; `none` where the room is deleted.
unfoldable pub permanently_remove : Env → ℕ → Hall → Option Hall
unfolding remove_player end_game_insufficient_players
permanently_remove env id h =
    let removed = in_session (set_room (remove_player id)) h in
    let crowned = in_session (crown (heir (room_of removed).players)) removed in
    let led = if (room_of removed).host_id == id then crowned else removed in
    if ltb (connected_count (room_of removed)) 1
    then none
    else some (in_session (λ s. end_if_few env (tell_players s)) led)

abbrev pub still_here : Option Player → Bool
still_here none = false
still_here (some p) = p.is_connected

abbrev pub hand_on : Player → Session → Session
hand_on p s =
    let text = 128081 ∷ 32 ∷ p.name ++ codes " is now the room host." in
    let told = broadcast (system_chat text) (tell_players (crown (some p) s)) in
    forward_roles p told.room.pending_role_requests
      (forward_joins p told.room.pending_join_requests told)

abbrev pub reassign_to : Option Player → Hall → Option Hall
reassign_to none h = if between_games (room_of h) then none else some h
reassign_to (some p) h = some (in_session (hand_on p) h)

-- `_reassign_host_if_disconnected`
unfoldable pub reassign_host : ℕ → Hall → Option Hall
unfolding get_player
reassign_host id h =
    if not ((room_of h).host_id == id)
    then some h
    else if still_here (get_player id (room_of h))
    then some h
    else reassign_to (next_host (room_of h).players) h

abbrev pub run_wait : Env → WaitKind → ℕ → Hall → Option Hall
run_wait env clean_up id h = permanently_remove env id h
run_wait env reassign id h = reassign_host id h

abbrev pub fire_found : Env → Option Wait → Hall → Option Hall
fire_found env none h = some h
fire_found env (some w) h =
    run_wait env w.kind w.player_id (record h { waits = drop_wait w.id h.waits })

-- A task that waits for a player wakes up.
unfoldable pub fire_wait : Env → ℕ → Hall → Option Hall
unfolding permanently_remove reassign_host
fire_wait env id h = fire_found env (find (λ w. w.id == id) h.waits) h
