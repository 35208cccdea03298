-- ===== src/Dispatch.antt =====
-- backend/ws_handler.py, `_handle_local_message`: which operation a message of a player calls, and what
-- the player is sent back. The room of the player is found, and payloads have the keys that are read.
pub mod Forwarded
pub mod Alike
pub mod Gateway
pub mod SameEffect
pub mod Seats
pub mod Doors
pub mod Host
use skribbl_app.Prelude.{
  ℕ, Bool, true, false, not, Option, none, some, List, [], ◌∷◌, ◌==◌, if◌then◌else◌,
}
use skribbl_app.Text.{Text, codes}
use skribbl_app.Models.{lobby, state_eq, Player, TurnState, Room, get_player}
use skribbl_app.Session.{
  Env, Session, Drawing, Message, drawn, reaction, typing, chat_message, clear_canvas, broadcast,
  is_pending, cancel,
}
use skribbl_app.Turns.{start_turn, end_game_immediate}
use skribbl_app.Selection.{handle_word_selection}
use skribbl_app.Guess.{handle_guess, handle_chat}
use skribbl_app.Lobby.{
  Reply, error, crashed, left_room, permission_denied, unknown_message, toggle_ready,
  update_profile,
}
use skribbl_app.Lobby.Settings.{SettingsDict, update_settings}
use skribbl_app.Lobby.Game.{start_game, handle_rematch}
use skribbl_app.Lobby.Members.{transfer_host, kick_player, leave_room}
use skribbl_app.Votes.{Ballot, VoteReply, vote_error, start_vote_kick, cast_vote_kick}
use skribbl_app.Joining.{PendingJoin, PendingRole, DoorTimer, Door}
use skribbl_app.Joining.Requests.{Action, respond_join_request}
use skribbl_app.Joining.Roles.{
  request_become_player, respond_spectator_role_request, cancel_spectator_role_request,
}

-- A room with its votes and with what the manager keeps for its door.
pub record Hub : Type 0 where
  pub ballot : Ballot
  pub joins : List PendingJoin
  pub roles : List PendingRole
  pub ws_to_request : List (ℕ × ℕ)
  pub ws_to_player : List (ℕ × ℕ)
  pub player_to_room : List (ℕ × ℕ)
  pub timers : List DoorTimer
  pub next_timer : ℕ

abbrev pub door_of : Hub → Door
door_of h = record {
  session = h.ballot.session;
  joins = h.joins;
  roles = h.roles;
  ws_to_request = h.ws_to_request;
  ws_to_player = h.ws_to_player;
  player_to_room = h.player_to_room;
  timers = h.timers;
  next_timer = h.next_timer;
}

abbrev pub with_ballot : Hub → Ballot → Hub
with_ballot h b = record h { ballot = b }

abbrev pub with_session : Hub → Session → Hub
with_session h s = record h { ballot = record h.ballot { session = s } }

abbrev pub with_door : Hub → Door → Hub
with_door h d = record {
  ballot = record h.ballot { session = d.session };
  joins = d.joins;
  roles = d.roles;
  ws_to_request = d.ws_to_request;
  ws_to_player = d.ws_to_player;
  player_to_room = d.player_to_room;
  timers = d.timers;
  next_timer = d.next_timer;
}

-- The messages of an identified player, with what is read of their payloads; of drawings, all of it.
pub data ClientMessage : Type 0 where
  update_settings_msg : SettingsDict → ClientMessage
  start_game_msg rematch_msg toggle_ready_msg leave_room_msg end_game_now_msg : ClientMessage
  select_word_msg guess_msg chat_msg : Text → ClientMessage
  draw_msg : Drawing → (payload : Text) → ClientMessage
  clear_canvas_msg request_become_player_msg : ClientMessage
  kick_player_msg vote_kick_msg transfer_host_msg : (target_id : ℕ) → ClientMessage
  vote_kick_cast_msg : (vote : Bool) → ClientMessage
  respond_join_request_msg : (request_id : ℕ) → Action → ClientMessage
  respond_role_request_msg : (request_id : ℕ) (accepts : Bool) → ClientMessage
  cancel_role_request_msg : (request_id : Option ℕ) → ClientMessage
  reaction_msg : (emoji : Text) → ClientMessage
  typing_msg : (is_typing : Bool) → ClientMessage
  update_profile_msg : (name avatar : Option Text) → ClientMessage
  unknown_msg : ClientMessage

-- What is sent back to the player.
pub data Answer : Type 0 where
  nothing : Answer
  reply : Reply → Answer
  vote_reply : VoteReply → Answer

-- What a message comes to; `hub` is none where the room is deleted, and `left` is what the handler
-- returns.
pub record Handled : Type 0 where
  pub answer : Answer
  pub left : Bool
  pub hub : Option Hub

abbrev pub stays : Answer → Hub → Handled
stays answer hub = record { answer = answer; left = false; hub = some hub }

-- Only an error is sent back; an exception is answered by INTERNAL_ERROR.
abbrev pub error_only : Reply → Answer
error_only (error code text) = reply (error code text)
error_only crashed = reply crashed
error_only _ = nothing

abbrev pub vote_error_only : VoteReply → Answer
vote_error_only (vote_error e) = vote_reply (vote_error e)
vote_error_only _ = nothing

abbrev pub quietly : Hub → Reply × Session → Handled
quietly h (r, s) = stays (error_only r) (with_session h s)

abbrev pub begin_if_started : Env → Reply → Session → Session
begin_if_started env (error code text) s = s
begin_if_started env crashed s = s
begin_if_started env _ s = start_turn env s

-- `start_game`, and the first turn if the game has started
unfoldable pub start_and_begin : Env → ℕ → Session → Reply × Session
unfolding start_game start_turn
start_and_begin env id s = let (r, started) = start_game id s in (r, begin_if_started env r started)

abbrev pub is_drawer : ℕ → Option TurnState → Bool
is_drawer id none = false
is_drawer id (some turn) = turn.drawer_id == id

abbrev pub lobby_chat : Option Player → Text → Session → Session
lobby_chat none text s = s
lobby_chat (some p) text s = broadcast (chat_message p.name text false) s

unfoldable pub chat : Env → ℕ → Text → Session → Session
unfolding get_player handle_chat
chat env id text s =
    if state_eq s.room.state lobby
    then lobby_chat (get_player id s.room) text s
    else handle_chat env id text s

abbrev pub react : Option Player → Text → Session → Session
react none emoji s = s
react (some p) emoji s = broadcast (reaction p.name emoji) s

abbrev pub tell_typing : ℕ → Option Player → Bool → Session → Session
tell_typing id none is_typing s = s
tell_typing id (some p) is_typing s = broadcast (typing id p.name is_typing) s

-- The countdown of a room with too few players is cancelled, if it runs.
abbrev pub stop_waiting : Session → Session
stop_waiting s =
    if is_pending s.room.insufficient_players_task s.tasks
    then record s {
      tasks = cancel s.room.insufficient_players_task s.tasks;
      room = record s.room { insufficient_players_task = none };
    }
    else s

unfoldable pub end_game_now : ℕ → Session → Answer × Session
unfolding end_game_immediate
end_game_now id s =
    if s.room.host_id == id
    then (nothing, end_game_immediate (stop_waiting s))
    else (reply (error permission_denied (codes "Only the host can end the game")), s)

abbrev pub is_left : Reply → Bool
is_left left_room = true
is_left _ = false

abbrev pub hub_with : Hub → Option Session → Option Hub
hub_with h none = none
hub_with h (some s) = some (with_session h s)

abbrev pub left_with : Hub → Reply × Option Session → Handled
left_with h (r, s) = record { answer = reply r; left = is_left r; hub = hub_with h s }

abbrev pub draw : ℕ → Message → Session → Session
draw id message s = if is_drawer id s.room.turn then broadcast message s else s

-- `new_id` is the id that a player gets who is let in.
unfoldable pub handle_local_message : Env → (new_id player_id : ℕ) → ClientMessage → Hub → Handled
unfolding get_player update_settings start_and_begin handle_word_selection handle_guess chat
    kick_player start_vote_kick cast_vote_kick transfer_host respond_join_request
    request_become_player respond_spectator_role_request cancel_spectator_role_request leave_room
    toggle_ready update_profile handle_rematch end_game_now
handle_local_message env new_id id (update_settings_msg d) h =
    quietly h (update_settings env.unicode id d h.ballot.session)
handle_local_message env new_id id start_game_msg h =
    quietly h (start_and_begin env id h.ballot.session)
handle_local_message env new_id id (select_word_msg word) h =
    stays nothing (with_session h (handle_word_selection env id word h.ballot.session))
handle_local_message env new_id id (guess_msg text) h =
    stays nothing (with_session h (handle_guess env id text h.ballot.session))
handle_local_message env new_id id (chat_msg text) h =
    stays nothing (with_session h (chat env id text h.ballot.session))
handle_local_message env new_id id (draw_msg kind payload) h =
    stays nothing (with_session h (draw id (drawn kind payload) h.ballot.session))
handle_local_message env new_id id clear_canvas_msg h =
    stays nothing (with_session h (draw id clear_canvas h.ballot.session))
handle_local_message env new_id id (kick_player_msg target_id) h =
    quietly h (kick_player id target_id h.ballot.session)
handle_local_message env new_id id (vote_kick_msg target_id) h =
    let (r, b) = start_vote_kick env id target_id h.ballot in
    stays (vote_error_only r) (with_ballot h b)
handle_local_message env new_id id (vote_kick_cast_msg vote) h =
    let (r, b) = cast_vote_kick env id vote h.ballot in stays (vote_error_only r) (with_ballot h b)
handle_local_message env new_id id (transfer_host_msg target_id) h =
    let (r, s) = transfer_host id target_id h.ballot.session in stays (reply r) (with_session h s)
handle_local_message env new_id id (respond_join_request_msg request_id action) h =
    let (r, d) = respond_join_request env id request_id new_id action (door_of h) in
    stays (reply r) (with_door h d)
handle_local_message env new_id id request_become_player_msg h =
    let (r, d) = request_become_player env id new_id (door_of h) in
    stays (error_only r) (with_door h d)
handle_local_message env new_id id (respond_role_request_msg request_id accepts) h =
    let (r, d) = respond_spectator_role_request id request_id accepts (door_of h) in
    stays (error_only r) (with_door h d)
handle_local_message env new_id id (cancel_role_request_msg request_id) h =
    let (r, d) = cancel_spectator_role_request id request_id (door_of h) in
    stays (error_only r) (with_door h d)
handle_local_message env new_id id leave_room_msg h = left_with h (leave_room id h.ballot.session)
handle_local_message env new_id id (reaction_msg emoji) h =
    let s = h.ballot.session in
    stays nothing (with_session h (react (get_player id s.room) emoji s))
handle_local_message env new_id id (typing_msg is_typing) h =
    let s = h.ballot.session in
    stays nothing (with_session h (tell_typing id (get_player id s.room) is_typing s))
handle_local_message env new_id id toggle_ready_msg h = quietly h (toggle_ready id h.ballot.session)
handle_local_message env new_id id (update_profile_msg name avatar) h =
    quietly h (update_profile env.unicode id name avatar h.ballot.session)
handle_local_message env new_id id rematch_msg h = quietly h (handle_rematch id h.ballot.session)
handle_local_message env new_id id end_game_now_msg h =
    let (answer, s) = end_game_now id h.ballot.session in stays answer (with_session h s)
handle_local_message env new_id id unknown_msg h =
    stays (reply (error unknown_message (codes "Unknown message type"))) h
