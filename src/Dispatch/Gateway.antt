-- ===== src/Dispatch/Gateway.antt =====
-- backend/grpc_server.py, `_dispatch_message`: the messages that the gateway passes on for a player
-- whose room is found; those that make or find a room are left out.
use skribbl_app.Prelude.{ℕ, Option, none, some, List}
use skribbl_app.Text.{Text, codes}
use skribbl_app.Models.{get_player}
use skribbl_app.Session.{
  Env, Session, Drawing, stroke, highlighter, shape, fill, undo, drawn, clear_canvas, broadcast,
}
use skribbl_app.Selection.{handle_word_selection}
use skribbl_app.Guess.{handle_guess}
use skribbl_app.Lobby.{error, unknown_message, toggle_ready, update_profile}
use skribbl_app.Lobby.Settings.{update_settings}
use skribbl_app.Lobby.Game.{handle_rematch}
use skribbl_app.Lobby.Members.{kick_player, transfer_host, leave_room}
use skribbl_app.Votes.{start_vote_kick, cast_vote_kick}
use skribbl_app.Joining.Requests.{Identifier, respond_join_request, cancel_pending_join_request}
use skribbl_app.Presence.{Wait, Hall, handle_disconnect}
use skribbl_app.Joining.Roles.{
  request_become_player, respond_spectator_role_request, cancel_spectator_role_request,
}
use skribbl_app.Dispatch.{
  Hub, door_of, with_session, with_ballot, with_door, start_and_begin, chat, react, tell_typing,
  end_game_now, ClientMessage, update_settings_msg, start_game_msg, rematch_msg, toggle_ready_msg,
  leave_room_msg, end_game_now_msg, select_word_msg, guess_msg, chat_msg, draw_msg,
  clear_canvas_msg, request_become_player_msg, kick_player_msg, vote_kick_msg, transfer_host_msg,
  vote_kick_cast_msg, respond_join_request_msg, respond_role_request_msg, cancel_role_request_msg,
  reaction_msg, typing_msg, update_profile_msg, unknown_msg, Handled, Answer, nothing, reply, stays,
  quietly, left_with, vote_error_only, draw,
}

-- A stroke and a fill are passed on from whomever they come.
abbrev pub gateway_drawing : ℕ → Drawing → Text → Session → Session
gateway_drawing id stroke payload s = broadcast (drawn stroke payload) s
gateway_drawing id fill payload s = broadcast (drawn fill payload) s
gateway_drawing id undo payload s = draw id (drawn undo payload) s
gateway_drawing id shape payload s = draw id (drawn shape payload) s
gateway_drawing id highlighter payload s = draw id (drawn highlighter payload) s

-- The branches that ws_handler.py has as well.
unfoldable pub dispatch_of_client : Env → (new_id player_id : ℕ) → ClientMessage → Hub → Handled
unfolding get_player update_settings start_and_begin handle_word_selection handle_guess chat
    kick_player start_vote_kick cast_vote_kick transfer_host respond_join_request
    request_become_player respond_spectator_role_request cancel_spectator_role_request leave_room
    toggle_ready update_profile handle_rematch end_game_now
dispatch_of_client env new_id id (update_settings_msg d) h =
    quietly h (update_settings env.unicode id d h.ballot.session)
dispatch_of_client env new_id id start_game_msg h =
    quietly h (start_and_begin env id h.ballot.session)
dispatch_of_client env new_id id (select_word_msg word) h =
    stays nothing (with_session h (handle_word_selection env id word h.ballot.session))
dispatch_of_client env new_id id (guess_msg text) h =
    stays nothing (with_session h (handle_guess env id text h.ballot.session))
dispatch_of_client env new_id id (chat_msg text) h =
    stays nothing (with_session h (chat env id text h.ballot.session))
dispatch_of_client env new_id id (draw_msg kind payload) h =
    stays nothing (with_session h (gateway_drawing id kind payload h.ballot.session))
dispatch_of_client env new_id id clear_canvas_msg h =
    stays nothing (with_session h (broadcast clear_canvas h.ballot.session))
dispatch_of_client env new_id id (kick_player_msg target_id) h =
    quietly h (kick_player id target_id h.ballot.session)
dispatch_of_client env new_id id (transfer_host_msg target_id) h =
    let (r, s) = transfer_host id target_id h.ballot.session in stays (reply r) (with_session h s)
dispatch_of_client env new_id id leave_room_msg h = left_with h (leave_room id h.ballot.session)
dispatch_of_client env new_id id (reaction_msg emoji) h =
    let s = h.ballot.session in
    stays nothing (with_session h (react (get_player id s.room) emoji s))
dispatch_of_client env new_id id (typing_msg is_typing) h =
    let s = h.ballot.session in
    stays nothing (with_session h (tell_typing id (get_player id s.room) is_typing s))
dispatch_of_client env new_id id toggle_ready_msg h = quietly h (toggle_ready id h.ballot.session)
dispatch_of_client env new_id id rematch_msg h = quietly h (handle_rematch id h.ballot.session)
dispatch_of_client env new_id id end_game_now_msg h =
    let (answer, s) = end_game_now id h.ballot.session in stays answer (with_session h s)
dispatch_of_client env new_id id (respond_join_request_msg request_id action) h =
    let (r, d) = respond_join_request env id request_id new_id action (door_of h) in
    stays (reply r) (with_door h d)
dispatch_of_client env new_id id request_become_player_msg h =
    let (r, d) = request_become_player env id new_id (door_of h) in stays (reply r) (with_door h d)
dispatch_of_client env new_id id (respond_role_request_msg request_id accepts) h =
    let (r, d) = respond_spectator_role_request id request_id accepts (door_of h) in
    stays (reply r) (with_door h d)
dispatch_of_client env new_id id (cancel_role_request_msg request_id) h =
    let (r, d) = cancel_spectator_role_request id request_id (door_of h) in
    stays (reply r) (with_door h d)
dispatch_of_client env new_id id (vote_kick_msg target_id) h =
    let (r, b) = start_vote_kick env id target_id h.ballot in
    stays (vote_error_only r) (with_ballot h b)
dispatch_of_client env new_id id (vote_kick_cast_msg vote) h =
    let (r, b) = cast_vote_kick env id vote h.ballot in stays (vote_error_only r) (with_ballot h b)
dispatch_of_client env new_id id (update_profile_msg name avatar) h =
    quietly h (update_profile env.unicode id name avatar h.ballot.session)
dispatch_of_client env new_id id unknown_msg h =
    stays (reply (error unknown_message (codes "Unknown message type"))) h

-- What the gateway passes on: a message of the client; `leave_room` with the reason disconnect, or
-- `client_disconnected`; and `cancel_join_request`.
pub data GatewayMessage : Type 0 where
  from_client : ClientMessage → GatewayMessage
  client_disconnected : GatewayMessage
  cancel_join_request : Identifier → GatewayMessage

-- A room with its votes and requests, and the tasks that wait for its players.
pub record Site : Type 0 where
  pub hub : Hub
  pub waits : List Wait
  pub next_wait : ℕ

pub record Dispatched : Type 0 where
  pub answer : Answer
  pub site : Option Site

abbrev pub site_with : Site → Option Hub → Option Site
site_with g none = none
site_with g (some hub) = some (record g { hub = hub })

abbrev pub hall_of : Site → Hall
hall_of g = record { ballot = g.hub.ballot; waits = g.waits; next_wait = g.next_wait }

abbrev pub with_hall : Site → Option Hall → Option Site
with_hall g none = none
with_hall g (some h) =
    some (record { hub = with_ballot g.hub h.ballot; waits = h.waits; next_wait = h.next_wait })

abbrev pub dispatched : Site → Handled → Dispatched
dispatched g r = record { answer = r.answer; site = site_with g r.hub }

unfoldable pub dispatch_message :
    Env → (carried : ℕ → Option ℕ) → (new_id player_id : ℕ) → GatewayMessage → Site → Dispatched
unfolding dispatch_of_client handle_disconnect cancel_pending_join_request
dispatch_message env carried new_id id (from_client m) g =
    dispatched g (dispatch_of_client env new_id id m g.hub)
dispatch_message env carried new_id id client_disconnected g = record {
  answer = nothing;
  site = with_hall g (handle_disconnect env id (hall_of g));
}
dispatch_message env carried new_id id (cancel_join_request identifier) g =
    let d = cancel_pending_join_request carried identifier (door_of g.hub) in
    record { answer = nothing; site = some (record g { hub = with_door g.hub d }) }
