-- ===== src/Dispatch/Forwarded.antt =====
-- backend/room_manager.py, `_handle_forwarded_message`: the messages of a player whose connection is
-- on another worker. The room is owned by this worker; an exception is only logged.
use skribbl_app.Prelude.{ℕ, Option, none, some}
use skribbl_app.Text.{Text}
use skribbl_app.Models.{Player, get_player}
use skribbl_app.Session.{Env, Session, Drawing, stroke, fill, drawn, clear_canvas, broadcast}
use skribbl_app.Selection.{handle_word_selection}
use skribbl_app.Guess.{handle_guess}
use skribbl_app.Lobby.{toggle_ready, update_profile}
use skribbl_app.Lobby.Settings.{update_settings}
use skribbl_app.Lobby.Game.{handle_rematch}
use skribbl_app.Lobby.Members.{kick_player, remove_from_room}
use skribbl_app.Joining.Requests.{respond_join_request}
use skribbl_app.Joining.Roles.{
  request_become_player, respond_spectator_role_request, cancel_spectator_role_request,
}
use skribbl_app.Dispatch.{
  Hub, door_of, with_session, with_door, hub_with, start_and_begin, chat, react, tell_typing,
  end_game_now, ClientMessage, update_settings_msg, start_game_msg, rematch_msg, toggle_ready_msg,
  leave_room_msg, end_game_now_msg, select_word_msg, guess_msg, chat_msg, draw_msg,
  clear_canvas_msg, request_become_player_msg, kick_player_msg, vote_kick_msg, transfer_host_msg,
  vote_kick_cast_msg, respond_join_request_msg, respond_role_request_msg, cancel_role_request_msg,
  reaction_msg, typing_msg, update_profile_msg, unknown_msg,
}

-- The drawings that are passed on: `stroke` and `fill`, of whoever they are.
abbrev pub forward_drawing : Drawing → Text → Session → Session
forward_drawing stroke payload s = broadcast (drawn stroke payload) s
forward_drawing fill payload s = broadcast (drawn fill payload) s
forward_drawing _ payload s = s

-- The handler once the player is found in the room.
abbrev pub forwarded_of : Env → (new_id player_id : ℕ) → ClientMessage → Hub → Option Hub
forwarded_of env new_id id (guess_msg text) h =
    some (with_session h (handle_guess env id text h.ballot.session))
forwarded_of env new_id id (chat_msg text) h =
    some (with_session h (chat env id text h.ballot.session))
forwarded_of env new_id id (draw_msg kind payload) h =
    some (with_session h (forward_drawing kind payload h.ballot.session))
forwarded_of env new_id id clear_canvas_msg h =
    some (with_session h (broadcast clear_canvas h.ballot.session))
forwarded_of env new_id id toggle_ready_msg h =
    some (with_session h (toggle_ready id h.ballot.session).1)
forwarded_of env new_id id (update_profile_msg name avatar) h =
    some (with_session h (update_profile env.unicode id name avatar h.ballot.session).1)
forwarded_of env new_id id start_game_msg h =
    some (with_session h (start_and_begin env id h.ballot.session).1)
forwarded_of env new_id id (select_word_msg word) h =
    some (with_session h (handle_word_selection env id word h.ballot.session))
forwarded_of env new_id id (reaction_msg emoji) h =
    some (with_session h (react (get_player id h.ballot.session.room) emoji h.ballot.session))
forwarded_of env new_id id (typing_msg is_typing) h = some (
    with_session h
      (tell_typing id (get_player id h.ballot.session.room) is_typing h.ballot.session))
forwarded_of env new_id id leave_room_msg h = hub_with h (remove_from_room id h.ballot.session)
forwarded_of env new_id id (kick_player_msg target_id) h =
    some (with_session h (kick_player id target_id h.ballot.session).1)
forwarded_of env new_id id (update_settings_msg d) h =
    some (with_session h (update_settings env.unicode id d h.ballot.session).1)
forwarded_of env new_id id rematch_msg h =
    some (with_session h (handle_rematch id h.ballot.session).1)
forwarded_of env new_id id end_game_now_msg h =
    some (with_session h (end_game_now id h.ballot.session).1)
forwarded_of env new_id id (respond_join_request_msg request_id action) h =
    some (with_door h (respond_join_request env id request_id new_id action (door_of h)).1)
forwarded_of env new_id id request_become_player_msg h =
    some (with_door h (request_become_player env id new_id (door_of h)).1)
forwarded_of env new_id id (respond_role_request_msg request_id accepts) h =
    some (with_door h (respond_spectator_role_request id request_id accepts (door_of h)).1)
forwarded_of env new_id id (cancel_role_request_msg request_id) h =
    some (with_door h (cancel_spectator_role_request id request_id (door_of h)).1)
forwarded_of env new_id id (vote_kick_msg target_id) h = some h
forwarded_of env new_id id (vote_kick_cast_msg vote) h = some h
forwarded_of env new_id id (transfer_host_msg target_id) h = some h
forwarded_of env new_id id unknown_msg h = some h

abbrev pub forwarded_by :
    Option Player → Env → (new_id player_id : ℕ) → ClientMessage → Hub → Option Hub
forwarded_by none env new_id id m h = some h
forwarded_by (some p) env new_id id m h = forwarded_of env new_id id m h

-- None where the room is deleted.
unfoldable pub handle_forwarded_message :
    Env → (new_id player_id : ℕ) → ClientMessage → Hub → Option Hub
unfolding get_player update_settings start_and_begin handle_word_selection handle_guess chat
    kick_player remove_from_room respond_join_request request_become_player
    respond_spectator_role_request cancel_spectator_role_request toggle_ready update_profile
    handle_rematch end_game_now
handle_forwarded_message env new_id id m h =
    forwarded_by (get_player id h.ballot.session.room) env new_id id m h
