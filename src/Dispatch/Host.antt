-- ===== src/Dispatch/Host.antt =====
-- The host of a room over every message of a player.
use skribbl_app.Prelude.{ℕ, ◌≡◌, inl, inr, true, Option, none, some, arith}
use skribbl_app.Models.{get_player}
use skribbl_app.Session.{Env, Session, drawn, clear_canvas}
use skribbl_app.Lobby.{Reply, left_room}
use skribbl_app.Lobby.Answers.{ready, profile, settings, start, rematch, transfer, kick, answer}
use skribbl_app.Lobby.Host.{HasHost, answer-HasHost}
use skribbl_app.Lobby.Game.{start_game}
use skribbl_app.Lobby.Members.{leave_room}
use skribbl_app.Lobby.Leaving.{Left, leave_room-Left}
use skribbl_app.Votes.{voter_connected}
use skribbl_app.Dispatch.{
  Hub, door_of, handle_local_message, hub_with, start_and_begin, begin_if_started, ClientMessage,
  update_settings_msg, start_game_msg, rematch_msg, toggle_ready_msg, leave_room_msg,
  end_game_now_msg, select_word_msg, guess_msg, chat_msg, draw_msg, clear_canvas_msg,
  request_become_player_msg, kick_player_msg, vote_kick_msg, transfer_host_msg, vote_kick_cast_msg,
  respond_join_request_msg, respond_role_request_msg, cancel_role_request_msg, reaction_msg,
  typing_msg, update_profile_msg, unknown_msg,
}
use skribbl_app.Dispatch.Seats.{
  SameSeats-HasHost, start_turn-SameSeats, handle_guess-SameSeats, chat-SameSeats, react-SameSeats,
  tell_typing-SameSeats, draw-SameSeats, end_game_now-SameSeats, handle_word_selection-SameSeats,
}
use skribbl_app.Dispatch.Doors.{
  respond_join_request-HasHost, request_become_player-HasHost, respond_role-HasHost,
  cancel_role-HasHost, cast_vote_kick-HasHost, start_vote_kick-HasHost,
}

-- A room that is still there has its host among its players.
abbrev pub Hosted : Option Hub → Type 0
Hosted none = Unit
Hosted (some h) = HasHost h.ballot.session.room

module _ (env : Env) (id : ℕ) where
  begin-HasHost :
      (r : Reply) (s : Session) → HasHost s.room → HasHost (begin_if_started env r s).room
  begin-HasHost r s h =
      let begun = SameSeats-HasHost (start_turn-SameSeats env s) h in grind (arith, begun, h)

  hub_with-Hosted :
      (hub : Hub) (r : Reply) (s : Option Session)
      → Left id hub.ballot.session.room s
      → Hosted (hub_with hub s)
  hub_with-Hosted hub r none h = tt
  hub_with-Hosted hub r (some s) h = h.1

  leave_room-Hosted :
      (hub : Hub)
      → HasHost hub.ballot.session.room
      → Hosted (hub_with hub (leave_room id hub.ballot.session).1)
  leave_room-Hosted hub h = elim (leave_room-Left id hub.ballot.session h) [
    | inl (waits, left) ↦ hub_with-Hosted hub left_room (leave_room id hub.ballot.session).1 left
    | inr (plays, kept) ↦ rw kept h
  ]

-- Whatever a connected player sends, in any state of the room, the host of the room is still one of
-- its players afterwards, unless the room is deleted.
pub handle_local_message-Hosted :
    (env : Env) (new_id id : ℕ) (m : ClientMessage) (hub : Hub)
    → voter_connected (get_player id hub.ballot.session.room) ≡ true
    → HasHost hub.ballot.session.room
    → Hosted (handle_local_message env new_id id m hub).hub
unfolding handle_local_message start_and_begin answer
handle_local_message-Hosted env new_id id (update_settings_msg d) hub on h =
    answer-HasHost env.unicode id (settings d) hub.ballot.session h
handle_local_message-Hosted env new_id id start_game_msg hub on h =
    begin-HasHost env id (start_game id hub.ballot.session).0 (start_game id hub.ballot.session).1
      (answer-HasHost env.unicode id start hub.ballot.session h)
handle_local_message-Hosted env new_id id rematch_msg hub on h =
    answer-HasHost env.unicode id rematch hub.ballot.session h
handle_local_message-Hosted env new_id id toggle_ready_msg hub on h =
    answer-HasHost env.unicode id ready hub.ballot.session h
handle_local_message-Hosted env new_id id leave_room_msg hub on h = leave_room-Hosted env id hub h
handle_local_message-Hosted env new_id id end_game_now_msg hub on h =
    SameSeats-HasHost (end_game_now-SameSeats id hub.ballot.session) h
handle_local_message-Hosted env new_id id (select_word_msg word) hub on h =
    SameSeats-HasHost (handle_word_selection-SameSeats env id word hub.ballot.session) h
handle_local_message-Hosted env new_id id (guess_msg text) hub on h =
    SameSeats-HasHost (handle_guess-SameSeats env id text hub.ballot.session) h
handle_local_message-Hosted env new_id id (chat_msg text) hub on h =
    SameSeats-HasHost (chat-SameSeats env id text hub.ballot.session) h
handle_local_message-Hosted env new_id id (draw_msg kind payload) hub on h =
    SameSeats-HasHost (draw-SameSeats id (drawn kind payload) hub.ballot.session) h
handle_local_message-Hosted env new_id id clear_canvas_msg hub on h =
    SameSeats-HasHost (draw-SameSeats id clear_canvas hub.ballot.session) h
handle_local_message-Hosted env new_id id request_become_player_msg hub on h =
    request_become_player-HasHost env (door_of hub) h id new_id
handle_local_message-Hosted env new_id id (kick_player_msg target_id) hub on h =
    answer-HasHost env.unicode id (kick target_id) hub.ballot.session h
handle_local_message-Hosted env new_id id (vote_kick_msg target_id) hub on h =
    start_vote_kick-HasHost env hub.ballot h id target_id on
handle_local_message-Hosted env new_id id (transfer_host_msg target_id) hub on h =
    answer-HasHost env.unicode id (transfer target_id) hub.ballot.session h
handle_local_message-Hosted env new_id id (vote_kick_cast_msg vote) hub on h =
    cast_vote_kick-HasHost env hub.ballot h id vote
handle_local_message-Hosted env new_id id (respond_join_request_msg request_id action) hub on h =
    respond_join_request-HasHost env (door_of hub) h id request_id new_id action
handle_local_message-Hosted env new_id id (respond_role_request_msg request_id accepts) hub on h =
    respond_role-HasHost env (door_of hub) h id request_id accepts
handle_local_message-Hosted env new_id id (cancel_role_request_msg request_id) hub on h =
    cancel_role-HasHost env (door_of hub) h id request_id
handle_local_message-Hosted env new_id id (reaction_msg emoji) hub on h =
    SameSeats-HasHost
      (react-SameSeats (get_player id hub.ballot.session.room) emoji hub.ballot.session) h
handle_local_message-Hosted env new_id id (typing_msg is_typing) hub on h =
    SameSeats-HasHost
      (tell_typing-SameSeats id (get_player id hub.ballot.session.room) is_typing
        hub.ballot.session)
      h
handle_local_message-Hosted env new_id id (update_profile_msg name avatar) hub on h =
    answer-HasHost env.unicode id (profile name avatar) hub.ballot.session h
handle_local_message-Hosted env new_id id unknown_msg hub on h = h
