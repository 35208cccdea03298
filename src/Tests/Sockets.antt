-- ===== src/Tests/Sockets.antt =====
-- Tests of the connection of a client, with the operations of one room as the manager.
use skribbl_app.Prelude.{
  ℕ, ◌≡◌, refl, false, not, Option, none, some, List, [], ◌∷◌, find, keep, ◌==◌, if◌then◌else◌,
}
use skribbl_app.Text.{Text, codes, mem_text, text_eq}
use skribbl_app.Session.{idle, room_joined}
use skribbl_app.Lobby.{Reply, told}
use skribbl_app.Lobby.Members.{leave_room}
use skribbl_app.Joining.{Visitor, Door, join_room_local, password_error, take_seat, seat, admit}
use skribbl_app.Joining.Requests.{by_socket, cancel_pending_join_request}
use skribbl_app.Dispatch.{
  Hub, Handled, ClientMessage, leave_room_msg, unknown_msg, handle_local_message, door_of,
  with_door,
}
use skribbl_app.Connection.{
  Identity, Entry, entered, refused, Outcome, stayed, left, RoomManager, Frame, message, not_object,
  join_room, other, identified, found, handled, departed, disconnected, unknown_message,
  websocket_handler, serve,
}
use skribbl_app.Connection.Protocol.{Ended, websocket_handler-Ended}
use skribbl_app.Tests.Samples.{alice, env, lobby_room}
use skribbl_app.Tests.Messages.{hub}

-- A worker that drains, with one room in its lobby.
abbrev lobby_hub : Hub
lobby_hub = record hub { ballot = record hub.ballot { session = idle (lobby_room (alice ∷ [])) } }

abbrev entry_of : Visitor → Reply × Door → Hub → Entry × Hub
entry_of v (told (room_joined id view), d) h =
    (entered (record { player_id = id; room_code = 77 }), with_door h d)
entry_of v (_, d) h = (refused, with_door h d)

abbrev joining : Visitor → Hub → Entry × Hub
joining v h = entry_of v (join_room_local env v (door_of h)) h

abbrev kept : Hub → Option Hub → Hub
kept h none = h
kept h (some after) = after

abbrev outcome_of : Hub → Handled → Outcome × Hub
outcome_of h r = (if r.left then left else stayed, kept h r.hub)

abbrev message_of : Text → ClientMessage
message_of msg_type = if text_eq msg_type (codes "leave_room") then leave_room_msg else unknown_msg

abbrev ws_player : Option (ℕ × ℕ) → Option Identity
ws_player none = none
ws_player (some (socket, id)) = some (record { player_id = id; room_code = 77 })

abbrev worker : RoomManager Hub Visitor
worker = record {
  create_room = λ v h. (refused, h);
  join_room = joining;
  handle_reconnect = λ v h. (refused, h);
  cancel_pending_join_request =
      λ id h. with_door h (cancel_pending_join_request (λ w. none) (by_socket 15) (door_of h));
  player_of = λ h. ws_player (find (λ e. e.0 == 15) h.ws_to_player);
  forget = λ h. record h { ws_to_player = keep (λ e. not (e.0 == 15)) h.ws_to_player };
  is_proxy = λ room_code h. false;
  forward_to_owner = λ who msg_type payload h. h;
  handle_local_message =
      λ id msg_type payload h. outcome_of h (handle_local_message env 0 id (message_of msg_type) h);
  leave_proxy = λ who h. h;
  handle_disconnect = λ id h. h;
}

abbrev visitor : ℕ → Text → Visitor
visitor id name = record {
  new_id = id;
  name = name;
  websocket = 15;
  avatar = none;
  as_spectator = false;
  password = none;
}

-- A client joins as two players, one after the other, and goes.
abbrev twice : List (Frame Visitor)
twice =
    message (join_room (some (visitor 50 (codes "erin"))))
    ∷ message (join_room (some (visitor 51 (codes "faye"))))
    ∷ []

websocket_handler-Ended_example : Ended (websocket_handler worker twice lobby_hub).calls
websocket_handler-Ended_example = websocket_handler-Ended worker twice lobby_hub

abbrev seated : ℕ → Identity
seated id = record { player_id = id; room_code = 77 }

-- Only the second of them is disconnected.
first_forgotten :
    (websocket_handler worker twice lobby_hub).calls
    ≡ disconnected (seated 51) ∷ identified (seated 51) ∷ identified (seated 50) ∷ []
unfolding websocket_handler serve join_room_local password_error take_seat seat admit
first_forgotten = refl

-- One who has left is found again by the entry that is left, and his guess is handled.
found_again :
    (websocket_handler worker
      (message (join_room (some (visitor 50 (codes "erin"))))
        ∷ message (other (codes "leave_room") none)
        ∷ message (other (codes "guess") none)
        ∷ [])
      lobby_hub).calls
    ≡ disconnected (seated 50)
      ∷ handled (seated 50)
      ∷ found (seated 50)
      ∷ departed (seated 50)
      ∷ identified (seated 50)
      ∷ []
unfolding websocket_handler serve join_room_local password_error take_seat seat admit
    handle_local_message leave_room text_eq
found_again = refl

-- One who is not identified is told that there is no message `vote_kick`, which there is.
vote_kick_unknown :
    (serve worker
      (message (other (codes "vote_kick") none) ∷ [])
      (record { identity = none; worker = lobby_hub; calls = []; sent = [] })).sent
    ≡ unknown_message ∷ []
unfolding serve mem_text text_eq
vote_kick_unknown = refl

-- JSON that is no object ends the loop: the message after it is not read.
not_object_ends :
    (serve worker
      (not_object ∷ twice)
      (record { identity = none; worker = lobby_hub; calls = []; sent = [] })).calls
    ≡ []
unfolding serve
not_object_ends = refl
