-- ===== src/Connection.antt =====
-- backend/ws_handler.py, `websocket_handler`: the loop over the frames of one client and what is done
-- when the connection ends. What the handler calls is an interface: the room manager, and the helpers
-- for a room that another worker owns. A send that fails is not modelled.
pub mod Protocol
use skribbl_app.Prelude.{ℕ, Bool, Option, none, some, List, [], ◌∷◌, map, if◌then◌else◌}
use skribbl_app.Text.{Text, codes, mem_text}

-- The `player_id` and the `room_code` of a connection.
pub record Identity : Type 0 where
  pub player_id : ℕ
  pub room_code : ℕ

-- How the manager answers a newcomer: by the type of reply that identifies him, by another reply, or
-- by an exception.
pub data Entry : Type 0 where
  entered : Identity → Entry
  refused raised : Entry

-- What `_handle_local_message` returns, or that it raises.
pub data Outcome : Type 0 where
  stayed left failed : Outcome

-- What the handler calls, with a state `S` of the worker and payloads `P`. `player_of` and `forget`
-- are the entry of this websocket in `_ws_to_player`, and `is_proxy` is `_is_proxy_connection`.
-- `leave_proxy` is `_notify_owner_disconnect` and the clean-up of the proxy's own player.
pub record RoomManager (S P : Type 0) : Type 0 where
  pub create_room : P → S → Entry × S
  pub join_room : P → S → Entry × S
  pub handle_reconnect : P → S → Entry × S
  pub cancel_pending_join_request : (request_id : Option ℕ) → S → S
  pub player_of : S → Option Identity
  pub forget : S → S
  pub is_proxy : (room_code : ℕ) → S → Bool
  pub forward_to_owner : Identity → (msg_type : Text) → Option P → S → S
  pub handle_local_message : (player_id : ℕ) (msg_type : Text) → Option P → S → Outcome × S
  pub leave_proxy : Identity → S → S
  pub handle_disconnect : (player_id : ℕ) → S → S

-- A message by its type; the payload is none where it is no object.
pub data Request (P : Type 0) : Type 0 where
  create_room join_room reconnect : Option P → Request P
  cancel_join_request : (request_id : Option ℕ) → Request P
  pong : Request P
  other : (msg_type : Text) → Option P → Request P

-- What the client sends: a text over 64KB, no JSON, JSON that is no object, or a message.
pub data Frame (P : Type 0) : Type 0 where
  too_large malformed not_object : Frame P
  message : Request P → Frame P

pub data Sent : Type 0 where
  result message_too_large invalid_message unknown_message game_not_active internal_error : Sent

-- What is done in the name of a player, or for the websocket: he is `identified` by a reply of the
-- manager, and `found` where the entry of the websocket in `_ws_to_player` names him.
pub data Call : Type 0 where
  identified found handled forwarded departed disconnected notified : Identity → Call
  cancelled : Call

-- The handler's variables with the state of the worker, what was called, and what the loop itself
-- sent, both newest first.
pub record Connection (S : Type 0) : Type 0 where
  pub identity : Option Identity
  pub worker : S
  pub calls : List Call
  pub sent : List Sent

abbrev pub known_types : List Text
known_types = map codes (
    "update_settings" ∷ "start_game" ∷ "select_word" ∷ "guess" ∷ "chat" ∷ "stroke" ∷ "fill"
    ∷ "clear_canvas" ∷ "kick_player" ∷ "leave_room" ∷ "reaction" ∷ "typing" ∷ "toggle_ready"
    ∷ "rematch" ∷ "end_game_now" ∷ "update_profile" ∷ "undo" ∷ "shape" ∷ "highlighter"
    ∷ "respond_join_request" ∷ "cancel_join_request" ∷ "request_become_player"
    ∷ "respond_spectator_role_request" ∷ "cancel_spectator_role_request" ∷ [])

abbrev pub send : {S : Type 0} → Sent → Connection S → Connection S
send what c = record c { sent = what ∷ c.sent }

abbrev pub now : {S : Type 0} → S → Connection S → Connection S
now s c = record c { worker = s }

abbrev pub call : {S : Type 0} → Call → S → Connection S → Connection S
call what s c = record c { worker = s; calls = what ∷ c.calls }

abbrev pub be : {S : Type 0} → Identity → Connection S → Connection S
be who c = record c { identity = some who; calls = identified who ∷ c.calls }

abbrev pub find_as : {S : Type 0} → Identity → Connection S → Connection S
find_as who c = record c { identity = some who; calls = found who ∷ c.calls }

abbrev pub identify_as : {S : Type 0} → Entry × S → Connection S → Connection S
identify_as (entered who, s) c = send result (be who (now s c))
identify_as (refused, s) c = send result (now s c)
identify_as (raised, s) c = send internal_error (now s c)

-- `payload.get` raises where the payload is no object.
abbrev pub enter : {S P : Type 0} → (P → S → Entry × S) → Option P → Connection S → Connection S
enter operation none c = send internal_error c
enter operation (some payload) c = identify_as (operation payload c.worker) c

-- If the connection has no player: the one whom the host let in while the game runs, or whom an entry
-- names that is left from before.
abbrev pub approve_as :
    {S : Type 0} → Option Identity → Option Identity → Connection S → Connection S
approve_as (some who) known c = c
approve_as none none c = c
approve_as none (some who) c = find_as who c

abbrev pub approve : {S P : Type 0} → RoomManager S P → Connection S → Connection S
approve m c = approve_as c.identity (m.player_of c.worker) c

abbrev pub conclude : {S : Type 0} → Identity → Outcome × S → Connection S → Connection S
conclude who (stayed, s) c = call (handled who) s c
conclude who (left, s) c = record (call (departed who) s c) { identity = none }
conclude who (failed, s) c = send internal_error (call (handled who) s c)

abbrev pub act_as :
    {S P : Type 0}
    → RoomManager S P
    → Text
    → Option P
    → Option Identity
    → Connection S
    → Connection S
act_as m msg_type payload none c =
    send (if mem_text msg_type known_types then game_not_active else unknown_message) c
act_as m msg_type payload (some who) c =
    if m.is_proxy who.room_code c.worker
    then call (forwarded who) (m.forward_to_owner who msg_type payload c.worker) c
    else conclude who (m.handle_local_message who.player_id msg_type payload c.worker) c

abbrev pub act : {S P : Type 0} → RoomManager S P → Text → Option P → Connection S → Connection S
act m msg_type payload c = act_as m msg_type payload c.identity c

abbrev pub receive : {S P : Type 0} → RoomManager S P → Request P → Connection S → Connection S
receive m (create_room payload) c = enter m.create_room payload c
receive m (join_room payload) c = enter m.join_room payload c
receive m (reconnect payload) c = enter m.handle_reconnect payload c
receive m (cancel_join_request request_id) c =
    call cancelled (m.cancel_pending_join_request request_id c.worker) c
receive m pong c = c
receive m (other msg_type payload) c = act m msg_type payload (approve m c)

-- The message loop, which ends with the client's frames, or at JSON that has no `get`.
unfoldable pub serve :
    {S P : Type 0} → RoomManager S P → List (Frame P) → Connection S → Connection S
unfolding mem_text
serve m [] c = c
serve m (too_large ∷ frames) c = serve m frames (send message_too_large c)
serve m (malformed ∷ frames) c = serve m frames (send invalid_message c)
serve m (not_object ∷ frames) c = c
serve m (message request ∷ frames) c = serve m frames (receive m request c)

abbrev pub hang_up :
    {S P : Type 0} → RoomManager S P → Option Identity → Connection S → Connection S
hang_up m none c = call cancelled (m.forget (m.cancel_pending_join_request none c.worker)) c
hang_up m (some who) c =
    let s = m.forget c.worker in
    if m.is_proxy who.room_code s
    then call (notified who) (m.leave_proxy who s) c
    else call (disconnected who) (m.handle_disconnect who.player_id s) c

-- The `finally` of the handler
abbrev pub close : {S P : Type 0} → RoomManager S P → Connection S → Connection S
close m c = let now_known = approve m c in hang_up m now_known.identity now_known

unfoldable pub websocket_handler :
    {S P : Type 0} → RoomManager S P → List (Frame P) → S → Connection S
unfolding serve
websocket_handler m frames s =
    close m (serve m frames (record { identity = none; worker = s; calls = []; sent = [] }))
