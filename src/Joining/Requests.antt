-- ===== src/Joining/Requests.antt =====
-- backend/room_manager.py: how a request to join ends, `_handle_join_request_timeout`,
-- `cancel_pending_join_request` and `respond_join_request`.
use skribbl_app.Prelude.{
  ℕ, Bool, true, false, not, ◌&&◌, Option, none, some, List, ◌∷◌, ◌++◌, keep, find, count_if, leb,
  ◌==◌, if◌then◌else◌,
}
use skribbl_app.Text.{Text, codes}
use skribbl_app.Models.{new_player, Room}
use skribbl_app.Session.{
  Env, is_pending, cancel, Session, Resolution, accepted_player, accepted_spectator, declined,
  cancelled, timeout, to_socket, emit, broadcast, room_joined, join_request_declined,
  join_request_resolved, system_chat, set_room,
}
use skribbl_app.Lobby.{
  Reply, error, told, room_full, request_not_found, permission_denied, tell_players,
}
use skribbl_app.Registry.{lookup}
use skribbl_app.Joining.{
  PendingJoin, DoorTimer, Door, at_session, players_full, spectators_full, seat, room_view,
}

-- `dict.pop(key, None)`
abbrev pub drop_key : ℕ → List (ℕ × ℕ) → List (ℕ × ℕ)
drop_key key entries = keep (λ e. not (e.0 == key)) entries

abbrev pub stop_timer : ℕ → List DoorTimer → List DoorTimer
stop_timer id timers = keep (λ t. not (t.id == id)) timers

abbrev pub find_join : ℕ → List PendingJoin → Option PendingJoin
find_join request_id joins = find (λ r. r.request.request_id == request_id) joins

abbrev pub drop_join_request : ℕ → Room → Room
drop_join_request request_id r = record r {
  pending_join_requests = keep (λ q. not (q.request_id == request_id)) r.pending_join_requests;
}

-- The request is taken from the manager, from the room, and from the index of WebSockets.
unfoldable pub forget_join : PendingJoin → Door → Door
forget_join req d = record d {
  session = set_room (drop_join_request req.request.request_id) d.session;
  joins = keep (λ r. not (r.request.request_id == req.request.request_id)) d.joins;
  ws_to_request = drop_key req.websocket d.ws_to_request;
}

-- `req.timeout_task.cancel()`, where the task is not done; then the request is forgotten.
abbrev pub close_join : PendingJoin → Door → Door
close_join req d =
    let forgotten = forget_join req d in
    record forgotten { timers = stop_timer req.timeout_task forgotten.timers }

abbrev pub tell_socket : PendingJoin → Resolution → Session → Session
tell_socket req reason s =
    emit (to_socket req.websocket (join_request_declined req.request.request_id reason)) s

abbrev pub expire_join : Option PendingJoin → Door → Door
expire_join none d = d
expire_join (some req) d =
    at_session
      (λ s.
        broadcast (join_request_resolved req.request.request_id timeout none none)
          (tell_socket req timeout s))
      (forget_join req d)

-- The handler runs in the timer's own task, which ends with it.
unfoldable pub handle_join_request_timeout : ℕ → Door → Door
unfolding forget_join
handle_join_request_timeout request_id d = expire_join (find_join request_id d.joins) d

-- What a caller knows of a request that is to be cancelled: a text, the id of the request or of the
-- player that its WebSocket carries, or the WebSocket.
pub data Identifier : Type 0 where
  by_id by_socket : ℕ → Identifier

-- `getattr(r.websocket, "player_id", None) == identifier`
abbrev pub carries : (ℕ → Option ℕ) → ℕ → PendingJoin → Bool
carries carried id r = elim (carried r.websocket) [ none ↦ false | some p ↦ p == id ]

abbrev pub or_else {ℓ} : {A : Type ℓ} → Option A → Option A → Option A
or_else none other = other
or_else (some a) other = some a

abbrev pub join_by_key : Option ℕ → List PendingJoin → Option PendingJoin
join_by_key none joins = none
join_by_key (some request_id) joins = find_join request_id joins

abbrev pub identify : (ℕ → Option ℕ) → Identifier → Door → Option PendingJoin
identify carried (by_id id) d = or_else (find_join id d.joins) (find (carries carried id) d.joins)
identify carried (by_socket websocket) d = join_by_key (lookup websocket d.ws_to_request) d.joins

-- A WebSocket is taken from the index even where no request is found for it.
abbrev pub take_socket : Identifier → Door → Door
take_socket (by_id id) d = d
take_socket (by_socket websocket) d = record d {
  ws_to_request = drop_key websocket d.ws_to_request;
}

abbrev pub cancel_join : Option PendingJoin → Door → Door
cancel_join none d = d
cancel_join (some req) d =
    at_session
      (broadcast
        (join_request_resolved req.request.request_id cancelled none (some req.request.name)))
      (close_join req d)

-- `carried` is the attribute `player_id` of a WebSocket.
unfoldable pub cancel_pending_join_request : (ℕ → Option ℕ) → Identifier → Door → Door
unfolding forget_join
cancel_pending_join_request carried identifier d =
    cancel_join (identify carried identifier d) (take_socket identifier d)

pub data Action : Type 0 where
  accept_player accept_spectator decline : Action

abbrev pub spectates : Action → Bool
spectates accept_spectator = true
spectates _ = false

-- A countdown for want of players ends when two are connected.
unfoldable pub end_countdown : Session → Session
end_countdown s =
    if leb 2 (count_if (λ p. p.is_connected) s.room.players)
      && is_pending s.room.insufficient_players_task s.tasks
    then record s {
      room = record s.room { insufficient_players_task = none };
      tasks = cancel s.room.insufficient_players_task s.tasks;
    }
    else s

abbrev pub welcome_text : Bool → Text → Text
welcome_text true name = codes "👁" ++ 65_039 ∷ codes " " ++ name ++ codes " joined as a spectator."
welcome_text false name = codes "🎮 " ++ name ++ codes " joined the game!"

abbrev pub verdict : Bool → Resolution
verdict true = accepted_spectator
verdict false = accepted_player

abbrev pub announce_seat : Env → ℕ → Bool → PendingJoin → Session → Session
announce_seat env new_id is_spectator req s =
    let listed = tell_players s in
    let welcomed = broadcast (system_chat (welcome_text is_spectator req.request.name)) listed in
    let joined =
      emit (to_socket req.websocket (room_joined new_id (room_view env.now is_spectator s.room)))
        welcomed in
    broadcast
      (join_request_resolved req.request.request_id (verdict is_spectator) (some new_id) none)
      joined

unfoldable pub seat_join : Env → ℕ → Bool → PendingJoin → Door → Reply × Door
unfolding seat forget_join end_countdown
seat_join env new_id is_spectator req d =
    let player =
      new_player new_id req.request.name (some req.websocket) req.request.avatar is_spectator in
    let seated = at_session end_countdown (seat player req.websocket (close_join req d)) in
    (
      told (join_request_resolved req.request.request_id (verdict is_spectator) (some new_id) none),
      at_session (announce_seat env new_id is_spectator req) seated,
    )

abbrev pub accept_join : Env → ℕ → Bool → PendingJoin → Door → Reply × Door
accept_join env new_id is_spectator req d =
    if not is_spectator && players_full d.session.room
    then (
      error room_full
          (codes "Room has reached maximum active players. You can accept them as spectator."),
      d,
    )
    else if is_spectator && spectators_full d.session.room
    then (error room_full (codes "Spectator capacity reached"), d)
    else seat_join env new_id is_spectator req d

abbrev pub decline_join : PendingJoin → Door → Reply × Door
decline_join req d =
    let resolved = join_request_resolved req.request.request_id declined none none in
    (
      told resolved,
      at_session (λ s. broadcast resolved (tell_socket req declined s)) (close_join req d),
    )

abbrev pub act_on_join : Env → ℕ → Action → PendingJoin → Door → Reply × Door
act_on_join env new_id decline req d = decline_join req d
act_on_join env new_id accept_player req d = accept_join env new_id false req d
act_on_join env new_id accept_spectator req d = accept_join env new_id true req d

abbrev pub respond_to : Env → ℕ → ℕ → Action → Option PendingJoin → Door → Reply × Door
respond_to env host_player_id new_id action none d =
    (error request_not_found (codes "Join request not found or expired"), d)
respond_to env host_player_id new_id action (some req) d =
    if not (d.session.room.host_id == host_player_id)
    then (error permission_denied (codes "Only the host can respond to join requests"), d)
    else act_on_join env new_id action req d

-- An action that is no other accepts a player. The id of the new player is `new_id`.
unfoldable pub respond_join_request :
    Env → (host_player_id request_id new_id : ℕ) → Action → Door → Reply × Door
unfolding forget_join seat_join
respond_join_request env host_player_id request_id new_id action d =
    respond_to env host_player_id new_id action (find_join request_id d.joins) d
