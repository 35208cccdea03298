-- ===== src/Joining/Roles.antt =====
-- backend/room_manager.py: the requests of spectators to play, `request_become_player`,
-- `respond_spectator_role_request` and `cancel_spectator_role_request`.
use skribbl_app.Prelude.{
  ℕ, ◌+◌, ◌*◌, ◌-◌, Bool, false, not, ◌&&◌, Option, none, some, List, [], ◌∷◌, ◌++◌, keep, find,
  any, leb, ◌==◌, if◌then◌else◌,
}
use skribbl_app.Text.{codes}
use skribbl_app.Models.{Player, RoleRequest, Room, get_player, modify_player}
use skribbl_app.Session.{
  Env, second, Session, accepted, declined, cancelled, expired, broadcast, send_to, set_room,
  system_chat, spectator_role_request_received, become_player_request_pending,
  spectator_role_request_declined, spectator_role_request_resolved,
}
use skribbl_app.Lobby.{
  Reply, error, told, set_players, room_full, request_not_found, permission_denied,
  player_not_found, already_player, max_requests_exceeded, request_already_pending, tell_players,
}
use skribbl_app.Joining.{
  PendingRole, role_expiry, Door, at_session, start_timer, players_full, reachable,
}
use skribbl_app.Joining.Requests.{stop_timer}

-- `max(0, 2 - become_player_requests_count)`
abbrev pub requests_remaining : Player → ℕ
requests_remaining p = 2 - p.become_player_requests_count

abbrev pub count_request : Player → Player
count_request p = record p { become_player_requests_count = p.become_player_requests_count + 1 }

abbrev pub player_request : ℕ → Player → RoleRequest
player_request request_id p = record {
  request_id = request_id;
  player_id = p.id;
  name = p.name;
  avatar = p.avatar;
}

unfoldable pub store_role : ℕ → Player → Door → Door
unfolding modify_player
store_role request_id p d = record d {
  session =
      set_room
        (λ r. record r {
          players = modify_player p.id count_request r.players;
          pending_role_requests = r.pending_role_requests ++ player_request request_id p ∷ [];
        })
        d.session;
  roles =
      d.roles ++ record { request = player_request request_id p; timeout_task = d.next_timer } ∷ [];
}

abbrev pub notify_host : ℕ → Player → Option Player → Session → Session
notify_host request_id p none s = s
notify_host request_id p (some host) s =
    send_to host (spectator_role_request_received (player_request request_id p) s.room.code) s

unfoldable pub file_role : Env → ℕ → Player → Door → Reply × Door
unfolding store_role get_player
file_role env request_id p d =
    let stored =
      start_timer (env.now + 45 * second) (role_expiry request_id) (store_role request_id p d) in
    (
      told (become_player_request_pending request_id (requests_remaining (count_request p))),
      at_session (λ s. notify_host request_id p (reachable (get_player s.room.host_id s.room)) s)
          stored,
    )

abbrev pub become_player_of : Env → ℕ → Option Player → Door → Reply × Door
become_player_of env request_id none d =
    (error player_not_found (codes "Player not found or disconnected"), d)
become_player_of env request_id (some p) d =
    if not p.is_connected
    then (error player_not_found (codes "Player not found or disconnected"), d)
    else if not p.is_spectator
    then (error already_player (codes "You are already an active player"), d)
    else if leb 2 p.become_player_requests_count
    then (
      error max_requests_exceeded
          (codes "You have reached the maximum of 2 player join requests for this game."),
      d,
    )
    else if any (λ q. q.player_id == p.id) d.session.room.pending_role_requests
    then (
      error request_already_pending
          (codes "Your request to join as a player is already pending host approval."),
      d,
    )
    else if players_full d.session.room
    then (error room_full (codes "Room has reached maximum active players."), d)
    else file_role env request_id p d

-- The room is the one where the player is. The id that `uuid4` gives is `request_id`.
unfoldable pub request_become_player : Env → (player_id request_id : ℕ) → Door → Reply × Door
unfolding get_player file_role
request_become_player env player_id request_id d =
    become_player_of env request_id (get_player player_id d.session.room) d

abbrev pub find_role : ℕ → List PendingRole → Option PendingRole
find_role request_id roles = find (λ r. r.request.request_id == request_id) roles

abbrev pub drop_role_request : ℕ → Room → Room
drop_role_request request_id r = record r {
  pending_role_requests = keep (λ q. not (q.request_id == request_id)) r.pending_role_requests;
}

-- The request is taken from the manager and from the room.
unfoldable pub forget_role : ℕ → Door → Door
forget_role request_id d = record d {
  session = set_room (drop_role_request request_id) d.session;
  roles = keep (λ r. not (r.request.request_id == request_id)) d.roles;
}

abbrev pub close_role : PendingRole → Door → Door
close_role req d =
    let forgotten = forget_role req.request.request_id d in
    record forgotten { timers = stop_timer req.timeout_task forgotten.timers }

-- The player of a request is told, if connected, that it was declined or has expired.
abbrev pub tell_expired : Option PendingRole → ℕ → Player → Session → Session
tell_expired none request_id p s = s
tell_expired (some req) request_id p s =
    send_to p (spectator_role_request_declined request_id expired (requests_remaining p)) s

-- `_expire_request`, once its time is over, with the player whom it captured as they are then.
unfoldable pub expire_request : ℕ → Player → Door → Door
unfolding forget_role
expire_request request_id p d =
    at_session
      (λ s.
        broadcast (spectator_role_request_resolved (some request_id) expired none)
          (tell_expired (find_role request_id d.roles) request_id p s))
      (forget_role request_id d)

abbrev pub tell_declined : ℕ → Option Player → Session → Session
tell_declined request_id none s = s
tell_declined request_id (some p) s =
    send_to p (spectator_role_request_declined request_id declined (requests_remaining p)) s

abbrev pub decline_role : PendingRole → Option Player → Door → Reply × Door
decline_role req p d =
    let resolved = spectator_role_request_resolved (some req.request.request_id) declined none in
    (
      told resolved,
      at_session (λ s. broadcast resolved (tell_declined req.request.request_id p s)) d,
    )

abbrev pub to_player_role : Player → Player
to_player_role p = record p { is_spectator = false; score = 0; has_guessed = false }

abbrev pub promote : PendingRole → Player → Door → Reply × Door
promote req p d =
    let resolved =
      spectator_role_request_resolved (some req.request.request_id) accepted (some p.id) in
    let changed = set_players (modify_player p.id to_player_role) in
    let welcome = codes "🎮 " ++ p.name ++ codes " joined the game as an active player!" in
    (
      told resolved,
      at_session
          (λ s. broadcast resolved (broadcast (system_chat welcome) (tell_players (changed s)))) d,
    )

abbrev pub accept_role : PendingRole → Option Player → Door → Reply × Door
accept_role req none d = (error player_not_found (codes "Player disconnected before approval"), d)
accept_role req (some p) d =
    if not p.is_connected
    then (error player_not_found (codes "Player disconnected before approval"), d)
    else if players_full d.session.room
    then (error room_full (codes "Room has reached maximum active players."), d)
    else promote req p d

abbrev pub answer_role : Bool → PendingRole → Option Player → Door → Reply × Door
answer_role accepts req p d = if accepts then accept_role req p d else decline_role req p d

-- A request is closed before it is seen whether it can be accepted.
abbrev pub role_reply : ℕ → Bool → Option PendingRole → Door → Reply × Door
role_reply host_player_id accepts none d =
    (error request_not_found (codes "Spectator request not found or expired"), d)
role_reply host_player_id accepts (some req) d =
    if not (d.session.room.host_id == host_player_id)
    then (error permission_denied (codes "Only the host can respond to requests"), d)
    else answer_role accepts req (get_player req.request.player_id d.session.room)
        (close_role req d)

-- `accepts` is that the action is not "decline".
unfoldable pub respond_spectator_role_request :
    (host_player_id request_id : ℕ) (accepts : Bool) → Door → Reply × Door
unfolding get_player modify_player forget_role
respond_spectator_role_request host_player_id request_id accepts d =
    role_reply host_player_id accepts (find_role request_id d.roles) d

-- `req.player_id == player_id and (request_id is None or rid == request_id)`
abbrev pub asked_by : ℕ → Option ℕ → RoleRequest → Bool
asked_by player_id none q = q.player_id == player_id
asked_by player_id (some request_id) q = (q.player_id == player_id) && (q.request_id == request_id)

abbrev pub withdraw : Option PendingRole → Door → Reply × Door
withdraw none d = (told (spectator_role_request_resolved none cancelled none), d)
withdraw (some req) d =
    let resolved = spectator_role_request_resolved (some req.request.request_id) cancelled none in
    (told resolved, at_session (broadcast resolved) (close_role req d))

-- The requests of the room are the manager's, with the same ids.
unfoldable pub cancel_spectator_role_request :
    (player_id : ℕ) (request_id : Option ℕ) → Door → Reply × Door
unfolding forget_role
cancel_spectator_role_request player_id request_id d =
    withdraw (find (λ r. asked_by player_id request_id r.request) d.roles) d
