-- ===== src/Lobby/Members.antt =====
-- backend/room_manager.py: who is in a room and who is its host, `transfer_host`, `kick_player`,
-- `leave_room` and `remove_player`.
use skribbl_app.Prelude.{ℕ, not, Option, none, some, List, [], ◌∷◌, keep, ◌==◌, if◌then◌else◌}
use skribbl_app.Text.{Text, codes}
use skribbl_app.Models.{
  lobby, state_eq, Player, JoinRequest, RoleRequest, get_player, remove_player, is_active,
}
use skribbl_app.Session.{
  Session, host_changed, kicked, join_request_received, spectator_role_request_received, broadcast,
  send_to, set_room,
}
use skribbl_app.Lobby.{
  Reply, error, host_transferred, player_kicked, left_room, game_not_active, permission_denied,
  player_not_found, player_disconnected, invalid_action, invalid_target, tell_players,
}

abbrev pub forward_joins : Player → List JoinRequest → Session → Session
forward_joins host [] s = s
forward_joins host (request ∷ requests) s =
    forward_joins host requests (send_to host (join_request_received request s.room.code) s)

abbrev pub forward_roles : Player → List RoleRequest → Session → Session
forward_roles host [] s = s
forward_roles host (request ∷ requests) s =
    forward_roles host requests
      (send_to host (spectator_role_request_received request s.room.code) s)

abbrev pub name_or_host : Option Player → Text
name_or_host none = codes "Host"
name_or_host (some p) = p.name

-- The steps once the target is accepted; the target is connected.
abbrev pub hand_over : ℕ → Player → Session → Session
hand_over id target s =
    let named = set_room (λ r. record r { host_id = target.id }) s in
    let changed =
      broadcast
        (host_changed target.id target.name (some (id, name_or_host (get_player id s.room))))
        named in
    let listed = tell_players changed in
    forward_roles target listed.room.pending_role_requests
      (forward_joins target listed.room.pending_join_requests listed)

abbrev pub transfer_to : ℕ → Option Player → Session → Reply × Session
transfer_to id none s = (error player_not_found (codes "Target player not found in room"), s)
transfer_to id (some target) s =
    if not target.is_connected
    then (error player_disconnected (codes "Cannot transfer host to a disconnected player"), s)
    else if target.is_spectator
    then (error invalid_target (codes "Cannot transfer host to a spectator"), s)
    else (host_transferred target.id target.name, hand_over id target s)

unfoldable pub transfer_host : ℕ → ℕ → Session → Reply × Session
unfolding get_player
transfer_host id target_id s =
    if not (s.room.host_id == id)
    then (error permission_denied (codes "Only the host can transfer host role"), s)
    else if target_id == id
    then (error invalid_action (codes "Cannot transfer host to yourself"), s)
    else transfer_to id (get_player target_id s.room) s

abbrev pub kick_of : ℕ → Option Player → Session → Reply × Session
kick_of target_id none s = (error player_not_found (codes "Target player not found in room"), s)
kick_of target_id (some target) s =
    if target_id == s.room.host_id
    then (error permission_denied (codes "Cannot kick the host"), s)
    else let warned = send_to target (kicked (codes "You were kicked out of the room")) s in
      (player_kicked target_id, tell_players (set_room (remove_player target_id) warned))

unfoldable pub kick_player : ℕ → ℕ → Session → Reply × Session
unfolding get_player remove_player
kick_player id target_id s =
    if not (s.room.host_id == id)
    then (error permission_denied (codes "Only the host can kick players"), s)
    else if not (state_eq s.room.state lobby)
    then (error game_not_active (codes "Players can only be kicked in the lobby"), s)
    else kick_of target_id (get_player target_id s.room) s

-- The player who becomes the host of a room that its host has left: the first who can play, else
-- the first who is connected, else the first.
abbrev pub heir_from : List Player → List Player → List Player → Option Player
heir_from (p ∷ able) online players = some p
heir_from [] (p ∷ online) players = some p
heir_from [] [] (p ∷ players) = some p
heir_from [] [] [] = none

abbrev pub heir : List Player → Option Player
heir players = heir_from (keep is_active players) (keep (λ p. p.is_connected) players) players

abbrev pub crown : Option Player → Session → Session
crown none s = s
crown (some p) s =
    broadcast (host_changed p.id p.name none) (set_room (λ r. record r { host_id = p.id }) s)

-- The session of a room that still has players, or none if the room is to be deleted.
abbrev pub reassign_or_delete : ℕ → List Player → Session → Option Session
reassign_or_delete id [] s = none
reassign_or_delete id (p ∷ players) s =
    let crowned = crown (heir (p ∷ players)) s in
    some (tell_players (if s.room.host_id == id then crowned else s))

-- `RoomManager.remove_player`
unfoldable pub remove_from_room : ℕ → Session → Option Session
unfolding remove_player
remove_from_room id s =
    let removed = set_room (remove_player id) s in
    reassign_or_delete id removed.room.players removed

abbrev pub leave_of : ℕ → List Player → Session → Option Session
leave_of id [] s = none
leave_of id (p ∷ players) s = some (
    tell_players
      (if s.room.host_id == id then set_room (λ r. record r { host_id = p.id }) s else s))

unfoldable pub leave_room : ℕ → Session → Reply × Option Session
unfolding remove_player
leave_room id s =
    if not (state_eq s.room.state lobby)
    then (error game_not_active (codes "Can only leave during lobby phase"), some s)
    else let removed = set_room (remove_player id) s in
      (left_room, leave_of id removed.room.players removed)
