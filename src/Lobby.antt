-- ===== src/Lobby.antt =====
-- backend/room_manager.py: what the manager answers to the players of a room, when the room of the
-- player is found. An operation gives the reply and the session after it.
pub mod Game
pub mod Members
pub mod Settings
pub mod Ranges
pub mod Answers
pub mod Host
pub mod Leaving
pub mod Start
use skribbl_app.Prelude.{
  ℕ, ◌+◌, Bool, true, false, not, ◌&&◌, ◌||◌, Option, none, some, List, [], ◌∷◌, ◌++◌, map, length,
  any, find, keep, ltb, leb, ◌==◌, if◌then◌else◌,
}
use skribbl_app.Text.{Text, codes, Unicode, text_eq, strip}
use skribbl_app.Models.{
  RoomState, lobby, word_selection, game_over, state_eq, Player, Room, JoinRequest, RoleRequest,
  get_player, modify_player, remove_player, is_active,
}
use skribbl_app.Payloads.{serialize_players, serialize_config}
use skribbl_app.Session.{
  Session, Message, player_list, rematch_started, game_started, host_changed, kicked,
  join_request_received, spectator_role_request_received, raised, index_error, emit, broadcast,
  send_to, set_room,
}

pub data ErrorCode : Type 0 where
  game_not_active permission_denied player_not_found player_disconnected : ErrorCode
  invalid_settings invalid_action invalid_target invalid_name duplicate_name : ErrorCode
  insufficient_players room_full password_required invalid_password host_unavailable : ErrorCode
  request_not_found already_player max_requests_exceeded request_already_pending : ErrorCode
  worker_draining room_not_found unknown_message room_in_progress : ErrorCode

-- What an operation returns, `crashed` where an exception ends it: an error, a message that is sent
-- as well, or one of its own.
pub data Reply : Type 0 where
  error : ErrorCode → (message : Text) → Reply
  told : Message → Reply
  ready_toggled : (is_ready : Bool) → Reply
  profile_updated : (player_id : ℕ) (name : Text) (avatar : Option Text) → Reply
  host_transferred : (new_host_id : ℕ) (new_host_name : Text) → Reply
  player_kicked : (target_player_id : ℕ) → Reply
  left_room : Reply
  crashed : Reply

abbrev pub tell_players : Session → Session
tell_players s = broadcast (player_list (serialize_players s.room)) s

abbrev pub set_players : (List Player → List Player) → Session → Session
set_players f s = set_room (λ r. record r { players = f r.players }) s

abbrev pub flip_ready : Player → Player
flip_ready p = record p { is_ready = not p.is_ready }

abbrev pub ready_of : ℕ → Option Player → Session → Reply × Session
ready_of id none s = (error player_not_found (codes "Player not found"), s)
ready_of id (some p) s =
    (ready_toggled (not p.is_ready), tell_players (set_players (modify_player id flip_ready) s))

unfoldable pub toggle_ready : ℕ → Session → Reply × Session
unfolding get_player modify_player
toggle_ready id s =
    if not (state_eq s.room.state lobby)
    then (error game_not_active (codes "Ready toggle only available in lobby"), s)
    else ready_of id (get_player id s.room) s

-- Another player has the name already, in any case of its letters.
abbrev pub name_taken : Unicode → ℕ → Text → List Player → Bool
name_taken u id name players =
    any (λ p. not (p.id == id) && text_eq (u.lower p.name) (u.lower name)) players

abbrev pub set_avatar : Option Text → Player → Player
set_avatar none p = p
set_avatar (some avatar) p = record p { avatar = some avatar }

abbrev pub set_name : Option Text → Player → Player
set_name none p = p
set_name (some name) p = record p { name = name }

-- The end of the handler, once the name is accepted.
abbrev pub accept_profile : ℕ → Player → Option Text → Option Text → Session → Reply × Session
accept_profile id p name avatar s =
    let changed = set_avatar avatar (set_name name p) in
    (
      profile_updated changed.id changed.name changed.avatar,
      tell_players (set_players (modify_player id (λ q. set_avatar avatar (set_name name q))) s),
    )

abbrev pub profile_of :
    Unicode → ℕ → Option Text → Option Text → Option Player → Session → Reply × Session
profile_of u id name avatar none s = (error player_not_found (codes "Player not found"), s)
profile_of u id none avatar (some p) s = accept_profile id p none avatar s
profile_of u id (some name) avatar (some p) s =
    let clean = strip u name in
    if not (leb 1 (length clean) && leb (length clean) 20)
    then (error invalid_name (codes "Name must be between 1 and 20 characters"), s)
    else if name_taken u id clean s.room.players
    then (error duplicate_name (codes "Name already taken in this room"), s)
    else accept_profile id p (some clean) avatar s

unfoldable pub update_profile : Unicode → ℕ → Option Text → Option Text → Session → Reply × Session
unfolding get_player modify_player text_eq strip
update_profile u id name avatar s =
    if not (state_eq s.room.state lobby)
    then (error game_not_active (codes "Profile changes only allowed in lobby"), s)
    else profile_of u id name avatar (get_player id s.room) s
