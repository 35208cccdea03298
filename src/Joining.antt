-- ===== src/Joining.antt =====
-- backend/room_manager.py: how players come into a room that this worker owns, `_join_room_local`
-- and the state that the manager keeps for the requests of the room.
pub mod Create
pub mod Knocks
pub mod Places
pub mod Capacity
pub mod Codes
pub mod Passwords
pub mod Waiting
pub mod Ledger
pub mod Refusals
pub mod Opening
pub mod Answers
pub mod Requests
pub mod Roles
pub mod Remote
use skribbl_app.Prelude.{
  ℕ, ◌+◌, ◌*◌, ◌/◌, ◌-◌, min, Bool, true, false, not, ◌&&◌, Option, none, some, List, [], ◌∷◌, ◌++◌,
  keep, find, count_if, leb, ◌==◌, if◌then◌else◌,
}
use skribbl_app.Text.{Text, codes, Unicode, strip, text_eq}
use skribbl_app.Payloads.{RoomView, serialize_players, serialize_config}
use skribbl_app.Models.{
  lobby, playing, state_eq, Player, new_player, TurnState, PackInfo, JoinRequest, RoleRequest, Room,
  get_player, add_player,
}
use skribbl_app.Session.{
  Env, second, Session, room_joined, join_request_pending, join_request_received, send_to, set_room,
}
use skribbl_app.Lobby.{
  ErrorCode, Reply, error, told, room_full, password_required, invalid_password, host_unavailable,
  tell_players,
}

-- The manager's request to join: what the host is shown, and what the manager needs to answer.
pub record PendingJoin : Type 0 where
  pub request : JoinRequest
  pub websocket : ℕ
  pub timeout_task : ℕ

pub record PendingRole : Type 0 where
  pub request : RoleRequest
  pub timeout_task : ℕ

-- The coroutines that wait for the host: `_timeout_request` and `_expire_request`.
pub data Expiry : Type 0 where
  join_expiry role_expiry : (request_id : ℕ) → Expiry

pub record DoorTimer : Type 0 where
  pub id : ℕ
  pub expiry : Expiry
  pub due : ℕ

-- A room with what the manager keeps for it: its requests of both kinds by their ids, the dictionaries
-- from a WebSocket to its request and to its player, the index of players, and the timers.
pub record Door : Type 0 where
  pub session : Session
  pub joins : List PendingJoin
  pub roles : List PendingRole
  pub ws_to_request : List (ℕ × ℕ)
  pub ws_to_player : List (ℕ × ℕ)
  pub player_to_room : List (ℕ × ℕ)
  pub timers : List DoorTimer
  pub next_timer : ℕ

abbrev pub at_session : (Session → Session) → Door → Door
at_session f d = record d { session = f d.session }

-- `asyncio.create_task` of a coroutine that begins by a sleep
abbrev pub start_timer : ℕ → Expiry → Door → Door
start_timer due expiry d = record d {
  timers = d.timers ++ record { id = d.next_timer; expiry = expiry; due = due } ∷ [];
  next_timer = d.next_timer + 1;
}

abbrev pub max_players_hard_cap : ℕ
max_players_hard_cap = 12

abbrev pub max_spectators : ℕ
max_spectators = 50

abbrev pub player_count : Room → ℕ
player_count r = count_if (λ p. not p.is_spectator) r.players

abbrev pub spectator_count : Room → ℕ
spectator_count r = count_if (λ p. p.is_spectator) r.players

-- `active_count >= min(room.config.max_players, MAX_PLAYERS_HARD_CAP)`
abbrev pub players_full : Room → Bool
players_full r = leb (min r.config.max_players max_players_hard_cap) (player_count r)

abbrev pub spectators_full : Room → Bool
spectators_full r = leb max_spectators (spectator_count r)

-- A password that is given is compared without the space around it.
abbrev pub compare_password : Text → Text → Option (ErrorCode × Text)
compare_password [] password =
    some (password_required, codes "This room is private. Please enter the password.")
compare_password (c ∷ given) password =
    if text_eq (c ∷ given) password
    then none
    else some (invalid_password, codes "Incorrect room password")

abbrev pub given_password : Unicode → Option Text → Text
given_password u none = []
given_password u (some password) = strip u password

unfoldable pub password_error : Unicode → Option Text → Option Text → Option (ErrorCode × Text)
unfolding strip text_eq
password_error u none given = none
password_error u (some []) given = none
password_error u (some (c ∷ password)) given =
    compare_password (given_password u given) (c ∷ password)

-- The part of `room_joined` that is told of a turn.
abbrev pub drawer_of : Option TurnState → Option ℕ
drawer_of none = none
drawer_of (some turn) = some turn.drawer_id

abbrev pub hint_of : Option TurnState → Option Text
hint_of none = none
hint_of (some turn) = some turn.hint

-- `max(0, int(turn_duration - elapsed))`
abbrev pub remaining : ℕ → ℕ → TurnState → ℕ
remaining now duration turn = (duration * second + turn.start_time - now) / second

abbrev pub time_left : ℕ → Room → Option TurnState → Option ℕ
time_left now r none = none
time_left now r (some turn) =
    if state_eq r.state playing then some (remaining now r.config.turn_duration turn) else none

abbrev pub theme_of : Room → Option TurnState → Option PackInfo
theme_of r none = none
theme_of r (some turn) = if state_eq r.state playing then turn.theme else none

abbrev pub room_view : ℕ → Bool → Room → RoomView
room_view now is_spectator r = record {
  room_code = r.code;
  players = serialize_players r;
  config = serialize_config r.config;
  state = r.state;
  is_spectator = is_spectator;
  current_round = r.current_round;
  total_rounds = r.config.num_rounds;
  host_id = r.host_id;
  drawer_id = drawer_of r.turn;
  hint = hint_of r.turn;
  duration = time_left now r r.turn;
  theme = theme_of r r.turn;
}

-- The new player joins the room, and the indexes know of them.
unfoldable pub seat : Player → ℕ → Door → Door
unfolding add_player
seat player websocket d = record d {
  session = set_room (add_player player) d.session;
  player_to_room = (player.id, d.session.room.code) ∷ d.player_to_room;
  ws_to_player = (websocket, player.id) ∷ d.ws_to_player;
}

-- Who asks to come in: the arguments of `join_room`. The id that `uuid4` gives is `new_id`.
pub record Visitor : Type 0 where
  pub new_id : ℕ
  pub name : Text
  pub websocket : ℕ
  pub avatar : Option Text
  pub as_spectator : Bool
  pub password : Option Text

unfoldable pub take_seat : Env → Visitor → Door → Reply × Door
unfolding seat
take_seat env v d =
    let player = new_player v.new_id v.name (some v.websocket) v.avatar v.as_spectator in
    let seated = at_session tell_players (seat player v.websocket d) in
    (told (room_joined v.new_id (room_view env.now v.as_spectator seated.session.room)), seated)

-- The request of a visitor who comes in the middle of a game.
abbrev pub visitor_request : Visitor → JoinRequest
visitor_request v = record { request_id = v.new_id; name = v.name; avatar = v.avatar }

abbrev pub store_join : Visitor → Door → Door
store_join v d = record d {
  session =
      set_room
        (λ r. record r {
          pending_join_requests = r.pending_join_requests ++ visitor_request v ∷ [];
        })
        d.session;
  joins =
      d.joins
      ++ record {
        request = visitor_request v;
        websocket = v.websocket;
        timeout_task = d.next_timer;
      }
        ∷ [];
  ws_to_request = (v.websocket, v.new_id) ∷ d.ws_to_request;
}

unfoldable pub file_join : Env → Visitor → Player → Door → Reply × Door
file_join env v host d =
    let stored = start_timer (env.now + 30 * second) (join_expiry v.new_id) (store_join v d) in
    (
      told (join_request_pending v.new_id d.session.room.code),
      at_session (send_to host (join_request_received (visitor_request v) d.session.room.code))
          stored,
    )

-- The host, if there is one who is connected and has a WebSocket.
abbrev pub reachable : Option Player → Option Player
reachable none = none
reachable (some p) = elim p.websocket [
  | none ↦ none
  | some ws ↦ if p.is_connected then some p else none
]

abbrev pub ask_host : Env → Visitor → Option Player → Door → Reply × Door
ask_host env v none d = (
  error host_unavailable (codes "Room host is currently unavailable to approve join requests."),
  d,
)
ask_host env v (some host) d = file_join env v host d

unfoldable pub admit : Env → Visitor → Door → Reply × Door
unfolding get_player
admit env v d =
    let room = d.session.room in
    if not (state_eq room.state lobby) && not v.as_spectator
    then if players_full room && spectators_full room
      then (error room_full (codes "Room is full"), d)
      else ask_host env v (reachable (get_player room.host_id room)) d
    else if not v.as_spectator && players_full room
    then (error room_full (codes "Room is full"), d)
    else if v.as_spectator && spectators_full room
    then (error room_full (codes "Spectator capacity reached"), d)
    else take_seat env v d

abbrev pub admit_unless : Option (ErrorCode × Text) → Env → Visitor → Door → Reply × Door
admit_unless (some (code, text)) env v d = (error code text, d)
admit_unless none env v d = admit env v d

unfoldable pub join_room_local : Env → Visitor → Door → Reply × Door
unfolding password_error
join_room_local env v d =
    admit_unless (password_error env.unicode d.session.room.config.password v.password) env v d
