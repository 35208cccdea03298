-- ===== src/Models.antt =====
-- backend/models.py. An id is a UUID, a room code and a WebSocket handle are tokens, and all of
-- them are only compared: they are numbers here. Times are ticks.
pub mod Players
pub mod Lookup
use skribbl_app.Prelude.{
  ℕ, ◌≡◌, refl, Bool, true, false, Option, none, some, List, [], ◌∷◌, ◌++◌, keep, find, not, ◌==◌,
  if◌then◌else◌,
}
use skribbl_app.Text.{Text}

pub data RoomState : Type 0 where
  lobby word_selection playing game_over : RoomState

pub data TurnEndReason : Type 0 where
  timer_expired all_guessed drawer_disconnected : TurnEndReason

-- `a == b` on room states
abbrev pub state_eq : RoomState → RoomState → Bool
state_eq lobby lobby = true
state_eq word_selection word_selection = true
state_eq playing playing = true
state_eq game_over game_over = true
state_eq _ _ = false

-- A task is named by the number that it got when it was created. `guess_time` is the attribute
-- `_guess_time` that a correct guess sets.
pub record Player : Type 0 where
  pub id : ℕ
  pub name : Text
  pub score : ℕ
  pub has_guessed : Bool
  pub is_connected : Bool
  pub is_ready : Bool
  pub avatar : Option Text
  pub websocket : Option ℕ
  pub disconnect_time : Option ℕ
  pub cleanup_task : Option ℕ
  pub session_score : ℕ
  pub session_wins : ℕ
  pub session_games : ℕ
  pub streak : ℕ
  pub max_streak : ℕ
  pub correct_guesses_count : ℕ
  pub fastest_guess_time : Option ℕ
  pub drawer_points_earned : ℕ
  pub is_spectator : Bool
  pub become_player_requests_count : ℕ
  pub host_reassign_task : Option ℕ
  pub guess_time : Option ℕ

-- `Player(id=..., name=..., websocket=..., avatar=..., is_spectator=...)`
abbrev pub new_player : ℕ → Text → Option ℕ → Option Text → Bool → Player
new_player id name websocket avatar is_spectator = record {
  id = id;
  name = name;
  score = 0;
  has_guessed = false;
  is_connected = true;
  is_ready = false;
  avatar = avatar;
  websocket = websocket;
  disconnect_time = none;
  cleanup_task = none;
  session_score = 0;
  session_wins = 0;
  session_games = 0;
  streak = 0;
  max_streak = 0;
  correct_guesses_count = 0;
  fastest_guess_time = none;
  drawer_points_earned = 0;
  is_spectator = is_spectator;
  become_player_requests_count = 0;
  host_reassign_task = none;
  guess_time = none;
}

pub record GameConfig : Type 0 where
  pub num_rounds : ℕ
  pub turn_duration : ℕ
  pub max_players : ℕ
  pub custom_words : List Text
  pub password : Option Text

abbrev pub default_config : GameConfig
default_config = record {
  num_rounds = 3;
  turn_duration = 80;
  max_players = 12;
  custom_words = [];
  password = none;
}

pub record PackInfo : Type 0 where
  pub id : Text
  pub name : Text
  pub emoji : Text

pub record Pack : Type 0 where
  pub info : PackInfo
  pub words : List Text

-- `serial` stands for the identity of the object, which `is` compares.
pub record TurnState : Type 0 where
  pub serial : ℕ
  pub drawer_id : ℕ
  pub word : Text
  pub hint : Text
  pub start_time : ℕ
  pub word_choices : List Text
  pub timer_task : Option ℕ
  pub hint_task_40 : Option ℕ
  pub hint_task_70 : Option ℕ
  pub guess_order : List ℕ
  pub theme : Option PackInfo

-- A request to join, and a spectator's request to play, as the host is asked. Its room code is the
-- room's; the rest of a request is the manager's.
pub record JoinRequest : Type 0 where
  pub request_id : ℕ
  pub name : Text
  pub avatar : Option Text

pub record RoleRequest : Type 0 where
  pub request_id : ℕ
  pub player_id : ℕ
  pub name : Text
  pub avatar : Option Text

-- The last six fields are the attributes `_pending_word_choices`, `_pending_packs`,
-- `_auto_select_task`, `_insufficient_players_task`, `_pending_join_requests` and
-- `_pending_spectator_role_requests`; `none` or `[]` where there is none.
pub record Room : Type 0 where
  pub code : ℕ
  pub host_id : ℕ
  pub players : List Player
  pub config : GameConfig
  pub state : RoomState
  pub current_round : ℕ
  pub drawer_index : ℕ
  pub turn : Option TurnState
  pub used_words : List Text
  pub word_pool : List Text
  pub is_proxy : Bool
  pub pending_word_choices : Option (List Text)
  pub pending_packs : Option (List Pack)
  pub auto_select_task : Option ℕ
  pub insufficient_players_task : Option ℕ
  pub pending_join_requests : List JoinRequest
  pub pending_role_requests : List RoleRequest

-- `Room(code=..., host_id=..., config=...)`
abbrev pub new_room : ℕ → ℕ → GameConfig → Room
new_room code host_id config = record {
  code = code;
  host_id = host_id;
  players = [];
  config = config;
  state = lobby;
  current_round = 0;
  drawer_index = 0;
  turn = none;
  used_words = [];
  word_pool = [];
  is_proxy = false;
  pending_word_choices = none;
  pending_packs = none;
  auto_select_task = none;
  insufficient_players_task = none;
  pending_join_requests = [];
  pending_role_requests = [];
}

unfoldable pub add_player : Player → Room → Room
add_player player room = record room { players = room.players ++ player ∷ [] }

unfoldable pub remove_player : ℕ → Room → Room
remove_player player_id room = record room {
  players = keep (λ p. not (p.id == player_id)) room.players;
}

-- The player object of an id; `players_by_id` holds the same objects as `players`.
unfoldable pub get_player : ℕ → Room → Option Player
get_player player_id room = find (λ p. p.id == player_id) room.players

-- Assignments to the fields of the object that `get_player` finds.
unfoldable pub modify_player : ℕ → (Player → Player) → List Player → List Player
modify_player player_id f [] = []
modify_player player_id f (p ∷ players) =
    let rest = modify_player player_id f players in
    if p.id == player_id then f p ∷ players else p ∷ rest

-- `p.is_connected and not getattr(p, "is_spectator", False)`
abbrev pub is_active : Player → Bool
is_active p = elim p.is_connected [ true ↦ not p.is_spectator | false ↦ false ]
