-- ===== src/Payloads.antt =====
-- backend/room_manager.py, `_serialize_player` and `_serialize_config`: what clients are told of
-- a player and of the settings. Every player of a room is in the manager's index of rooms.
use skribbl_app.Prelude.{
  ℕ, Bool, true, false, Option, none, some, List, [], ◌∷◌, map, ltb, ◌==◌, if◌then◌else◌,
}
use skribbl_app.Text.{Text}
use skribbl_app.Models.{Player, GameConfig, PackInfo, RoomState, Room}

-- A key that is left out is `none`.
pub record PlayerView : Type 0 where
  pub id : ℕ
  pub name : Text
  pub score : ℕ
  pub has_guessed : Bool
  pub is_connected : Bool
  pub is_ready : Bool
  pub is_spectator : Bool
  pub is_host : Bool
  pub avatar : Option Text
  pub session_wins : Option ℕ
  pub session_score : Option ℕ

pub record ConfigView : Type 0 where
  pub num_rounds : ℕ
  pub turn_duration : ℕ
  pub max_players : ℕ
  pub custom_words : List Text
  pub is_private : Bool

-- What a player is told of the room that takes them in; a turn's part is `none` where there is none.
pub record RoomView : Type 0 where
  pub room_code : ℕ
  pub players : List PlayerView
  pub config : ConfigView
  pub state : RoomState
  pub is_spectator : Bool
  pub current_round : ℕ
  pub total_rounds : ℕ
  pub host_id : ℕ
  pub drawer_id : Option ℕ
  pub hint : Option Text
  pub duration : Option ℕ
  pub theme : Option PackInfo

-- An empty text is false.
abbrev pub non_empty : Option Text → Option Text
non_empty none = none
non_empty (some []) = none
non_empty (some (c ∷ text)) = some (c ∷ text)

abbrev pub positive : ℕ → Option ℕ
positive n = if ltb 0 n then some n else none

abbrev pub is_some {ℓ} : {A : Type ℓ} → Option A → Bool
is_some none = false
is_some (some a) = true

abbrev pub serialize_player : ℕ → Player → PlayerView
serialize_player host_id p = record {
  id = p.id;
  name = p.name;
  score = p.score;
  has_guessed = p.has_guessed;
  is_connected = p.is_connected;
  is_ready = p.is_ready;
  is_spectator = p.is_spectator;
  is_host = p.id == host_id;
  avatar = non_empty p.avatar;
  session_wins = positive p.session_wins;
  session_score = positive p.session_score;
}

abbrev pub serialize_config : GameConfig → ConfigView
serialize_config config = record {
  num_rounds = config.num_rounds;
  turn_duration = config.turn_duration;
  max_players = config.max_players;
  custom_words = config.custom_words;
  is_private = is_some (non_empty config.password);
}

-- `[self._serialize_player(p) for p in room.players]`
abbrev pub serialize_players : Room → List PlayerView
serialize_players room = map (serialize_player room.host_id) room.players
