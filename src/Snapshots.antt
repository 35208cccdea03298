-- ===== src/Snapshots.antt =====
-- backend/room_manager.py: `snapshot_room` and `restore_room`. A snapshot stands for the dictionary;
-- what Redis keeps of it is taken to be the same.
pub mod Resume
pub mod Rejoin
use skribbl_app.Prelude.{
  ℕ, zero, suc, Bool, true, false, Option, none, some, List, [], ◌∷◌, map, if◌then◌else◌,
}
use skribbl_app.Text.{Text}
use skribbl_app.Payloads.{ConfigView, serialize_config, non_empty}
use skribbl_app.Models.{
  RoomState, lobby, word_selection, playing, game_over, Player, new_player, GameConfig, TurnState,
  Room, new_room,
}
use skribbl_app.Registry.{Manager}

pub record PlayerSnapshot : Type 0 where
  pub id : ℕ
  pub name : Text
  pub score : ℕ
  pub has_guessed : Bool
  pub is_connected : Bool
  pub is_ready : Bool
  pub avatar : Option Text
  pub disconnect_time : Option ℕ

pub record TurnSnapshot : Type 0 where
  pub drawer_id : ℕ
  pub word : Text
  pub hint : Text
  pub start_time : ℕ
  pub word_choices : List Text
  pub guess_order : List ℕ

-- `password` is the entry `_password` of the settings.
pub record Snapshot : Type 0 where
  pub code : ℕ
  pub host_id : ℕ
  pub state : RoomState
  pub current_round : ℕ
  pub drawer_index : ℕ
  pub config : ConfigView
  pub password : Option Text
  pub used_words : List Text
  pub word_pool : List Text
  pub players : List PlayerSnapshot
  pub turn : Option TurnSnapshot
  pub snapshot_time : ℕ

abbrev pub snapshot_player : Player → PlayerSnapshot
snapshot_player p = record {
  id = p.id;
  name = p.name;
  score = p.score;
  has_guessed = p.has_guessed;
  is_connected = p.is_connected;
  is_ready = p.is_ready;
  avatar = p.avatar;
  disconnect_time = p.disconnect_time;
}

abbrev pub snapshot_turn : Option TurnState → Option TurnSnapshot
snapshot_turn none = none
snapshot_turn (some turn) = some (record {
  drawer_id = turn.drawer_id;
  word = turn.word;
  hint = turn.hint;
  start_time = turn.start_time;
  word_choices = turn.word_choices;
  guess_order = turn.guess_order;
})

unfoldable pub snapshot_room : (now : ℕ) → Room → Snapshot
snapshot_room now room = record {
  code = room.code;
  host_id = room.host_id;
  state = room.state;
  current_round = room.current_round;
  drawer_index = room.drawer_index;
  config = serialize_config room.config;
  password = non_empty room.config.password;
  used_words = room.used_words;
  word_pool = room.word_pool;
  players = map snapshot_player room.players;
  turn = snapshot_turn room.turn;
  snapshot_time = now;
}

-- `disconnect_time or time.time()`; a time of 0 is false.
abbrev pub or_now : ℕ → Option ℕ → ℕ
or_now now none = now
or_now now (some zero) = now
or_now now (some (suc t)) = suc t

-- Nobody is connected to a room that is restored.
abbrev pub restore_player : ℕ → PlayerSnapshot → Player
restore_player now s = record (new_player s.id s.name none s.avatar false) {
  score = s.score;
  has_guessed = s.has_guessed;
  is_connected = false;
  is_ready = s.is_ready;
  disconnect_time = some (or_now now s.disconnect_time);
}

abbrev pub restore_config : Snapshot → GameConfig
restore_config s = record {
  num_rounds = s.config.num_rounds;
  turn_duration = s.config.turn_duration;
  max_players = s.config.max_players;
  custom_words = s.config.custom_words;
  password = s.password;
}

-- `state in (RoomState.PLAYING, RoomState.WORD_SELECTION)`
abbrev pub in_turn : RoomState → Bool
in_turn playing = true
in_turn word_selection = true
in_turn lobby = false
in_turn game_over = false

-- The turn begins anew now, without tasks and without a theme.
abbrev pub resume_turn : (now serial : ℕ) → TurnSnapshot → TurnState
resume_turn now serial t = record {
  serial = serial;
  drawer_id = t.drawer_id;
  word = t.word;
  hint = t.hint;
  start_time = now;
  word_choices = t.word_choices;
  timer_task = none;
  hint_task_40 = none;
  hint_task_70 = none;
  guess_order = t.guess_order;
  theme = none;
}

abbrev pub restore_turn : (now serial : ℕ) → RoomState → Option TurnSnapshot → Option TurnState
restore_turn now serial state none = none
restore_turn now serial state (some t) =
    if in_turn state then some (resume_turn now serial t) else none

-- `serial` is the identity of the new turn.
unfoldable pub restored_room : (now serial : ℕ) → Snapshot → Room
restored_room now serial s = record (new_room s.code s.host_id (restore_config s)) {
  state = s.state;
  current_round = s.current_round;
  drawer_index = s.drawer_index;
  used_words = s.used_words;
  word_pool = s.word_pool;
  players = map (restore_player now) s.players;
  turn = restore_turn now serial s.state s.turn;
}

-- The players of the snapshot are put into the index, the last one first.
abbrev pub index_players : ℕ → List PlayerSnapshot → List (ℕ × ℕ) → List (ℕ × ℕ)
index_players code [] index = index
index_players code (p ∷ players) index = index_players code players ((p.id, code) ∷ index)

unfoldable pub restore_room : (now serial : ℕ) → Snapshot → Manager → Room × Manager
unfolding restored_room
restore_room now serial s m =
    let room = restored_room now serial s in
    (
      room,
      record m {
        rooms = (room.code, room) ∷ m.rooms;
        player_to_room = index_players room.code s.players m.player_to_room;
      },
    )
