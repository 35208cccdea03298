-- ===== src/Tests/Samples.antt =====
-- Players, rooms and sessions that the tests share.
use skribbl_app.Prelude.{true, false, none, some, List, [], ◌∷◌}
use skribbl_app.Text.{codes, ascii}
use skribbl_app.Models.{
  Player, TurnState, Room, new_player, new_room, default_config, playing, word_selection,
}
use skribbl_app.Words.{small_packs}
use skribbl_app.Session.{Env, Session, idle}

abbrev pub alice : Player
alice = new_player 1 (codes "alice") (some 11) none false

abbrev pub bob : Player
bob = new_player 2 (codes "bob") (some 12) none false

abbrev pub carol : Player
carol = new_player 3 (codes "carol") (some 13) none false

abbrev pub watcher : Player
watcher = new_player 4 (codes "dave") (some 14) none true

abbrev pub env : Env
env = record {
  unicode = ascii;
  word_packs = small_packs;
  profanity_words = codes "darn" ∷ [];
  now = 40_000_000;
  draws = [];
}

-- The turn of alice, who draws a cat since 20 seconds.
abbrev pub cat_turn : TurnState
cat_turn = record {
  serial = 0;
  drawer_id = 1;
  word = codes "cat";
  hint = codes "___";
  start_time = 20_000_000;
  word_choices = codes "cat" ∷ codes "dog" ∷ [];
  timer_task = some 2;
  hint_task_40 = some 0;
  hint_task_70 = some 1;
  guess_order = [];
  theme = none;
}

abbrev pub lobby_room : List Player → Room
lobby_room players = record (new_room 77 1 default_config) { players = players }

abbrev pub playing_room : List Player → Room
playing_room players = record (lobby_room players) {
  state = playing;
  current_round = 1;
  turn = some cat_turn;
}

-- A session whose counter is past the turn's tasks.
abbrev pub playing_session : List Player → Session
playing_session players = record {
  room = playing_room players;
  tasks = [];
  next_task = 3;
  outbox = [];
}

-- Alice chooses between two words.
abbrev pub choosing_session : List Player → Session
choosing_session players = idle (record (lobby_room players) {
  state = word_selection;
  current_round = 1;
  pending_word_choices = some (codes "cat" ∷ codes "dog" ∷ []);
})
