-- ===== src/Tests/Rooms.antt =====
-- Tests of the requests in a room, of its members and of its settings.
use skribbl_app.Prelude.{◌≡◌, refl, some, none, [], ◌∷◌, arith}
use skribbl_app.Text.{codes, ascii}
use skribbl_app.Models.{default_config, game_over}
use skribbl_app.Session.{Session, idle}
use skribbl_app.Lobby.{error, game_not_active}
use skribbl_app.Lobby.Settings.{SettingsDict, scalar, natural, str, update_settings}
use skribbl_app.Lobby.Ranges.{ConfigOk, update_settings-ConfigOk}
use skribbl_app.Lobby.Answers.{rematch, answer}
use skribbl_app.Registry.{Manager}
use skribbl_app.Registry.Index.{Consistent}
use skribbl_app.Tests.Samples.{alice, bob, carol, lobby_room}

abbrev three : Session
three = idle (lobby_room (alice ∷ bob ∷ carol ∷ []))

abbrev longer : SettingsDict
longer = record {
  num_rounds = some (scalar (natural 5));
  turn_duration = none;
  max_players = none;
  custom_words = some (scalar (str (codes "Owl,, owl\nnewt ")));
  password = some (scalar (str (codes " key ")));
}

words_set :
    (update_settings ascii 1 longer three).1.room.config.custom_words
    ≡ codes "Owl" ∷ codes "newt" ∷ []
unfolding update_settings
words_set = refl

default_config-ConfigOk : ConfigOk ascii default_config
default_config-ConfigOk = record {
  rounds = (omega arith, omega arith);
  duration = (omega arith, omega arith);
  capacity = (omega arith, omega arith);
  word_count = omega arith;
  word_lengths = tt;
  distinct = tt;
  password_ok = tt;
}

update_settings-ConfigOk_example :
    ConfigOk ascii (update_settings ascii 1 longer three).1.room.config
update_settings-ConfigOk_example =
    update_settings-ConfigOk ascii 1 longer three default_config-ConfigOk

-- A rematch is for the end of a game.
too_early :
    (answer ascii 1 rematch three).0
    ≡ error game_not_active (codes "Rematch can only be initiated from game over state")
unfolding answer
too_early = refl

abbrev finished : Session
finished = idle (record three.room { state = game_over })

abbrev manager : Manager
manager = record { rooms = (77, three.room) ∷ []; player_to_room = [] }

manager-Consistent : Consistent manager
manager-Consistent = record { keyed = (refl, tt); indexed = λ id code e. absurd (cc) }
