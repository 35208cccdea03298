-- ===== src/Tests/Doors.antt =====
-- Tests of the door of a room: visitors, passwords, codes, and requests to play.
use skribbl_app.Prelude.{
  ℕ, ◌≡◌, ◌≢◌, refl, false, true, none, some, [], ◌∷◌, ◌++◌, arith, Option, if◌then◌else◌, leb,
  length,
}
use skribbl_app.Text.{codes, ascii, strip}
use skribbl_app.Models.{new_player, get_player}
use skribbl_app.Session.{Session, idle, join_request_resolved, declined}
use skribbl_app.Lobby.{error, told, invalid_password, request_not_found}
use skribbl_app.Joining.{
  Door, Visitor, join_room_local, password_error, admit, file_join, take_seat,
}
use skribbl_app.Joining.Create.{create_config, first_room}
use skribbl_app.Joining.Requests.{respond_join_request, accept_player, accept_spectator, decline}
use skribbl_app.Joining.Knocks.{join, respond_join, become_player, respond_role, knock}
use skribbl_app.Joining.Places.{Fits}
use skribbl_app.Joining.Capacity.{knock-Fits}
use skribbl_app.Joining.Waiting.{DoorOk}
use skribbl_app.Joining.Ledger.{knock-DoorOk}
use skribbl_app.Joining.Remote.{join_by_rpc, join_by_rpc-join_room_local}
use skribbl_app.Joining.Answers.{
  Asks, respond_join_request_once, respond_join_request-join_room_local,
}
use skribbl_app.Joining.Passwords.{join_room_local-create_config}
use skribbl_app.Tests.Samples.{alice, bob, watcher, env, playing_session}

abbrev door : Session → Door
door s = record {
  session = s;
  joins = [];
  roles = [];
  ws_to_request = [];
  ws_to_player = [];
  player_to_room = [];
  timers = [];
  next_timer = 0;
}

abbrev playing_door : Door
playing_door = door (playing_session (alice ∷ bob ∷ watcher ∷ []))

abbrev erin : Visitor
erin = record {
  new_id = 50;
  name = codes "erin";
  websocket = 15;
  avatar = none;
  as_spectator = false;
  password = some (codes " key ");
}

abbrev nobody_carried : ℕ → Option ℕ
nobody_carried w = none

-- Erin asks to join the game.
abbrev asked : Door
asked = knock env nobody_carried (join erin) playing_door

playing_door-DoorOk : DoorOk playing_door
playing_door-DoorOk = record {
  joins = refl;
  roles = refl;
  one_each = λ id. omega arith;
  counted = (omega arith, (omega arith, (omega arith, tt)));
}

knock-DoorOk_example : DoorOk (knock env nobody_carried (become_player 4 60) playing_door)
knock-DoorOk_example =
    knock-DoorOk env nobody_carried (become_player 4 60) playing_door playing_door-DoorOk

knock-Fits_example :
    Fits asked.session.room
      (knock env nobody_carried (respond_join 1 50 51 accept_player) asked).session.room
knock-Fits_example = knock-Fits env nobody_carried (respond_join 1 50 51 accept_player) asked

-- The watcher plays when alice accepts.
plays_now :
    (knock env nobody_carried
      (respond_role 1 60 true)
      (knock env nobody_carried (become_player 4 60) playing_door)).session.room.players
    ≡ alice ∷ bob ∷ record watcher { is_spectator = false; become_player_requests_count = 1 } ∷ []
unfolding knock
plays_now = refl

erin-Asks : Asks env erin playing_door alice
unfolding password_error get_player
erin-Asks = record {
  in_game = refl;
  plays = refl;
  allowed = refl;
  has_place = refl;
  asked = refl;
  new = refl;
}

respond_join_request-join_room_local_example :
    ((join_room_local env erin playing_door).1.session.room.players
      ≡ playing_door.session.room.players)
    × ((respond_join_request env playing_door.session.room.host_id 50 51 accept_player
          (join_room_local env erin playing_door).1).1.session.room.players
        ≡ playing_door.session.room.players
          ++ new_player 51 (codes "erin") (some 15) none false ∷ [])
respond_join_request-join_room_local_example =
    respond_join_request-join_room_local env env erin playing_door alice 51 erin-Asks

-- The host declines, and the visitor is told.
asked_declined :
    (respond_join_request env 1 50 52 decline asked).0
    ≡ told (join_request_resolved 50 declined none none)
unfolding knock respond_join_request join_room_local admit file_join password_error get_player
asked_declined = refl

respond_join_request_once_example :
    respond_join_request env 1 50 53 accept_spectator
      (respond_join_request env 1 50 52 decline asked).1
    ≡ (
      error request_not_found (codes "Join request not found or expired"),
      (respond_join_request env 1 50 52 decline asked).1,
    )
respond_join_request_once_example =
    respond_join_request_once env 1 1 50 52 53 decline accept_spectator asked _ asked_declined

-- A lobby with a password.
abbrev private_door : Door
private_door = door (idle (first_room 77 alice (create_config ascii (some (codes "key ")) none)))

abbrev wrong : Visitor
wrong = record erin { password = some (codes "keys") }

keys_wrong : strip ascii (codes "keys") ≢ codes "key"
unfolding strip
keys_wrong e = cc

join_room_local-create_config_example :
    join_room_local env (record erin { password = some (codes "key ") }) private_door ≡ (
      if leb (length (strip ascii (codes "key "))) 64
      then take_seat env (record erin { password = some (codes "key ") }) private_door
      else (error invalid_password (codes "Incorrect room password"), private_door))
join_room_local-create_config_example =
    join_room_local-create_config env (record erin { password = some (codes "key ") }) private_door
      77 alice (codes "key ") none refl refl refl refl

join_by_rpc-join_room_local_example :
    (join_by_rpc env erin private_door).0 ≡ (join_room_local env erin private_door).0
join_by_rpc-join_room_local_example =
    join_by_rpc-join_room_local env erin private_door (unfold first_room in refl)
