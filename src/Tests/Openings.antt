-- ===== src/Tests/Openings.antt =====
-- Tests of rooms that are created, of rooms that are saved and restored, and of workers.
use skribbl_app.Prelude.{ℕ, ◌≡◌, refl, false, true, none, some, [], ◌∷◌, arith, Option, ◌==◌}
use skribbl_app.Text.{codes, ascii, text_eq}
use skribbl_app.Models.{Room}
use skribbl_app.Models.Lookup.{OnlyName}
use skribbl_app.Lobby.{worker_draining}
use skribbl_app.Registry.{Manager}
use skribbl_app.Registry.Index.{Consistent}
use skribbl_app.Joining.Create.{create_room, generate_room_code, has_code, Created, refused}
use skribbl_app.Joining.Codes.{generate_room_code_total}
use skribbl_app.Joining.Opening.{Says, create_room-Consistent}
use skribbl_app.Presence.{Hall}
use skribbl_app.Presence.Return.{Welcome, reconnected, handle_reconnect}
use skribbl_app.Snapshots.{snapshot_room, restored_room}
use skribbl_app.Snapshots.Rejoin.{handle_reconnect-restored_room}
use skribbl_app.GrpcRegistry.{Registration, both, register_grpc_worker, refresh_rounds, is_alive}
use skribbl_app.GrpcRegistry.Liveness.{refresh_rounds-register_grpc_worker}
use skribbl_app.Tests.Samples.{alice, bob, carol, playing_room, lobby_room}

abbrev manager : Manager
manager = record { rooms = (77, lobby_room (alice ∷ [])) ∷ []; player_to_room = [] }

generate_room_code_total_example :
    (code : ℕ) × (generate_room_code (77 ∷ 5 ∷ []) manager.rooms ≡ some code)
    × (has_code code manager.rooms ≡ false)
generate_room_code_total_example =
    generate_room_code_total (77 ∷ 5 ∷ []) manager.rooms (refl, (refl, tt)) (omega arith)

manager-Consistent : Consistent manager
manager-Consistent = record { keyed = (refl, tt); indexed = λ id code e. absurd (cc) }

-- The second code that is drawn is new.
abbrev opened : Option (Created × Manager)
opened =
    create_room ascii false (77 ∷ 5 ∷ []) 8 (codes "zoe") 18 none (some (codes "key")) (some 4)
      manager

abbrev reply_of : Option (Created × Manager) → Created
reply_of none = refused worker_draining
reply_of (some (reply, m)) = reply

abbrev manager_of : Option (Created × Manager) → Manager
manager_of none = manager
manager_of (some (reply, m)) = m

opened_lem : opened ≡ some (reply_of opened, manager_of opened)
unfolding create_room
opened_lem = refl

create_room-Consistent_example :
    Consistent (manager_of opened) × Says manager (manager_of opened) 8 (reply_of opened)
create_room-Consistent_example =
    create_room-Consistent ascii false (77 ∷ 5 ∷ []) 8 (codes "zoe") 18 none (some (codes "key"))
      (some 4) manager (manager_of opened) (reply_of opened) opened_lem manager-Consistent

abbrev saved_room : Room
saved_room = playing_room (alice ∷ record bob { score = 120 } ∷ carol ∷ [])

abbrev restored_hall : Hall
restored_hall = record {
  ballot = record {
    session = record {
      room = restored_room 50 1 (snapshot_room 45 saved_room);
      tasks = [];
      next_task = 0;
      outbox = [];
    };
    vote_kick = none;
    cooldowns = [];
    timers = [];
    next_timer = 0;
  };
  waits = [];
  next_wait = 0;
}

only_bob : OnlyName 2 (codes "bob") saved_room.players
unfolding text_eq
only_bob = (refl, (refl, (refl, tt)))

handle_reconnect-restored_room_example :
    (w : Welcome) × ((handle_reconnect (codes "bob") 55 none restored_hall).0 ≡ reconnected w)
    × (w.player_id ≡ 2)
    × (w.score ≡ 120)
    × (w.is_host ≡ (2 == saved_room.host_id))
handle_reconnect-restored_room_example =
    handle_reconnect-restored_room 50 1 45 2 55 none saved_room restored_hall
      (record bob { score = 120 }) refl refl only_bob

abbrev unregistered : Registration
unregistered = record {
  redis = record { address = none; alive_until = none };
  registered = false;
  refreshing = false;
}

-- The second refresh of three fails.
refresh_rounds-register_grpc_worker_example :
    is_alive 45_000_000 (
      refresh_rounds 5_000_000
        (true ∷ false ∷ true ∷ [])
        (register_grpc_worker 5_000_000 true (codes "worker1") 50_051 both unregistered))
    ≡ true
refresh_rounds-register_grpc_worker_example =
    refresh_rounds-register_grpc_worker 5_000_000 45_000_000 (codes "worker1") 50_051
      (true ∷ false ∷ true ∷ []) unregistered tt (omega arith)
