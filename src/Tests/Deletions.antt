-- ===== src/Tests/Deletions.antt =====
-- Tests of the deletion of a room.
use skribbl_app.Prelude.{ℕ, ◌+◌, ◌≡◌, refl, none, some, [], ◌∷◌}
use skribbl_app.Text.{codes}
use skribbl_app.Models.{Room}
use skribbl_app.Votes.{VoteKick}
use skribbl_app.Registry.{Manager}
use skribbl_app.Registry.Index.{Consistent, remember-Consistent}
use skribbl_app.Deletion.{Filed, Directory, delete_room, sweep}
use skribbl_app.Deletion.Gone.{Deleted, delete_room-Deleted}
use skribbl_app.Tests.Samples.{alice, bob, carol, lobby_room}

abbrev here : Room
here = lobby_room (alice ∷ bob ∷ [])

abbrev there : Room
there = record (lobby_room (carol ∷ [])) { code = 78; host_id = 3 }

abbrev unindexed : Manager
unindexed = record { rooms = (77, here) ∷ (78, there) ∷ []; player_to_room = [] }

abbrev indexed : Manager
indexed = record unindexed { player_to_room = (1, 77) ∷ [] }

indexed-Consistent : Consistent indexed
indexed-Consistent =
    remember-Consistent 1 here unindexed
      (record { keyed = (refl, (refl, tt)); indexed = λ id code e. absurd (cc) }) refl refl

abbrev vote : VoteKick
vote = record {
  target_id = 2;
  target_name = codes "bob";
  initiator_id = 1;
  initiator_name = codes "alice";
  votes = 1 ∷ [];
  timeout_task = 4;
}

abbrev filed : ℕ → ℕ → ℕ → Filed
filed room_code request_id task = record {
  room_code = room_code;
  request_id = request_id;
  timeout_task = task;
  websocket = some (request_id + 10);
}

abbrev directory : Directory
directory = record {
  manager = indexed;
  joins = filed 77 20 1 ∷ filed 78 21 2 ∷ [];
  roles = record (filed 77 30 3) { websocket = none } ∷ [];
  ws_to_request = (30, 20) ∷ (31, 21) ∷ [];
  votes = (77, vote) ∷ [];
  cooldowns = (77, (2, 5) ∷ []) ∷ [];
  tasks = 1 ∷ 2 ∷ 3 ∷ 4 ∷ [];
}

delete_room-Deleted_example : Deleted 77 directory (delete_room 77 directory)
delete_room-Deleted_example =
    delete_room-Deleted 77 directory (refl, (refl, tt)) indexed-Consistent (refl, (refl, tt))
      (refl, tt)

left_behind :
    ((delete_room 77 directory).tasks ≡ 2 ∷ [])
    × ((delete_room 77 directory).ws_to_request ≡ (31, 21) ∷ [])
unfolding delete_room sweep
left_behind = (refl, refl)
