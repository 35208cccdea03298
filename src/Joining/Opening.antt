-- ===== src/Joining/Opening.antt =====
-- A room that is created, among the manager's rooms.
use skribbl_app.Prelude.{
  ℕ, ◌≡◌, refl, inl, inr, Bool, true, false, Bool-cases, Option, none, some, List, [], ◌∷◌, arith,
  ◌==◌,
}
use skribbl_app.Text.{Text, Unicode}
use skribbl_app.Models.{Player, Room, new_player, add_player}
use skribbl_app.Payloads.{serialize_players, serialize_config}
use skribbl_app.Session.{room_created}
use skribbl_app.Lobby.{worker_draining, invalid_name}
use skribbl_app.Registry.{Manager, lookup, seats}
use skribbl_app.Registry.Index.{Consistent, Keyed, remember-Consistent}
use skribbl_app.Joining.Create.{
  has_code, generate_room_code, create_config, first_room, open_room, create_with, create_room,
  Created, refused, created, name_ok,
}
use skribbl_app.Joining.Codes.{generate_free}

lookup-has_code :
    (code : ℕ) (rooms : List (ℕ × Room)) (room : Room)
    → lookup code rooms ≡ some room
    → has_code code rooms ≡ true
lookup-has_code code [] room e = absurd (cc)
lookup-has_code code ((k, r) ∷ rooms) room e = ground (arith, lookup-has_code code rooms room)

-- What was found is found still, when a room with a new code is added.
lookup-added :
    (code new : ℕ) (rooms : List (ℕ × Room)) (room added : Room)
    → has_code new rooms ≡ false
    → lookup code rooms ≡ some room
    → lookup code ((new, added) ∷ rooms) ≡ some room
lookup-added code new rooms room added free e =
    let taken = lookup-has_code code rooms room e in
    elim (Bool-cases (new == code)) [
      | inl same ↦
          let is : new ≡ code = ground arith in
          absurd (let bad : has_code code rooms ≡ false = rw⁻¹ is free in cc)
      | inr other ↦ rw other e
    ]

Keyed-added :
    (new : ℕ) (added : Room) (all rooms : List (ℕ × Room))
    → has_code new all ≡ false
    → Keyed all rooms
    → Keyed ((new, added) ∷ all) rooms
Keyed-added new added all [] free k = tt
Keyed-added new added all ((code, room) ∷ rooms) free k =
    (lookup-added room.code new all room added free k.0, Keyed-added new added all rooms free k.1)

pub lookup-head :
    (code : ℕ) (room : Room) (rooms : List (ℕ × Room))
    → lookup code ((code, room) ∷ rooms) ≡ some room
lookup-head code room rooms = ground arith

pub added-Consistent :
    (room : Room) (m : Manager)
    → has_code room.code m.rooms ≡ false
    → Consistent m
    → Consistent (record m { rooms = (room.code, room) ∷ m.rooms })
added-Consistent room m free h = record {
  keyed =
      (lookup-head room.code room m.rooms, Keyed-added room.code room m.rooms m.rooms free h.keyed);
  indexed = λ id code e.
      let (r, at, sits) = h.indexed id code e in
      (r, lookup-added code room.code m.rooms r room free at, sits);
}

open_room-Consistent :
    (host : Player) (room : Room) (m : Manager)
    → has_code room.code m.rooms ≡ false
    → seats host.id room ≡ true
    → Consistent m
    → Consistent (open_room room host m)
open_room-Consistent host room m free seated h =
    remember-Consistent host.id room (record m { rooms = (room.code, room) ∷ m.rooms })
      (added-Consistent room m free h) seated (lookup-head room.code room m.rooms)

-- A room that was made stands under its code with its host in it, who is in the index, and the others
-- are found as before.
pub record Opens (m after : Manager) (host_id code : ℕ) : Type 0 where
  pub room : Room
  pub new : has_code code m.rooms ≡ false
  pub stands : lookup code after.rooms ≡ some room
  pub hosts : (room.host_id ≡ host_id) × (seats host_id room ≡ true)
  pub in_index : lookup host_id after.player_to_room ≡ some code
  pub rooms : after.rooms ≡ (code, room) ∷ m.rooms
  pub index : after.player_to_room ≡ (host_id, code) ∷ m.player_to_room

-- What a reply says of the manager.
abbrev pub Says : Manager → Manager → ℕ → Created → Type 0
Says m after host_id (refused code) = after ≡ m
Says m after host_id (created (room_created code id players config)) =
    (id ≡ host_id) × Opens m after host_id code
Says m after host_id (created _) = ⊥

create_with-Consistent :
    (u : Unicode) (host : Player) (password : Option Text) (max_players code : Option ℕ)
    (draws : List ℕ) (m after : Manager) (reply : Created)
    → generate_room_code draws m.rooms ≡ code
    → create_with u host password max_players code m ≡ some (reply, after)
    → Consistent m
    → Consistent after × Says m after host.id reply
unfolding first_room add_player
create_with-Consistent u host password max_players none draws m after reply drawn e h = absurd (cc)
create_with-Consistent u host password max_players (some code) draws m after reply drawn e h =
    let room = first_room code host (create_config u password max_players) in
    let free = generate_free draws m.rooms code drawn in
    let is : open_room room host m ≡ after = cc in
    let says : created
          (room_created code host.id (serialize_players room) (serialize_config room.config))
        ≡ reply =
      cc in
    let opened : Opens m (open_room room host m) host.id code = record {
      room = room;
      new = free;
      stands = lookup-head code room m.rooms;
      hosts = (refl, ground arith);
      in_index = ground arith;
      rooms = refl;
      index = refl;
    } in
    rw⁻¹ (is, says) (open_room-Consistent host room m free (ground arith) h, (refl, opened))

-- In a manager in which every room stands under its own code and the index names for each player a
-- room that has him, `create_room` keeps this. If it gives an error nothing has changed. Otherwise the
-- room of the reply has a code that no room had, it stands under it and has the new player as host and
-- among its players, the index names it for him, and all other entries are as before.
pub create_room-Consistent :
    (u : Unicode) (draining : Bool) (codes_drawn : List ℕ) (new_id : ℕ) (name : Text)
    (websocket : ℕ) (avatar password : Option Text) (max_players : Option ℕ) (m after : Manager)
    (reply : Created)
    → create_room u draining codes_drawn new_id name websocket avatar password max_players m
      ≡ some (reply, after)
    → Consistent m
    → Consistent after × Says m after new_id reply
unfolding create_room
create_room-Consistent u true codes_drawn new_id name websocket avatar password max_players m after
      reply e h =
    let is : m ≡ after = cc in
    let says : refused worker_draining ≡ reply = cc in rw⁻¹ (is, says) (h, refl)
create_room-Consistent u false codes_drawn new_id name websocket avatar password max_players m after
      reply e h =
    elim (Bool-cases (name_ok name)) [
      | inl good ↦
          create_with-Consistent u (new_player new_id name (some websocket) avatar false) password
            max_players (generate_room_code codes_drawn m.rooms) codes_drawn m after reply refl
            (ground (arith, e)) h
      | inr bad ↦
          let is : m ≡ after = ground (arith, e) in
          let says : refused invalid_name ≡ reply = ground (arith, e) in rw⁻¹ (is, says) (h, refl)
    ]
