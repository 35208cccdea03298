-- ===== src/Joining/Create.antt =====
-- backend/room_manager.py: `create_room`, with the code that it draws and the checks of its
-- arguments, and `join_room` where no other worker is involved.
use skribbl_app.Prelude.{
  ℕ, Bool, false, not, ◌&&◌, Option, none, some, List, [], ◌∷◌, take, length, any, leb, ◌==◌,
  if◌then◌else◌,
}
use skribbl_app.Text.{Text, Unicode, strip}
use skribbl_app.Payloads.{serialize_players, serialize_config}
use skribbl_app.Models.{GameConfig, default_config, Room, new_room, Player, new_player, add_player}
use skribbl_app.Session.{Message, room_created}
use skribbl_app.Lobby.{ErrorCode, worker_draining, invalid_name}
use skribbl_app.Registry.{Manager}

-- `len(name) < MIN_NAME_LENGTH or len(name) > MAX_NAME_LENGTH`, for a name that is a text
unfoldable pub name_ok : Text → Bool
name_ok name = leb 1 (length name) && leb (length name) 20

-- `code in self.rooms`
abbrev pub has_code {ℓ} : {A : Type ℓ} → ℕ → List (ℕ × A) → Bool
has_code code rooms = any (λ e. e.0 == code) rooms

-- The codes of the attempts, as `random.choices` draws them; none where they end before one is new.
unfoldable pub generate_room_code {ℓ} : {A : Type ℓ} → List ℕ → List (ℕ × A) → Option ℕ
generate_room_code [] rooms = none
generate_room_code (code ∷ draws) rooms =
    let later = generate_room_code draws rooms in if has_code code rooms then later else some code

abbrev pub or_none : Text → Option Text
or_none [] = none
or_none (c ∷ text) = some (take 64 (c ∷ text))

-- `password.strip()[:64]`, for a password that is a text with more than space in it
unfoldable pub clean_password : Unicode → Option Text → Option Text
unfolding strip
clean_password u none = none
clean_password u (some password) = or_none (strip u password)

-- A size that is not between 2 and 12 is not taken.
abbrev pub room_size : Option ℕ → ℕ
room_size none = 12
room_size (some n) = if leb 2 n && leb n 12 then n else 12

unfoldable pub create_config : Unicode → Option Text → Option ℕ → GameConfig
unfolding clean_password
create_config u password max_players = record default_config {
  password = clean_password u password;
  max_players = room_size max_players;
}

unfoldable pub first_room : ℕ → Player → GameConfig → Room
unfolding add_player
first_room code host config = add_player host (new_room code host.id config)

abbrev pub open_room : Room → Player → Manager → Manager
open_room room host m = record m {
  rooms = (room.code, room) ∷ m.rooms;
  player_to_room = (host.id, room.code) ∷ m.player_to_room;
}

-- A message of error, or the room's.
pub data Created : Type 0 where
  refused : ErrorCode → Created
  created : Message → Created

abbrev pub create_with :
    Unicode
    → Player
    → (password : Option Text) (max_players : Option ℕ) → Option ℕ
    → Manager
    → Option (Created × Manager)
create_with u host password max_players none m = none
create_with u host password max_players (some code) m =
    let room = first_room code host (create_config u password max_players) in
    some (
      created
          (room_created room.code host.id (serialize_players room) (serialize_config room.config)),
      open_room room host m,
    )

-- None where the draws end before a code is new. Whether the worker is draining is an argument.
unfoldable pub create_room :
    Unicode
    → (draining : Bool) (codes_drawn : List ℕ) (new_id : ℕ) (name : Text) (websocket : ℕ)
      (avatar password : Option Text) (max_players : Option ℕ)
    → Manager
    → Option (Created × Manager)
unfolding name_ok generate_room_code create_config first_room
create_room u draining codes_drawn new_id name websocket avatar password max_players m =
    if draining
    then some (refused worker_draining, m)
    else if not (name_ok name)
    then some (refused invalid_name, m)
    else create_with u (new_player new_id name (some websocket) avatar false) password max_players
        (generate_room_code codes_drawn m.rooms) m
