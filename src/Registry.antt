-- ===== src/Registry.antt =====
-- backend/room_manager.py: the manager's rooms and its index of players, `_find_room_by_player`,
-- `get_room` and `get_player`.
pub mod Index
use skribbl_app.Prelude.{
  ℕ, Bool, true, false, Option, none, some, List, [], ◌∷◌, any, ◌==◌, if◌then◌else◌,
}
use skribbl_app.Models.{Player, Room, get_player}

-- `dict.get`
abbrev pub lookup {ℓ} : {A : Type ℓ} → ℕ → List (ℕ × A) → Option A
lookup key [] = none
lookup key ((k, a) ∷ entries) = let later = lookup key entries in if k == key then some a else later

-- The dictionaries `rooms` and `_player_to_room`; an entry that is set anew stands first.
pub record Manager : Type 0 where
  pub rooms : List (ℕ × Room)
  pub player_to_room : List (ℕ × ℕ)

-- `any(p.id == player_id for p in room.players)`
abbrev pub seats : ℕ → Room → Bool
seats player_id room = any (λ p. p.id == player_id) room.players

-- The first room with the player.
abbrev pub scan : ℕ → List (ℕ × Room) → Option Room
scan player_id [] = none
scan player_id ((code, room) ∷ rooms) =
    let later = scan player_id rooms in if seats player_id room then some room else later

-- The room of a scan is remembered.
abbrev pub remember : ℕ → Option Room → Manager → Option Room × Manager
remember player_id none m = (none, m)
remember player_id (some room) m =
    (some room, record m { player_to_room = (player_id, room.code) ∷ m.player_to_room })

abbrev pub find_by : ℕ → Option ℕ → Manager → Option Room × Manager
find_by player_id (some code) m = (lookup code m.rooms, m)
find_by player_id none m = remember player_id (scan player_id m.rooms) m

unfoldable pub find_room_by_player : ℕ → Manager → Option Room × Manager
find_room_by_player player_id m = find_by player_id (lookup player_id m.player_to_room) m

abbrev pub get_room : ℕ → Manager → Option Room
get_room room_code m = lookup room_code m.rooms

abbrev pub player_in : ℕ → Option Room → Option Player
player_in player_id none = none
player_in player_id (some room) = get_player player_id room

unfoldable pub find_player : ℕ → Manager → Option Player × Manager
unfolding find_room_by_player get_player
find_player player_id m =
    let (room, after) = find_room_by_player player_id m in (player_in player_id room, after)
