-- ===== src/Snapshots/Resume.antt =====
-- What a room keeps over a snapshot and a restart, once and twice, and the index after it.
use skribbl_app.Prelude.{
  ℕ, zero, suc, ◌≡◌, refl, true, false, Option, none, some, List, [], ◌∷◌, map, arith, any, All,
  ◌==◌,
}
use skribbl_app.Text.{Text}
use skribbl_app.Payloads.{non_empty}
use skribbl_app.Models.{RoomState, lobby, word_selection, playing, game_over, TurnState, Room}
use skribbl_app.Registry.{Manager, lookup, seats}
use skribbl_app.Registry.Index.{Consistent, remember-Consistent}
use skribbl_app.Joining.Create.{has_code}
use skribbl_app.Joining.Opening.{added-Consistent, lookup-head}
use skribbl_app.Snapshots.{
  PlayerSnapshot, snapshot_player, snapshot_turn, snapshot_room, or_now, restore_player,
  restore_turn, index_players, restored_room, restore_room, Snapshot,
}

-- A turn that begins again.
abbrev pub begun_at : (now serial : ℕ) → Option TurnState → Option TurnState
begun_at now serial none = none
begun_at now serial (some turn) = some (record turn { start_time = now; serial = serial })

non_empty-non_empty : (o : Option Text) → non_empty (non_empty o) ≡ non_empty o
non_empty-non_empty none = refl
non_empty-non_empty (some []) = refl
non_empty-non_empty (some (c ∷ text)) = refl

or_now-or_now :
    (later now : ℕ) (o : Option ℕ) → or_now later (some (or_now (suc now) o)) ≡ or_now (suc now) o
or_now-or_now later now none = refl
or_now-or_now later now (some zero) = refl
or_now-or_now later now (some (suc t)) = refl

players_again :
    (later now : ℕ) (players : List PlayerSnapshot)
    → map (restore_player later) (map snapshot_player (map (restore_player (suc now)) players))
      ≡ map (restore_player (suc now)) players
players_again later now [] = refl
players_again later now (p ∷ players) =
    rw (or_now-or_now later now p.disconnect_time, players_again later now players) refl

turn_again :
    (later now serial new : ℕ) (state : RoomState) (turn : Option TurnState)
    → restore_turn later new state
        (snapshot_turn (restore_turn now serial state (snapshot_turn turn)))
      ≡ begun_at later new (restore_turn now serial state (snapshot_turn turn))
turn_again later now serial new state none = refl
turn_again later now serial new lobby (some turn) = refl
turn_again later now serial new word_selection (some turn) = refl
turn_again later now serial new playing (some turn) = refl
turn_again later now serial new game_over (some turn) = refl

-- A room that was restored, at a time that is not 0, loses nothing in a second snapshot and restart:
-- only its turn begins again.
pub restored_room-twice :
    (later now serial new saved saved_again : ℕ) (room : Room)
    → restored_room later new
        (snapshot_room saved_again (restored_room (suc now) serial (snapshot_room saved room)))
      ≡ record (restored_room (suc now) serial (snapshot_room saved room)) {
        turn = begun_at later new (restored_room (suc now) serial (snapshot_room saved room)).turn;
      }
unfolding restored_room snapshot_room
restored_room-twice later now serial new saved saved_again room =
    rw
      (
        non_empty-non_empty room.config.password,
        players_again later now (map snapshot_player room.players),
        turn_again later (suc now) serial new room.state room.turn,
      )
      refl

-- Every player of the snapshot has a seat.
abbrev Seated : Room → List PlayerSnapshot → Type 0
Seated room players = All (λ s. seats s.id room ≡ true) players

index_players-Consistent :
    (room : Room) (players : List PlayerSnapshot) (m : Manager)
    → lookup room.code m.rooms ≡ some room
    → Seated room players
    → Consistent m
    → Consistent (record m { player_to_room = index_players room.code players m.player_to_room })
index_players-Consistent room [] m stands seated h = record { keyed = h.keyed; indexed = h.indexed }
index_players-Consistent room (p ∷ players) m stands seated h =
    index_players-Consistent room players
      (record m { player_to_room = (p.id, room.code) ∷ m.player_to_room }) stands seated.1
      (remember-Consistent p.id room m h seated.0 stands)

map-Seated :
    (now : ℕ) (room : Room) (players : List PlayerSnapshot)
    → ((id : ℕ)
        → any (λ p. p.id == id) (map (restore_player now) players) ≡ true
        → seats id room ≡ true)
    → Seated room players
map-Seated now room [] h = tt
map-Seated now room (p ∷ players) h =
    (h p.id (ground arith), map-Seated now room players (λ id e. h id (ground arith)))

-- After a room is restored whose code no other room has, every room of the manager stands under its
-- own code, and the index names for each player a room that has the player.
pub restore_room-Consistent :
    (now serial : ℕ) (s : Snapshot) (m : Manager)
    → has_code s.code m.rooms ≡ false
    → Consistent m
    → Consistent (restore_room now serial s m).1
unfolding restore_room
restore_room-Consistent now serial s m free h =
    let room = restored_room now serial s in
    index_players-Consistent room s.players (record m { rooms = (s.code, room) ∷ m.rooms })
      (lookup-head s.code room m.rooms) (map-Seated now room s.players (λ id e. e))
      (added-Consistent room m free h)
