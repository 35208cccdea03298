-- ===== src/Snapshots/Rejoin.antt =====
-- How a player comes back to a room that was restored.
use skribbl_app.Prelude.{
  ℕ, ◌≡◌, refl, ap, ◌∙◌, inl, inr, true, false, Bool-cases, not, ◌&&◌, Option, some, List, [], ◌∷◌,
  map, arith, find, ◌==◌,
}
use skribbl_app.Text.{Text, text_eq}
use skribbl_app.Models.{Player, Room, modify_player}
use skribbl_app.Models.Lookup.{OnlyName}
use skribbl_app.Session.{Session}
use skribbl_app.Lobby.{set_players}
use skribbl_app.Presence.{Hall, room_of}
use skribbl_app.Presence.Return.{
  Welcome, restore, reconnected, returning, by_name, reconnect_as, stop_countdown, handle_reconnect,
}
use skribbl_app.Snapshots.{snapshot_player, snapshot_room, restore_player, restored_room}

-- A player after a restart.
abbrev pub resumed : ℕ → Player → Player
resumed now p = restore_player now (snapshot_player p)

find-resumed :
    (now id : ℕ) (name : Text) (players : List Player) (p : Player)
    → find (λ q. q.id == id) players ≡ some p
    → OnlyName id name players
    → find
        (λ q. text_eq q.name name && not q.is_connected)
        (map (restore_player now) (map snapshot_player players))
      ≡ some (resumed now p)
find-resumed now id name [] p e only = absurd (cc)
find-resumed now id name (q ∷ players) p e only = elim (Bool-cases (q.id == id)) [
  | inl here ↦
      let is : q ≡ p = ground (arith, e) in
      let named : text_eq q.name name ≡ true = only.0 ∙ here in
      rw named (ap (λ x. some (resumed now x)) is)
  | inr other ↦
      let named : text_eq q.name name ≡ false = only.0 ∙ other in
      rw named (find-resumed now id name players p (ground (arith, e)) only.1)
]

host_id-stop_countdown : (s : Session) → (stop_countdown s).room.host_id ≡ s.room.host_id
host_id-stop_countdown s = ground arith

-- A player who alone has a name in a room, and who comes back under the name after the room was saved
-- and restored elsewhere, is the same player as before, with the same points, and is host if they were.
pub handle_reconnect-restored_room :
    (now serial saved id websocket : ℕ) (avatar : Option Text) (room : Room) (h : Hall) (p : Player)
    → room_of h ≡ restored_room now serial (snapshot_room saved room)
    → find (λ q. q.id == id) room.players ≡ some p
    → OnlyName id p.name room.players
    → (w : Welcome) × ((handle_reconnect p.name websocket avatar h).0 ≡ reconnected w)
      × (w.player_id ≡ p.id)
      × (w.score ≡ p.score)
      × (w.is_host ≡ (p.id == room.host_id))
unfolding handle_reconnect restored_room snapshot_room
handle_reconnect-restored_room now serial saved id websocket avatar room h p is found only =
    let first : find (λ q. text_eq q.name p.name && not q.is_connected) (room_of h).players
        ≡ some (resumed now p) =
      ap (λ r. find (λ q. text_eq q.name p.name && not q.is_connected) r.players) is
      ∙ find-resumed now id p.name room.players p found only in
    let who : returning p.name (room_of h).players ≡ some (resumed now p) =
      ap (λ o. by_name o (find (λ q. text_eq q.name p.name) (room_of h).players)) first in
    let host =
      ap (λ i. p.id == i)
        (host_id-stop_countdown
            (set_players (modify_player p.id (restore h.waits websocket avatar)) h.ballot.session)
          ∙ ap (λ r. r.host_id) is) in
    (_, ap (λ o. (reconnect_as websocket avatar o h).0) who, refl, refl, host)
