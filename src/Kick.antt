-- ===== src/Kick.antt =====
-- backend/room_manager.py, `_execute_vote_kick_passed`, with the game engine as argument.
pub mod Seats
pub mod Outcome
use skribbl_app.Prelude.{
  ◌++◌, ◌||◌, ℕ, Bool, true, false, not, Option, none, some, List, [], ◌∷◌, keep, ltb, ◌==◌,
  if◌then◌else◌,
}
use skribbl_app.Text.{Text, codes}
use skribbl_app.Models.{
  RoomState, playing, word_selection, state_eq, all_guessed, drawer_disconnected, Player, TurnState,
  Room, remove_player, is_active,
}
use skribbl_app.Session.{
  Env, Session, vote_passed, chat_message, vote_kick_ended, kicked, broadcast, send_to, set_room,
}
use skribbl_app.Turns.{active_count, end_game_insufficient_players}
use skribbl_app.EndTurn.{end_turn}
use skribbl_app.Guess.{all_have_guessed, active_turn}
use skribbl_app.Lobby.{tell_players}
use skribbl_app.Lobby.Members.{crown}

-- What the chat messages about votes begin with: U+1F5F3, U+FE0F and a space.
abbrev pub ballot_box : Text
ballot_box = 128499 ∷ 65039 ∷ 32 ∷ []

abbrev pub first_of : List Player → List Player → Option Player
first_of (p ∷ able) online = some p
first_of [] (p ∷ online) = some p
first_of [] [] = none

-- The host after a kick: the first who can play, else the first who is connected.
abbrev pub next_host : List Player → Option Player
next_host players = first_of (keep is_active players) (keep (λ p. p.is_connected) players)

-- The target is told and removed, and another host named if the target was the host.
abbrev pub unseat : Player → Session → Session
unseat target s =
    let warned = send_to target (kicked (codes "You were kicked by majority vote")) s in
    let removed = set_room (remove_player target.id) warned in
    let crowned = crown (next_host removed.room.players) removed in
    if s.room.host_id == target.id then crowned else removed

abbrev pub announce_kick : Player → Session → Session
announce_kick target s =
    let text = target.name ++ codes " was kicked by majority vote." in
    tell_players (
      broadcast (chat_message (codes "System") (ballot_box ++ text) true)
        (broadcast (vote_kick_ended target.id target.name vote_passed text) s))

abbrev pub drew : ℕ → Option TurnState → Bool
drew id none = false
drew id (some turn) = turn.drawer_id == id

abbrev pub in_game : Room → Bool
in_game r = state_eq r.state playing || state_eq r.state word_selection

abbrev pub end_if_guessed : Env → Option TurnState → Session → Session
end_if_guessed env none s = s
end_if_guessed env (some turn) s =
    if all_have_guessed turn.drawer_id s.room.players then end_turn env all_guessed s else s

-- The game goes on without the target, or is about to end.
abbrev pub settle_game : Env → Bool → Session → Session
settle_game env was_drawer s =
    if not (in_game s.room)
    then s
    else if ltb (active_count s.room) 2
    then end_game_insufficient_players env s
    else if was_drawer
    then s
    else end_if_guessed env (active_turn s.room) s

-- `_execute_vote_kick_passed`
unfoldable pub execute_kick : Env → Player → Session → Session
unfolding remove_player end_turn end_game_insufficient_players
execute_kick env target s =
    let was_drawer = drew target.id s.room.turn in
    let announced = announce_kick target (unseat target s) in
    let ended = end_turn env drawer_disconnected announced in
    settle_game env was_drawer (if was_drawer then ended else announced)
