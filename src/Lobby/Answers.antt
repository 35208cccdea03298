-- ===== src/Lobby/Answers.antt =====
-- The requests of the players in the lobby, taken together, and those that are refused.
use skribbl_app.Prelude.{
  ℕ, ◌≡◌, ◌≢◌, refl, Bool, true, false, Option, none, some, arith, ◌==◌, get_elem?,
}
use skribbl_app.Text.{Text, Unicode}
use skribbl_app.Models.{Player, get_player}
use skribbl_app.Session.{Session}
use skribbl_app.Lobby.{
  Reply, error, ErrorCode, permission_denied, toggle_ready, ready_of, update_profile, profile_of,
}
use skribbl_app.Lobby.Settings.{SettingsDict, update_settings}
use skribbl_app.Lobby.Game.{start_game, announce_game, open_game, handle_rematch}
use skribbl_app.Lobby.Members.{transfer_host, transfer_to, kick_player, kick_of}

-- The requests that the manager answers without taking the player who asks from the room.
pub data Request : Type 0 where
  ready start rematch : Request
  profile : (name avatar : Option Text) → Request
  settings : SettingsDict → Request
  transfer kick : (target_id : ℕ) → Request

unfoldable pub answer : Unicode → ℕ → Request → Session → Reply × Session
unfolding toggle_ready update_profile update_settings start_game handle_rematch transfer_host
    kick_player
answer u id ready s = toggle_ready id s
answer u id (profile name avatar) s = update_profile u id name avatar s
answer u id (settings d) s = update_settings u id d s
answer u id start s = start_game id s
answer u id rematch s = handle_rematch id s
answer u id (transfer target_id) s = transfer_host id target_id s
answer u id (kick target_id) s = kick_player id target_id s

-- An answer that is an error comes with the session unchanged.
abbrev pub Refusal : Session → Reply × Session → Type 0
Refusal s a = (code : ErrorCode) (text : Text) → a.0 ≡ error code text → a.1 ≡ s

module _ (s : Session) where
  ready_of-Refusal : (id : ℕ) (p : Option Player) → Refusal s (ready_of id p s)
  ready_of-Refusal id none = λ c t e. refl
  ready_of-Refusal id (some p) = λ c t e. cc

  profile_of-Refusal :
      (u : Unicode) (id : ℕ) (name avatar : Option Text) (p : Option Player)
      → Refusal s (profile_of u id name avatar p s)
  profile_of-Refusal u id name avatar none = λ c t e. refl
  profile_of-Refusal u id none avatar (some p) = λ c t e. cc
  profile_of-Refusal u id (some name) avatar (some p) = λ c t e. ground arith

  announce_game-Refusal :
      (drawer : Option Player) (t : Session) → Refusal s (announce_game drawer t)
  announce_game-Refusal none t = λ c m e. cc
  announce_game-Refusal (some drawer) t = λ c m e. cc

  transfer_to-Refusal : (id : ℕ) (p : Option Player) → Refusal s (transfer_to id p s)
  transfer_to-Refusal id none = λ c t e. refl
  transfer_to-Refusal id (some p) = λ c t e. ground arith

  kick_of-Refusal : (id : ℕ) (p : Option Player) → Refusal s (kick_of id p s)
  kick_of-Refusal id none = λ c t e. refl
  kick_of-Refusal id (some p) = λ c t e. ground arith

-- A request that is answered by an error changes nothing, and nobody is told of it.
pub answer_refused :
    (u : Unicode) (id : ℕ) (request : Request) (s : Session) (code : ErrorCode) (text : Text)
    → (answer u id request s).0 ≡ error code text
    → (answer u id request s).1 ≡ s
unfolding answer
answer_refused u id ready s code text e =
    ground (arith, ready_of-Refusal s id (get_player id s.room) code text)
answer_refused u id (profile name avatar) s code text e =
    ground (arith, profile_of-Refusal s u id name avatar (get_player id s.room) code text)
answer_refused u id (settings d) s code text e = ground arith
answer_refused u id start s code text e = ground (
  arith,
  announce_game-Refusal s (get_elem? (open_game s.room).players (open_game s.room).drawer_index)
      (record s { room = open_game s.room }) code text,
)
answer_refused u id rematch s code text e = ground arith
answer_refused u id (transfer target_id) s code text e =
    ground (arith, transfer_to-Refusal s id (get_player target_id s.room) code text)
answer_refused u id (kick target_id) s code text e =
    ground (arith, kick_of-Refusal s target_id (get_player target_id s.room) code text)

-- The requests that only the host may make.
abbrev pub host_only : Request → Bool
host_only ready = false
host_only (profile name avatar) = false
host_only _ = true

-- Whoever is not the host gets an error for those of these requests that are the host's, and nothing
-- changes, whatever state the room is in.
pub answer_denied :
    (u : Unicode) (id : ℕ) (request : Request) (s : Session)
    → host_only request ≡ true
    → s.room.host_id ≢ id
    → (message : Text) × (answer u id request s ≡ (error permission_denied message, s))
unfolding answer
answer_denied u id request s only other = denied request only
  where
    not_host : (s.room.host_id == id) ≡ false
    not_host = ground arith

    denied :
        (request : Request)
        → host_only request ≡ true
        → (message : Text) × (answer u id request s ≡ (error permission_denied message, s))
    denied ready h = cc
    denied (profile name avatar) h = cc
    denied (settings d) h = rw not_host (_, refl)
    denied start h = rw not_host (_, refl)
    denied rematch h = rw not_host (_, refl)
    denied (transfer target_id) h = rw not_host (_, refl)
    denied (kick target_id) h = rw not_host (_, refl)
