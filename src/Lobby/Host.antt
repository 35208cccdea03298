-- ===== src/Lobby/Host.antt =====
-- The host of a room is one of its players.
use skribbl_app.Prelude.{
  ℕ, ◌≡◌, ◌≢◌, refl, ◌∙◌, inl, inr, Bool, true, Bool-cases, not, Option, none, some, List, [], ◌∷◌,
  arith, ◌==◌, any, find, keep, map, get_elem?,
}
use skribbl_app.Text.{Text, Unicode, strip}
use skribbl_app.Models.{
  Player, Room, JoinRequest, RoleRequest, get_player, modify_player, remove_player,
}
use skribbl_app.Session.{Session}
use skribbl_app.Lobby.{ready_of, profile_of, accept_profile, set_name, set_avatar, flip_ready}
use skribbl_app.Lobby.Game.{announce_game, open_game, unready, reset_player}
use skribbl_app.Lobby.Members.{forward_joins, forward_roles, hand_over, transfer_to, kick_of}
use skribbl_app.Lobby.Answers.{
  Request, ready, profile, settings, start, rematch, transfer, kick, answer,
}

abbrev pub is_member : ℕ → List Player → Bool
is_member id players = any (λ p. p.id == id) players

abbrev pub HasHost : Room → Type 0
HasHost r = is_member r.host_id r.players ≡ true

module _ (h : ℕ) where
  pub member-map :
      (f : Player → Player) (players : List Player)
      → ((p : Player) → (f p).id ≡ p.id)
      → is_member h (map f players) ≡ is_member h players
  member-map f [] same = refl
  member-map f (p ∷ players) same = rw (same p, member-map f players same) refl

  pub member-modify :
      (id : ℕ) (f : Player → Player) (players : List Player)
      → ((p : Player) → (f p).id ≡ p.id)
      → is_member h (modify_player id f players) ≡ is_member h players
  unfolding modify_player
  member-modify id f [] same = refl
  member-modify id f (p ∷ players) same = elim (Bool-cases (p.id == id)) [
    | inl e ↦ rw e (rw (same p) refl)
    | inr e ↦ rw e (rw (member-modify id f players same) refl)
  ]

  pub member-keep :
      (id : ℕ) (players : List Player)
      → h ≢ id
      → is_member h (keep (λ p. not (p.id == id)) players) ≡ is_member h players
  member-keep id [] other = refl
  member-keep id (p ∷ players) other = ground (arith, member-keep id players other)

  pub member-find :
      (players : List Player) (p : Player)
      → find (λ p. p.id == h) players ≡ some p
      → (is_member h players ≡ true) × (p.id ≡ h)
  member-find [] p e = absurd (cc)
  member-find (q ∷ players) p e = ground (arith, member-find players p)

id-set_profile :
    (name avatar : Option Text) (p : Player) → (set_avatar avatar (set_name name p)).id ≡ p.id
id-set_profile none none p = refl
id-set_profile none (some a) p = refl
id-set_profile (some n) none p = refl
id-set_profile (some n) (some a) p = refl

pub room-forward_joins :
    (host : Player) (requests : List JoinRequest) (s : Session)
    → (forward_joins host requests s).room ≡ s.room
room-forward_joins host [] s = refl
room-forward_joins host (r ∷ requests) s = room-forward_joins host requests _

pub room-forward_roles :
    (host : Player) (requests : List RoleRequest) (s : Session)
    → (forward_roles host requests s).room ≡ s.room
room-forward_roles host [] s = refl
room-forward_roles host (r ∷ requests) s = room-forward_roles host requests _

ready_of-HasHost :
    (id : ℕ) (p : Option Player) (s : Session) → HasHost s.room → HasHost (ready_of id p s).1.room
ready_of-HasHost id none s h = h
ready_of-HasHost id (some p) s h =
    member-modify s.room.host_id id flip_ready s.room.players (λ p. refl) ∙ h

accept_profile-HasHost :
    (id : ℕ) (p : Player) (name avatar : Option Text) (s : Session)
    → HasHost s.room
    → HasHost (accept_profile id p name avatar s).1.room
accept_profile-HasHost id p name avatar s h =
    member-modify s.room.host_id id _ s.room.players (id-set_profile name avatar) ∙ h

profile_of-HasHost :
    (u : Unicode) (id : ℕ) (name avatar : Option Text) (p : Option Player) (s : Session)
    → HasHost s.room
    → HasHost (profile_of u id name avatar p s).1.room
profile_of-HasHost u id name avatar none s h = h
profile_of-HasHost u id none avatar (some p) s h = accept_profile-HasHost id p none avatar s h
profile_of-HasHost u id (some name) avatar (some p) s h =
    ground (arith, accept_profile-HasHost id p (some (strip u name)) avatar s h)

announce_game-HasHost :
    (drawer : Option Player) (s : Session)
    → HasHost s.room
    → HasHost (announce_game drawer s).1.room
announce_game-HasHost none s h = h
announce_game-HasHost (some drawer) s h = h

open_game-HasHost : (r : Room) → HasHost r → HasHost (open_game r)
open_game-HasHost r h = member-map r.host_id unready r.players (λ p. refl) ∙ h

hand_over-HasHost :
    (id : ℕ) (target : Player) (s : Session)
    → is_member target.id s.room.players ≡ true
    → HasHost (hand_over id target s).room
hand_over-HasHost id target s found = rw (room-forward_roles, room-forward_joins) found

transfer_to-HasHost :
    (id target_id : ℕ) (p : Option Player) (s : Session)
    → find (λ p. p.id == target_id) s.room.players ≡ p
    → HasHost s.room
    → HasHost (transfer_to id p s).1.room
transfer_to-HasHost id target_id none s e h = h
transfer_to-HasHost id target_id (some target) s e h =
    let (member, same) = member-find target_id s.room.players target e in
    let handed = hand_over-HasHost id target s (rw same member) in ground (arith, handed)

kick_of-HasHost :
    (target_id : ℕ) (p : Option Player) (s : Session)
    → HasHost s.room
    → HasHost (kick_of target_id p s).1.room
unfolding remove_player
kick_of-HasHost target_id none s h = h
kick_of-HasHost target_id (some p) s h = elim (Bool-cases (target_id == s.room.host_id)) [
  | inl e ↦ rw e h
  | inr e ↦ rw e (member-keep s.room.host_id target_id s.room.players (λ same. ground arith) ∙ h)
]

-- Whoever asks whatever, and whatever the answer is, the host of the room is still one of its
-- players.
pub answer-HasHost :
    (u : Unicode) (id : ℕ) (request : Request) (s : Session)
    → HasHost s.room
    → HasHost (answer u id request s).1.room
unfolding answer get_player
answer-HasHost u id ready s h = ground (arith, ready_of-HasHost id (get_player id s.room) s h)
answer-HasHost u id (profile name avatar) s h =
    ground (arith, profile_of-HasHost u id name avatar (get_player id s.room) s h)
answer-HasHost u id (settings d) s h = ground arith
answer-HasHost u id start s h =
    let opened =
      announce_game-HasHost (get_elem? (open_game s.room).players (open_game s.room).drawer_index)
        (record s { room = open_game s.room }) (open_game-HasHost s.room h) in
    ground (arith, opened)
answer-HasHost u id rematch s h =
    let kept = member-map s.room.host_id reset_player s.room.players (λ p. refl) in
    ground (arith, kept)
answer-HasHost u id (transfer target_id) s h =
    ground (arith, transfer_to-HasHost id target_id (get_player target_id s.room) s refl h)
answer-HasHost u id (kick target_id) s h =
    ground (arith, kick_of-HasHost target_id (get_player target_id s.room) s h)
