-- ===== src/Lobby/Leaving.antt =====
-- A player leaves a room, `leave_room` and `remove_player`.
use skribbl_app.Prelude.{
  ℕ, ◌≡◌, ◌≢◌, refl, sym, ap, ◌∙◌, ◌⊎◌, inl, inr, Bool, true, false, Bool-cases, not, Option, none,
  some, List, [], ◌∷◌, arith, ◌==◌, keep, All, ==_iff,
}
use skribbl_app.Models.{Player, Room, lobby, state_eq, is_active}
use skribbl_app.Session.{Session}
use skribbl_app.Lobby.Members.{
  heir_from, heir, reassign_or_delete, remove_from_room, leave_of, leave_room,
}
use skribbl_app.Lobby.Host.{is_member, HasHost, member-keep}

-- A room that a player has left: it is deleted if there was nobody else; else everybody else is
-- still there in the same order, the host is one of them, and a host who stayed is the host still.
abbrev pub Left : ℕ → Room → Option Session → Type 0
Left id r none = All (λ p. p.id ≡ id) r.players
Left id r (some t) =
    (t.room.players ≡ keep (λ p. not (p.id == id)) r.players)
    × HasHost t.room
    × (r.host_id ≢ id → t.room.host_id ≡ r.host_id)

nobody_else :
    (id : ℕ) (players : List Player)
    → keep (λ p. not (p.id == id)) players ≡ []
    → All (λ p. p.id ≡ id) players
nobody_else id [] e = tt
nobody_else id (p ∷ players) e = elim (Bool-cases (p.id == id)) [
  | inl same ↦ ((==_iff p.id id).0 same, nobody_else id players (ground arith))
  | inr other ↦ ground arith
]

pub member-first :
    (pred : Player → Bool) (players : List Player) (q : Player) (rest : List Player)
    → keep pred players ≡ q ∷ rest
    → is_member q.id players ≡ true
member-first pred [] q rest e = absurd (cc)
member-first pred (p ∷ players) q rest e = ground (arith, member-first pred players q rest)

-- A room with players has somebody to be its host.
heir_of :
    (able online : List Player) (p : Player) (players : List Player)
    → ((q : Player) (rest : List Player) → able ≡ q ∷ rest → is_member q.id (p ∷ players) ≡ true)
    → ((q : Player) (rest : List Player) → online ≡ q ∷ rest → is_member q.id (p ∷ players) ≡ true)
    → (q : Player) × (heir_from able online (p ∷ players) ≡ some q)
      × (is_member q.id (p ∷ players) ≡ true)
heir_of (q ∷ able) online p players h k = (q, refl, h q able refl)
heir_of [] (q ∷ online) p players h k = (q, refl, k q online refl)
heir_of [] [] p players h k = (p, refl, ground arith)

pub heir_lem :
    (p : Player) (players : List Player)
    → (q : Player) × (heir (p ∷ players) ≡ some q) × (is_member q.id (p ∷ players) ≡ true)
heir_lem p players =
    heir_of _ _ p players (member-first is_active (p ∷ players))
      (member-first (λ p. p.is_connected) (p ∷ players))

reassign-Left :
    (id : ℕ) (s : Session) (players : List Player)
    → HasHost s.room
    → keep (λ p. not (p.id == id)) s.room.players ≡ players
    → Left id s.room
        (reassign_or_delete id players (record s { room = record s.room { players = players } }))
reassign-Left id s [] h e = nobody_else id s.room.players e
reassign-Left id s (p ∷ players) h e =
    let (q, chosen, member) = heir_lem p players in
    elim (Bool-cases (s.room.host_id == id)) [
      | inl was ↦ rw (was, chosen) (sym e, member, λ stayed. ground arith)
      | inr stays ↦ rw stays (
        sym e,
        sym (ap (is_member s.room.host_id) e)
            ∙ (member-keep s.room.host_id id s.room.players (λ same. ground arith) ∙ h),
        λ _. refl,
      )
    ]

-- From a room whose host is one of its players, `remove_player` of the manager keeps the others
-- and their order, and the host, or names another host of them if the host is the one removed; a
-- room where nobody is left is deleted.
pub remove_from_room-Left :
    (id : ℕ) (s : Session) → HasHost s.room → Left id s.room (remove_from_room id s)
unfolding remove_from_room
remove_from_room-Left id s h = reassign-Left id s _ h refl

leave_of-Left :
    (id : ℕ) (s : Session) (players : List Player)
    → HasHost s.room
    → keep (λ p. not (p.id == id)) s.room.players ≡ players
    → Left id s.room (leave_of id players (record s { room = record s.room { players = players } }))
leave_of-Left id s [] h e = nobody_else id s.room.players e
leave_of-Left id s (p ∷ players) h e = elim (Bool-cases (s.room.host_id == id)) [
  | inl was ↦ rw was (sym e, ground arith, λ stayed. ground arith)
  | inr stays ↦ rw stays (
    sym e,
    sym (ap (is_member s.room.host_id) e)
        ∙ (member-keep s.room.host_id id s.room.players (λ same. ground arith) ∙ h),
    λ _. refl,
  )
]

-- In a room whose host is one of its players, a player who leaves in the lobby leaves the others
-- in the room, with a host among them, or the room is deleted if there are none; outside the
-- lobby nobody leaves and the room stays as it is.
pub leave_room-Left :
    (id : ℕ) (s : Session)
    → HasHost s.room
    → ((state_eq s.room.state lobby ≡ true) × Left id s.room (leave_room id s).1)
      ⊎ ((state_eq s.room.state lobby ≡ false) × ((leave_room id s).1 ≡ some s))
unfolding leave_room
leave_room-Left id s h = elim (Bool-cases (state_eq s.room.state lobby)) [
  | inl e ↦ inl (e, rw e (leave_of-Left id s _ h refl))
  | inr e ↦ inr (e, rw e refl)
]
