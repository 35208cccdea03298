-- ===== src/Presence/Succession.antt =====
-- A room whose host does not come back gets another host who is connected.
use skribbl_app.Prelude.{
  ℕ, ◌≤◌, ◌≡◌, ◌≢◌, refl, ap, ◌∙◌, inl, inr, Bool, true, Bool-cases, ◌&&◌, Option, none, some, List,
  [], ◌∷◌, arith, ◌==◌, any, find, keep, count_if, ==_iff,
}
use skribbl_app.Models.{Player, Room, get_player, is_active}
use skribbl_app.Session.{Session}
use skribbl_app.Turns.{connected_count}
use skribbl_app.Lobby.Host.{room-forward_joins, room-forward_roles}
use skribbl_app.Kick.{next_host, first_of}
use skribbl_app.Presence.{Hall, room_of}
use skribbl_app.Presence.Return.{still_here, hand_on, reassign_host}

abbrev pub is_online : ℕ → List Player → Bool
is_online id players = any (λ p. (p.id == id) && p.is_connected) players

abbrev pub HostOnline : Room → Type 0
HostOnline r = is_online r.host_id r.players ≡ true

online-find :
    (id : ℕ) (players : List Player) (p : Player)
    → find (λ p. p.id == id) players ≡ some p
    → p.is_connected ≡ true
    → is_online id players ≡ true
online-find id [] p e c = absurd (cc)
online-find id (q ∷ players) p e c = elim (Bool-cases (q.id == id)) [
  | inl same ↦ ground arith
  | inr other ↦ ground (arith, online-find id players p)
]

online-first :
    (pred : Player → Bool) (players : List Player) (q : Player) (rest : List Player)
    → ((p : Player) → pred p ≡ true → p.is_connected ≡ true)
    → keep pred players ≡ q ∷ rest
    → is_online q.id players ≡ true
online-first pred [] q rest imp e = absurd (cc)
online-first pred (p ∷ players) q rest imp e = elim (Bool-cases (pred p)) [
  | inl h ↦ ground (arith, imp p h)
  | inr h ↦ ground (arith, online-first pred players q rest imp)
]

nobody_connected :
    (players : List Player)
    → keep (λ p. p.is_connected) players ≡ []
    → count_if (λ p. p.is_connected) players ≡ 0
nobody_connected [] e = refl
nobody_connected (p ∷ players) e = ground (arith, nobody_connected players)

first_online :
    (able online players : List Player)
    → ((q : Player) (rest : List Player) → able ≡ q ∷ rest → is_online q.id players ≡ true)
    → ((q : Player) (rest : List Player) → online ≡ q ∷ rest → is_online q.id players ≡ true)
    → online ≢ []
    → (q : Player) × (first_of able online ≡ some q) × (is_online q.id players ≡ true)
first_online (q ∷ able) online players h k some_online = (q, refl, h q able refl)
first_online [] (q ∷ online) players h k some_online = (q, refl, k q online refl)
first_online [] [] players h k some_online = absurd (some_online refl)

next_host_online :
    (players : List Player)
    → 1 ≤ count_if (λ p. p.is_connected) players
    → (q : Player) × (next_host players ≡ some q) × (is_online q.id players ≡ true)
next_host_online players h =
    first_online _ _ players (λ q rest. online-first is_active players q rest (λ p e. ground arith))
      (λ q rest. online-first (λ p. p.is_connected) players q rest (λ p e. e))
      (λ e. omega (arith, h, nobody_connected players e))

hand_on-HostOnline :
    (p : Player) (s : Session)
    → is_online p.id s.room.players ≡ true
    → HostOnline (hand_on p s).room
hand_on-HostOnline p s h = rw (room-forward_roles, room-forward_joins) h

still_here-HostOnline :
    (o : Option Player) (id : ℕ) (players : List Player)
    → find (λ p. p.id == id) players ≡ o
    → still_here o ≡ true
    → is_online id players ≡ true
still_here-HostOnline none id players e h = absurd (cc)
still_here-HostOnline (some p) id players e h = online-find id players p e h

-- The task that waits for a host wakes up, the player is still the host, and somebody is
-- connected: then the room is not deleted, and its host is connected, be it the one who has come
-- back or another.
pub reassign_host-HostOnline :
    (id : ℕ) (h : Hall)
    → (room_of h).host_id ≡ id
    → 1 ≤ connected_count (room_of h)
    → (after : Hall) × (reassign_host id h ≡ some after) × HostOnline (room_of after)
unfolding reassign_host get_player
reassign_host-HostOnline id h host online =
    let is_host : ((room_of h).host_id == id) ≡ true = (==_iff (room_of h).host_id id).1 host in
    let (q, chosen, member) = next_host_online (room_of h).players online in
    elim (Bool-cases (still_here (find (λ p. p.id == id) (room_of h).players))) [
      | inl e ↦
          rw (is_host, e)
            (
              h,
              refl,
              ap (λ i. is_online i (room_of h).players) host
                  ∙ still_here-HostOnline _ id (room_of h).players refl e,
            )
      | inr e ↦ rw (is_host, e, chosen) (_, refl, hand_on-HostOnline q h.ballot.session member)
    ]
