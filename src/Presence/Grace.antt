-- ===== src/Presence/Grace.antt =====
-- What the tasks that wait for a player do when they wake up.
use skribbl_app.Prelude.{
  ℕ, ◌≤◌, ◌≡◌, refl, ◌∙◌, inl, inr, true, Bool-cases, not, ◌&&◌, Option, none, some, List, [], ◌∷◌,
  arith, ◌==◌, keep, ltb, count_if, ==_iff,
}
use skribbl_app.Models.{Player, Room, remove_player}
use skribbl_app.Session.{Env, Session, set_room}
use skribbl_app.Lobby.{tell_players}
use skribbl_app.Turns.{connected_count}
use skribbl_app.Lobby.Members.{heir, crown}
use skribbl_app.Lobby.Host.{is_member, HasHost, member-keep}
use skribbl_app.Lobby.Leaving.{heir_lem}
use skribbl_app.Kick.{in_game}
use skribbl_app.Kick.Seats.{SameSeats, countdown_of_room-SameSeats}
use skribbl_app.Kick.Outcome.{Unseated, Unseated-SameSeats, others_online, member-keep_self}
use skribbl_app.Presence.{Hall, room_of}
use skribbl_app.Presence.Return.{end_if_few, permanently_remove}

-- A player is removed for good: the room is deleted if nobody else is connected, else only the
-- player is out of it.
abbrev pub Removed : ℕ → Room → Option Hall → Type 0
Removed id r none = others_online id r.players ≡ 0
Removed id r (some h) = (1 ≤ others_online id r.players) × Unseated id r (room_of h)

count_if-keep :
    (id : ℕ) (players : List Player)
    → count_if (λ p. p.is_connected) (keep (λ p. not (p.id == id)) players)
      ≡ others_online id players
count_if-keep id [] = refl
count_if-keep id (p ∷ players) = ground (arith, count_if-keep id players)

heir_exists :
    (players : List Player)
    → 1 ≤ count_if (λ p. p.is_connected) players
    → (q : Player) × (heir players ≡ some q) × (is_member q.id players ≡ true)
heir_exists [] h = absurd (omega arith)
heir_exists (p ∷ players) h = heir_lem p players

end_if_few-SameSeats : (env : Env) (s : Session) → SameSeats s.room (end_if_few env s).room
end_if_few-SameSeats env s = elim (Bool-cases (in_game s.room && ltb (connected_count s.room) 2)) [
  | inl e ↦ rw e (countdown_of_room-SameSeats env s)
  | inr e ↦ rw e (record { host = refl; members = λ id. refl })
]

few-Unseated :
    (env : Env) (id : ℕ) (r : Room) (s : Session)
    → Unseated id r s.room
    → Unseated id r (end_if_few env s).room
few-Unseated env id r s u = Unseated-SameSeats id u (end_if_few-SameSeats env s)

-- In a room whose host is one of its players, the clean-up of a player deletes the room exactly
-- if nobody else in it is connected; otherwise everybody else is still in the room, and the host
-- is one of them, the same as before if that was not the player.
pub permanently_remove-Removed :
    (env : Env) (id : ℕ) (h : Hall)
    → HasHost (room_of h)
    → Removed id (room_of h) (permanently_remove env id h)
unfolding permanently_remove remove_player
permanently_remove-Removed env id h host =
    let r = room_of h in
    let removed : Session = set_room (remove_player id) h.ballot.session in
    let count = count_if-keep id r.players in
    elim (Bool-cases
      (ltb (count_if (λ p. p.is_connected) (keep (λ p. not (p.id == id)) r.players)) 1)) [
        | inl e ↦ rw e (ground arith)
        | inr e ↦
            let online : 1
                ≤ count_if (λ p. p.is_connected) (keep (λ p. not (p.id == id)) r.players) =
              ground arith in
            let (q, chosen, member) = heir_exists (keep (λ p. not (p.id == id)) r.players) online in
            elim (Bool-cases (r.host_id == id)) [
              | inl was ↦
                  rw (e, was, chosen)
                    (
                      omega (arith, online, count),
                      few-Unseated env id r (tell_players (crown (some q) removed)) (record {
                        gone = member-keep_self id r.players;
                        others = λ j other. member-keep j id r.players other;
                        host = member;
                        host_stays = λ other. absurd (other ((==_iff r.host_id id).0 was));
                      }),
                    )
              | inr stays ↦
                  rw (e, stays)
                    (
                      omega (arith, online, count),
                      few-Unseated env id r (tell_players removed) (record {
                        gone = member-keep_self id r.players;
                        others = λ j other. member-keep j id r.players other;
                        host = member-keep r.host_id id r.players (λ is. ground arith) ∙ host;
                        host_stays = λ _. refl;
                      }),
                    )
            ]
      ]
