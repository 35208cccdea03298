-- ===== src/Kick/Outcome.antt =====
-- What a kick by vote does to the seats of a room.
use skribbl_app.Prelude.{
  ℕ, ◌≤◌, ◌≡◌, ◌≢◌, refl, ap, ◌∙◌, inl, inr, Bool, true, false, Bool-cases, not, ◌&&◌, Option, none,
  some, List, [], ◌∷◌, arith, ◌==◌, keep, ltb, count_if, if◌then◌else◌, ==_iff,
}
use skribbl_app.Models.{
  all_guessed, drawer_disconnected, Player, TurnState, Room, remove_player, is_active,
}
use skribbl_app.Session.{Env, Session}
use skribbl_app.Turns.{active_count}
use skribbl_app.EndTurn.{end_turn}
use skribbl_app.Guess.{all_have_guessed, active_turn}
use skribbl_app.Lobby.Host.{is_member, HasHost, member-keep}
use skribbl_app.Lobby.Leaving.{member-first}
use skribbl_app.Kick.{
  first_of, next_host, unseat, announce_kick, drew, in_game, end_if_guessed, settle_game,
  execute_kick,
}
use skribbl_app.Kick.Seats.{SameSeats, end_turn-SameSeats, countdown_of_room-SameSeats}

-- A player is out of a room: everybody else is where they were, and the host is one of them, the
-- same as before if that was not the player.
pub record Unseated (id : ℕ) (r t : Room) : Type 0 where
  pub gone : is_member id t.players ≡ false
  pub others : (j : ℕ) → j ≢ id → is_member j t.players ≡ is_member j r.players
  pub host : HasHost t
  pub host_stays : r.host_id ≢ id → t.host_id ≡ r.host_id

pub Unseated-SameSeats : (id : ℕ) {a b c : Room} → Unseated id a b → SameSeats b c → Unseated id a c
Unseated-SameSeats id {a} {b} {c} u k = record {
  gone = k.members id ∙ u.gone;
  others = λ j other. k.members j ∙ u.others j other;
  host = ap (λ h. is_member h c.players) k.host ∙ k.members b.host_id ∙ u.host;
  host_stays = λ other. k.host ∙ u.host_stays other;
}

pub member-keep_self :
    (id : ℕ) (players : List Player) → is_member id (keep (λ p. not (p.id == id)) players) ≡ false
member-keep_self id [] = refl
member-keep_self id (p ∷ players) = ground (arith, member-keep_self id players)

-- The connected players but one.
abbrev pub others_online : ℕ → List Player → ℕ
others_online id players = count_if (λ p. p.is_connected && not (p.id == id)) players

nobody_online :
    (id : ℕ) (players : List Player)
    → keep (λ p. p.is_connected) (keep (λ p. not (p.id == id)) players) ≡ []
    → others_online id players ≡ 0
nobody_online id [] e = refl
nobody_online id (p ∷ players) e = ground (arith, nobody_online id players)

pub first_of_lem :
    (able online players : List Player)
    → ((q : Player) (rest : List Player) → able ≡ q ∷ rest → is_member q.id players ≡ true)
    → ((q : Player) (rest : List Player) → online ≡ q ∷ rest → is_member q.id players ≡ true)
    → online ≢ []
    → (q : Player) × (first_of able online ≡ some q) × (is_member q.id players ≡ true)
first_of_lem (q ∷ able) online players h k some_online = (q, refl, h q able refl)
first_of_lem [] (q ∷ online) players h k some_online = (q, refl, k q online refl)
first_of_lem [] [] players h k some_online = absurd (some_online refl)

next_host_lem :
    (id : ℕ) (players : List Player)
    → 1 ≤ others_online id players
    → (q : Player) × (next_host (keep (λ p. not (p.id == id)) players) ≡ some q)
      × (is_member q.id (keep (λ p. not (p.id == id)) players) ≡ true)
next_host_lem id players h =
    first_of_lem _ _ _ (member-first is_active _) (member-first (λ p. p.is_connected) _)
      (λ e. omega (arith, h, nobody_online id players e))

unseat-Unseated :
    (target : Player) (s : Session)
    → HasHost s.room
    → 1 ≤ others_online target.id s.room.players
    → Unseated target.id s.room (unseat target s).room
unfolding remove_player
unseat-Unseated target s h online =
    let (q, chosen, member) = next_host_lem target.id s.room.players online in
    elim (Bool-cases (s.room.host_id == target.id)) [
      | inl e ↦
          rw (e, chosen)
            (record {
              gone = member-keep_self target.id s.room.players;
              others = λ j other. member-keep j target.id s.room.players other;
              host = member;
              host_stays = λ other. absurd (other ((==_iff s.room.host_id target.id).0 e));
            })
      | inr e ↦ rw e (record {
        gone = member-keep_self target.id s.room.players;
        others = λ j other. member-keep j target.id s.room.players other;
        host = member-keep s.room.host_id target.id s.room.players (λ is. ground arith) ∙ h;
        host_stays = λ _. refl;
      })
    ]

module _ (env : Env) where
  end_if_guessed-SameSeats :
      (turn : Option TurnState) (s : Session) → SameSeats s.room (end_if_guessed env turn s).room
  end_if_guessed-SameSeats none s = record { host = refl; members = λ id. refl }
  end_if_guessed-SameSeats (some turn) s =
      elim (Bool-cases (all_have_guessed turn.drawer_id s.room.players)) [
        | inl e ↦ rw e (end_turn-SameSeats env all_guessed s)
        | inr e ↦ rw e (record { host = refl; members = λ id. refl })
      ]

  settle_game-SameSeats :
      (was_drawer : Bool) (s : Session) → SameSeats s.room (settle_game env was_drawer s).room
  settle_game-SameSeats was_drawer s = elim (Bool-cases (in_game s.room)) [
    | inr e ↦ rw e (record { host = refl; members = λ id. refl })
    | inl e ↦ elim (Bool-cases (ltb (active_count s.room) 2)) [
      | inl f ↦ rw (e, f) (countdown_of_room-SameSeats env s)
      | inr f ↦ rw (e, f) (unless was_drawer)
    ]
  ]
    where
      unless :
          (b : Bool)
          → SameSeats s.room (if b then s else end_if_guessed env (active_turn s.room) s).room
      unless true = record { host = refl; members = λ id. refl }
      unless false = end_if_guessed-SameSeats (active_turn s.room) s

  -- In a room whose host is one of its players, and where somebody else than the target is
  -- connected, a vote that passes puts exactly the target out of the room, whatever the game
  -- does then. The host is one of those who stay: the same one, unless it was the target.
  pub execute_kick-Unseated :
      (target : Player) (s : Session)
      → HasHost s.room
      → 1 ≤ others_online target.id s.room.players
      → Unseated target.id s.room (execute_kick env target s).room
  unfolding execute_kick
  execute_kick-Unseated target s h online = by_drawer (drew target.id s.room.turn)
    where
      announced : Session
      announced = announce_kick target (unseat target s)

      out : Unseated target.id s.room announced.room
      out = unseat-Unseated target s h online

      by_drawer :
          (b : Bool)
          → Unseated target.id s.room
              (settle_game env b
                (if b then end_turn env drawer_disconnected announced else announced)).room
      by_drawer true =
          Unseated-SameSeats target.id
            (Unseated-SameSeats target.id out
              (end_turn-SameSeats env drawer_disconnected announced))
            (settle_game-SameSeats true (end_turn env drawer_disconnected announced))
      by_drawer false = Unseated-SameSeats target.id out (settle_game-SameSeats false announced)
