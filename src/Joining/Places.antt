-- ===== src/Joining/Places.antt =====
-- The places of a room, as visitors and players who are accepted take them.
use skribbl_app.Prelude.{
  ℕ, ◌+◌, ◌≤◌, min, max, ◌≡◌, refl, inl, inr, Bool, true, false, Bool-cases, Option-cases, not,
  Option, none, some, List, [], ◌∷◌, ◌++◌, arith, count_if,
}
use skribbl_app.Models.{Player, new_player, Room, get_player, add_player}
use skribbl_app.Models.Players.{count_if-modify}
use skribbl_app.Session.{Env, Session}
use skribbl_app.Joining.{
  PendingJoin, Door, Visitor, player_count, spectator_count, max_players_hard_cap, max_spectators,
  players_full, spectators_full, admit, take_seat, seat, ask_host, reachable, file_join,
}
use skribbl_app.Joining.Requests.{
  forget_join, expire_join, cancel_join, Action, accept_player, accept_spectator, decline,
  end_countdown, seat_join, act_on_join, respond_to, close_join,
}
use skribbl_app.Joining.Roles.{
  find_role, forget_role, store_role, file_role, become_player_of, count_request, expire_request,
  notify_host,
}

-- A room that is no fuller than another, or within the limits.
pub record Fits (before after : Room) : Type 0 where
  pub players :
      player_count after
      ≤ max (player_count before) (min before.config.max_players max_players_hard_cap)
  pub spectators : spectator_count after ≤ max (spectator_count before) max_spectators

count_if-snoc :
    (t : Player → Bool) (players : List Player) (p : Player)
    → count_if t (players ++ p ∷ []) ≡ count_if t players + count_if t (p ∷ [])
count_if-snoc t [] p = omega arith
count_if-snoc t (q ∷ players) p = ground (arith, count_if-snoc t players p)

-- A new player where there is a place for one.
pub add_player-Fits :
    (p : Player) (r : Room)
    → (p.is_spectator ≡ false → players_full r ≡ false)
    → (p.is_spectator ≡ true → spectators_full r ≡ false)
    → Fits r (add_player p r)
unfolding add_player
add_player-Fits p r player spectator = record {
  players =
      let counted = count_if-snoc (λ q. not q.is_spectator) r.players p in
      elim (Bool-cases p.is_spectator) [
        | inl e ↦ ground arith
        | inr e ↦ let h = player e in ground arith
      ];
  spectators =
      let counted = count_if-snoc (λ q. q.is_spectator) r.players p in
      elim (Bool-cases p.is_spectator) [
        | inl e ↦ let h = spectator e in ground arith
        | inr e ↦ ground arith
      ];
}

-- The counts of the players are as before.
abbrev pub Counted : Room → Room → Type 0
Counted before after =
    (player_count after ≡ player_count before) × (spectator_count after ≡ spectator_count before)

module _ (before : Room) where
  pub Counted-Fits : (after : Room) → Counted before after → Fits before after
  Counted-Fits after h = record { players = omega (arith, h.0); spectators = omega (arith, h.1) }

pub room-notify_host :
    (request_id : ℕ) (p : Player) (host : Option Player) (s : Session)
    → (notify_host request_id p host s).room ≡ s.room
room-notify_host request_id p none s = refl
room-notify_host request_id p (some host) s = refl

module _ (env : Env) (d : Door) where
  -- The counts are as before in a door that has the same players.
  pub idle-Fits :
      (after : Room) → after.players ≡ d.session.room.players → Fits d.session.room after
  idle-Fits after e = Counted-Fits d.session.room after (rw e (refl, refl))

  take_seat-Fits :
      (v : Visitor)
      → (v.as_spectator ≡ false → players_full d.session.room ≡ false)
      → (v.as_spectator ≡ true → spectators_full d.session.room ≡ false)
      → Fits d.session.room (take_seat env v d).1.session.room
  unfolding take_seat seat
  take_seat-Fits v player spectator = add_player-Fits _ d.session.room player spectator

  ask_host-Fits :
      (v : Visitor) (host : Option Player)
      → Fits d.session.room (ask_host env v host d).1.session.room
  unfolding file_join
  ask_host-Fits v none = idle-Fits _ refl
  ask_host-Fits v (some host) = idle-Fits _ refl

  pub admit-Fits : (v : Visitor) → Fits d.session.room (admit env v d).1.session.room
  unfolding admit
  admit-Fits v =
      let same = idle-Fits d.session.room refl in
      let asked = ask_host-Fits v (reachable (get_player d.session.room.host_id d.session.room)) in
      let seated = take_seat-Fits v in grind (arith, same, asked, seated)

  pub players-end_countdown : (s : Session) → (end_countdown s).room.players ≡ s.room.players
  unfolding end_countdown
  players-end_countdown s = ground arith

  seat_join-Fits :
      (new_id : ℕ) (is_spectator : Bool) (req : PendingJoin)
      → (is_spectator ≡ false → players_full d.session.room ≡ false)
      → (is_spectator ≡ true → spectators_full d.session.room ≡ false)
      → Fits d.session.room (seat_join env new_id is_spectator req d).1.session.room
  unfolding seat_join seat forget_join add_player
  seat_join-Fits new_id is_spectator req player spectator =
      let added =
        add_player-Fits
          (new_player new_id req.request.name (some req.websocket) req.request.avatar is_spectator)
          d.session.room player spectator in
      let same =
        players-end_countdown
          (seat
            (new_player new_id req.request.name (some req.websocket) req.request.avatar
              is_spectator)
            req.websocket (close_join req d)).session in
      record { players = rw same added.players; spectators = rw same added.spectators }

  act_on_join-Fits :
      (new_id : ℕ) (action : Action) (req : PendingJoin)
      → Fits d.session.room (act_on_join env new_id action req d).1.session.room
  unfolding forget_join
  act_on_join-Fits new_id decline req = idle-Fits _ refl
  act_on_join-Fits new_id accept_player req =
      let same = idle-Fits d.session.room refl in
      let seated = seat_join-Fits new_id false req in grind (arith, same, seated)
  act_on_join-Fits new_id accept_spectator req =
      let same = idle-Fits d.session.room refl in
      let seated = seat_join-Fits new_id true req in grind (arith, same, seated)

  pub respond_to-Fits :
      (host_player_id new_id : ℕ) (action : Action) (req : Option PendingJoin)
      → Fits d.session.room (respond_to env host_player_id new_id action req d).1.session.room
  respond_to-Fits host_player_id new_id action none = idle-Fits _ refl
  respond_to-Fits host_player_id new_id action (some req) =
      let same = idle-Fits d.session.room refl in
      let acted = act_on_join-Fits new_id action req in grind (arith, same, acted)

  pub expire_join-Fits :
      (req : Option PendingJoin) → Fits d.session.room (expire_join req d).session.room
  unfolding forget_join
  expire_join-Fits none = idle-Fits _ refl
  expire_join-Fits (some req) = idle-Fits _ refl

  pub cancel_join-Fits :
      (req : Option PendingJoin) → Fits d.session.room (cancel_join req d).session.room
  unfolding forget_join
  cancel_join-Fits none = idle-Fits _ refl
  cancel_join-Fits (some req) = idle-Fits _ refl

  pub expire_request-Fits :
      (request_id : ℕ) (p : Player)
      → Fits d.session.room (expire_request request_id p d).session.room
  unfolding expire_request forget_role
  expire_request-Fits request_id p = elim (Option-cases (find_role request_id d.roles)) [
    | inl e ↦ rw e (idle-Fits _ refl)
    | inr (req, e) ↦ rw e (idle-Fits _ refl)
  ]

  file_role-Fits :
      (request_id : ℕ) (p : Player)
      → Fits d.session.room (file_role env request_id p d).1.session.room
  unfolding file_role store_role
  file_role-Fits request_id p = rw (room-notify_host request_id p) (
      Counted-Fits _ _ (
        count_if-modify count_request (λ q. not q.is_spectator) p.id d.session.room.players
            (λ q. refl),
        count_if-modify count_request (λ q. q.is_spectator) p.id d.session.room.players (λ q. refl),
      ))

  pub become_player_of-Fits :
      (request_id : ℕ) (p : Option Player)
      → Fits d.session.room (become_player_of env request_id p d).1.session.room
  become_player_of-Fits request_id none = idle-Fits _ refl
  become_player_of-Fits request_id (some p) =
      let same = idle-Fits d.session.room refl in
      let filed = file_role-Fits request_id p in grind (arith, same, filed)
