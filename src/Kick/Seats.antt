-- ===== src/Kick/Seats.antt =====
-- Who sits in a room after a turn that ends, and after a kick.
use skribbl_app.Prelude.{
  ℕ, ◌+◌, ◌*◌, ◌≡◌, refl, ◌∙◌, inl, inr, Bool-cases, Option, none, some, List, [], ◌∷◌, arith,
  get_elem?, ltb, leb, length,
}
use skribbl_app.Models.{
  TurnEndReason, timer_expired, all_guessed, drawer_disconnected, Player, TurnState, Room,
}
use skribbl_app.Models.Players.{NoneFalls, NoneFalls-refl}
use skribbl_app.GameOver.{build_game_over_payload, settle, settle_player}
use skribbl_app.Session.{Env, second, Session}
use skribbl_app.Turns.{
  Rotation, drawer_at, rounds_complete, nobody, out_of_range, active_count, start_turn,
  start_turn_of, start_countdown, end_game_insufficient_players, finish_game, follow, advance_from,
  advance_turn_or_round, at_turn,
}
use skribbl_app.EndTurn.{tally_for, close_turn, end_turn, end_turn_of}
use skribbl_app.EndTurn.Scores.{score_turn-NoneFalls}
use skribbl_app.Lobby.Host.{is_member, member-map}

-- The same host, and the same ids among the players.
pub record SameSeats (r t : Room) : Type 0 where
  pub host : t.host_id ≡ r.host_id
  pub members : (id : ℕ) → is_member id t.players ≡ is_member id r.players

pub SameSeats-trans : {a b c : Room} → SameSeats a b → SameSeats b c → SameSeats a c
SameSeats-trans h k = record { host = k.host ∙ h.host; members = λ id. k.members id ∙ h.members id }

pub same : (r : Room) → SameSeats r r
same r = record { host = refl; members = λ id. refl }

members-NoneFalls :
    (id : ℕ) (before after : List Player)
    → NoneFalls before after
    → is_member id after ≡ is_member id before
members-NoneFalls id [] [] h = refl
members-NoneFalls id [] (q ∷ after) h = absurd h
members-NoneFalls id (p ∷ before) [] h = absurd h
members-NoneFalls id (p ∷ before) (q ∷ after) h =
    rw (h.0, members-NoneFalls id before after h.2) refl

tally-NoneFalls :
    (reason : TurnEndReason) (now duration : ℕ) (turn : TurnState) (players : List Player)
    → NoneFalls players (tally_for reason now duration turn players).players
tally-NoneFalls timer_expired now duration turn players =
    score_turn-NoneFalls now duration turn players
tally-NoneFalls all_guessed now duration turn players =
    score_turn-NoneFalls now duration turn players
tally-NoneFalls drawer_disconnected now duration turn players = NoneFalls-refl players

moved : (index round : ℕ) {r t : Room} → SameSeats (at_turn index round r) t → SameSeats r t
moved index round h = record { host = h.host; members = h.members }

module _ (env : Env) where
  close_turn-SameSeats :
      (reason : TurnEndReason) (turn : TurnState) (s : Session)
      → SameSeats s.room (close_turn env reason turn s).room
  close_turn-SameSeats reason turn s = record {
    host = refl;
    members = λ id.
        members-NoneFalls id s.room.players _ (
          tally-NoneFalls reason env.now (s.room.config.turn_duration * second) turn
            s.room.players);
  }

  pub start_turn_of-SameSeats :
      (drawer : Option Player) (s : Session) → SameSeats s.room (start_turn_of env drawer s).room
  start_turn_of-SameSeats none s = same s.room
  start_turn_of-SameSeats (some drawer) s = record { host = refl; members = λ id. refl }

  id-settle_player : (top : ℕ) (p : Player) → (settle_player top p).id ≡ p.id
  id-settle_player top p = ground arith

  finish_game-SameSeats : (s : Session) → SameSeats s.room (finish_game s).room
  unfolding finish_game build_game_over_payload settle
  finish_game-SameSeats s = record {
    host = refl;
    members = λ id. member-map id _ s.room.players (id-settle_player _);
  }

  follow-SameSeats : (found : Rotation) (s : Session) → SameSeats s.room (follow env found s).room
  unfolding start_turn
  follow-SameSeats (drawer_at index round) s = moved index round (
      start_turn_of-SameSeats (get_elem? s.room.players index)
        (record s { room = at_turn index round s.room }))
  follow-SameSeats (rounds_complete index round) s =
      moved index round (finish_game-SameSeats (record s { room = at_turn index round s.room }))
  follow-SameSeats (nobody index round) s =
      moved index round (finish_game-SameSeats (record s { room = at_turn index round s.room }))
  follow-SameSeats (out_of_range index round) s = record { host = refl; members = λ id. refl }

  advance_from-SameSeats :
      (index round : ℕ) (s : Session) → SameSeats s.room (advance_from env index round s).room
  advance_from-SameSeats index round s = elim (Bool-cases (ltb s.room.config.num_rounds round)) [
    | inl e ↦ rw e (follow-SameSeats (rounds_complete index round) s)
    | inr e ↦ rw e (follow-SameSeats _ s)
  ]

  countdown-SameSeats :
      (task : Option ℕ) (s : Session) → SameSeats s.room (start_countdown env task s).room
  countdown-SameSeats none s = record { host = refl; members = λ id. refl }
  countdown-SameSeats (some task) s = same s.room

  pub countdown_of_room-SameSeats :
      (s : Session) → SameSeats s.room (end_game_insufficient_players env s).room
  unfolding end_game_insufficient_players
  countdown_of_room-SameSeats s = countdown-SameSeats s.room.insufficient_players_task s

  advance-SameSeats : (s : Session) → SameSeats s.room (advance_turn_or_round env s).room
  unfolding advance_turn_or_round
  advance-SameSeats s = elim (Bool-cases (ltb (active_count s.room) 2)) [
    | inl e ↦ rw e (countdown_of_room-SameSeats s)
    | inr e ↦ elim (Bool-cases (leb (length s.room.players) (s.room.drawer_index + 1))) [
      | inl f ↦ rw (e, f) (advance_from-SameSeats 0 (s.room.current_round + 1) s)
      | inr f ↦ rw (e, f) (advance_from-SameSeats (s.room.drawer_index + 1) s.room.current_round s)
    ]
  ]

  end_turn_of-SameSeats :
      (reason : TurnEndReason) (turn : Option TurnState) (s : Session)
      → SameSeats s.room (end_turn_of env reason turn s).room
  end_turn_of-SameSeats reason none s = same s.room
  end_turn_of-SameSeats reason (some turn) s =
      SameSeats-trans (close_turn-SameSeats reason turn s)
        (advance-SameSeats (close_turn env reason turn s))

  -- The end of a turn, with all that comes after it, takes nobody from the room and leaves the
  -- host as it is.
  pub end_turn-SameSeats :
      (reason : TurnEndReason) (s : Session) → SameSeats s.room (end_turn env reason s).room
  unfolding end_turn
  end_turn-SameSeats reason s = end_turn_of-SameSeats reason s.room.turn s
