-- ===== src/Presence/Ballots.antt =====
-- The votes of a room over everything that touches them, the loss of a player's connection included.
use mathlib.Core.Path.{subst}
use skribbl_app.Prelude.{
  ℕ, ◌≡◌, ◌≢◌, refl, sym, inl, inr, Bool-cases, false, Option, none, some, [], ◌∷◌, arith, ◌==◌,
  find, length, ltb, leb,
}
use skribbl_app.Models.{Player, get_player, modify_player}
use skribbl_app.Session.{Env}
use skribbl_app.Turns.{connected_count}
use skribbl_app.Votes.{VoteKick, Ballot, voter_count, required_votes, cast, drop_timer}
use skribbl_app.Votes.Rules.{BallotOk, Timed, cast-VotesOk}
use skribbl_app.Votes.Timing.{Act, act, act-BallotOk, drop_timer_lem}
use skribbl_app.Presence.{
  Hall, room_of, in_players, lose, recount, drop_voter, cancel_wait, await_host, between_games,
  disconnect_of, handle_disconnect,
}

-- A vote begins, a vote is cast, a timer fires, or a player loses the connection.
pub data Happening : Type 0 where
  voting : Act → Happening
  loss : (player_id : ℕ) → Happening

-- None where the room is deleted.
unfoldable pub happen : Env → Happening → Hall → Option Hall
unfolding act handle_disconnect
happen env (voting a) h = some (record h { ballot = act env a h.ballot })
happen env (loss player_id) h = handle_disconnect env player_id h

abbrev pub HallOk : Option Hall → Type 0
HallOk none = Unit
HallOk (some h) = BallotOk h.ballot

module _ (env : Env) where
  cancel_vote-BallotOk :
      (v : VoteKick) (due : ℕ) (b : Ballot)
      → b.timers ≡ record { id = v.timeout_task; target_id = v.target_id; due = due } ∷ []
      → drop_timer v.timeout_task b.timers ≡ []
  cancel_vote-BallotOk v due b one = drop_timer_lem v.timeout_task v.target_id due b.timers one

  recount-BallotOk :
      (v : VoteKick) (b : Ballot) → Timed (some v) b.timers → BallotOk (recount env v b)
  recount-BallotOk v b ok =
      let dropped = cancel_vote-BallotOk v ok.1 b ok.2 in
      elim (Bool-cases (ltb (voter_count v.target_id b.session.room) 2)) [
        | inl e ↦ rw e dropped
        | inr e ↦
            elim (Bool-cases
              (leb (required_votes (voter_count v.target_id b.session.room)) (length v.votes))) [
                | inl enough ↦ rw (e, enough) dropped
                | inr few ↦ rw (e, few) ok
              ]
      ]

  drop_voter-BallotOk :
      (id : ℕ) (o : Option VoteKick) (b : Ballot)
      → b.vote_kick ≡ o
      → Timed o b.timers
      → BallotOk b
      → BallotOk (drop_voter env id o b)
  drop_voter-BallotOk id none b e timed ok = ok
  drop_voter-BallotOk id (some v) b e (votes, due, one) ok = elim (Bool-cases (v.target_id == id)) [
    | inl s ↦ rw s (cancel_vote-BallotOk v due b one)
    | inr s ↦
        let other : id ≢ v.target_id = λ i. ground arith in
        rw s (
          recount-BallotOk (record v { votes = cast id false v.votes }) b
            (cast-VotesOk id false v other votes, due, one))
  ]

  ballot-cancel_wait : (o : Option ℕ) (h : Hall) → (cancel_wait o h).ballot ≡ h.ballot
  ballot-cancel_wait none h = refl
  ballot-cancel_wait (some id) h = refl

  ballot-await_host :
      (id : ℕ) (p : Option Player) (h : Hall)
      → BallotOk h.ballot
      → BallotOk (await_host env id p h).ballot
  ballot-await_host id none h ok = ok
  ballot-await_host id (some p) h ok =
      subst BallotOk (sym (ballot-cancel_wait p.host_reassign_task h)) ok

  disconnect_of-HallOk :
      (id : ℕ) (p : Option Player) (h : Hall)
      → BallotOk h.ballot
      → HallOk (disconnect_of env id p h)
  disconnect_of-HallOk id none h ok = ok
  disconnect_of-HallOk id (some player) h ok =
      let lost = in_players (modify_player id (lose env.now)) h in
      let ballot = drop_voter env id lost.ballot.vote_kick lost.ballot in
      let voted = record lost { ballot = ballot } in
      let voted_ok : BallotOk ballot =
        drop_voter-BallotOk id lost.ballot.vote_kick lost.ballot refl ok ok in
      let hosted_ok = ballot-await_host id (get_player id (room_of voted)) voted voted_ok in
      elim (Bool-cases ((room_of voted).host_id == id)) [
        | inr e ↦ rw e voted_ok
        | inl e ↦ elim (Bool-cases (leb 1 (connected_count (room_of voted)))) [
          | inl c ↦ rw (e, c) hosted_ok
          | inr c ↦ elim (Bool-cases (between_games (room_of voted))) [
            | inl g ↦ rw (e, c, g) tt
            | inr g ↦ rw (e, c, g) voted_ok
          ]
        ]
      ]

  -- Whatever happens to the votes of a room, a vote that begins or is cast, a timer that fires or a
  -- player who loses the connection, it stays so that there is at most one vote, with one timer pending
  -- for it, and no timer when there is no vote, that nobody's vote counts twice, and that the target
  -- has none, unless the room is deleted.
  pub happen-HallOk : (e : Happening) (h : Hall) → BallotOk h.ballot → HallOk (happen env e h)
  unfolding happen handle_disconnect
  happen-HallOk (voting a) h ok = act-BallotOk env a h.ballot ok
  happen-HallOk (loss id) h ok =
      disconnect_of-HallOk id (find (λ p. p.id == id) (room_of h).players) h ok
