-- ===== src/Votes/Timing.antt =====
-- A vote and its timer: at most one vote at a time, and an end to each.
use mathlib.Core.Path.{subst}
use skribbl_app.Prelude.{
  ℕ, ◌+◌, ◌*◌, ◌≡◌, ◌≢◌, refl, sym, ap, ◌∙◌, inl, inr, Bool, true, Bool-cases, Option, none, some,
  List, [], ◌∷◌, ◌++◌, arith, ◌==◌, length, find, ltb, leb, ==_iff,
}
use skribbl_app.Models.{Player, get_player}
use skribbl_app.Session.{Env, second}
use skribbl_app.Turns.{connected_count}
use skribbl_app.Lobby.Host.{member-find}
use skribbl_app.Votes.{
  VoteKick, Timer, Ballot, cooldown_until, voter_count, required_votes, cast, open_vote,
  vote_against, vote_unless, start_vote_kick, count_vote, voter_connected, cast_on, cast_vote_kick,
  fail_vote, handle_vote_kick_timeout, fire_found, fire_timer, drop_timer,
}
use skribbl_app.Votes.Rules.{Timed, BallotOk, cast-VotesOk}

-- What voters and timers do to the votes of a room.
pub data Act : Type 0 where
  begin : (initiator_id target_id : ℕ) → Act
  vote : (voter_id : ℕ) (in_favour : Bool) → Act
  fire : (timer : ℕ) → Act

unfoldable pub act : Env → Act → Ballot → Ballot
unfolding start_vote_kick cast_vote_kick fire_timer
act env (begin initiator_id target_id) b = (start_vote_kick env initiator_id target_id b).1
act env (vote voter_id in_favour) b = (cast_vote_kick env voter_id in_favour b).1
act env (fire timer) b = fire_timer env timer b

pub drop_timer_lem :
    (id target_id due : ℕ) (timers : List Timer)
    → timers ≡ record { id = id; target_id = target_id; due = due } ∷ []
    → drop_timer id timers ≡ []
drop_timer_lem id target_id due timers e = ap (drop_timer id) e ∙ ground arith

module _ (env : Env) where
  open_vote-BallotOk :
      (initiator_id : ℕ) (target : Player) (required : ℕ) (b : Ballot)
      → initiator_id ≢ target.id
      → b.timers ≡ []
      → BallotOk (open_vote env initiator_id target required b).1
  open_vote-BallotOk initiator_id target required b other e = (
    record { target_out = ground arith; no_double = (refl, tt) },
    env.now + 30 * second,
    ap
        (λ ts.
          ts
          ++ record { id = b.next_timer; target_id = target.id; due = env.now + 30 * second } ∷ [])
        e,
  )

  vote_against-BallotOk :
      (initiator_id target_id : ℕ) (o : Option Player) (b : Ballot)
      → find (λ p. p.id == target_id) b.session.room.players ≡ o
      → initiator_id ≢ target_id
      → b.vote_kick ≡ none
      → BallotOk b
      → BallotOk (vote_against env initiator_id o b).1
  vote_against-BallotOk initiator_id target_id none b e other idle ok = ok
  vote_against-BallotOk initiator_id target_id (some target) b e other idle ok =
      let same : target.id ≡ target_id =
        (member-find target_id b.session.room.players target e).1 in
      let empty : b.timers ≡ [] = subst (λ v. Timed v b.timers) idle ok in
      let opened =
        open_vote-BallotOk initiator_id target
          (required_votes (voter_count target.id b.session.room)) b (λ i. other (i ∙ same)) empty in
      elim (Bool-cases target.is_connected) [
        | inr e1 ↦ rw e1 ok
        | inl e1 ↦ elim (Bool-cases (ltb (connected_count b.session.room) 3)) [
          | inl e2 ↦ rw (e1, e2) ok
          | inr e2 ↦ elim (Bool-cases (ltb env.now (cooldown_until target.id b.cooldowns))) [
            | inl e3 ↦ rw (e1, e2, e3) ok
            | inr e3 ↦
                elim (Bool-cases (leb (required_votes (voter_count target.id b.session.room)) 1)) [
                  | inl e4 ↦ rw (e1, e2, e3, e4) ok
                  | inr e4 ↦ rw (e1, e2, e3, e4) opened
                ]
          ]
        ]
      ]

  vote_unless-BallotOk :
      (initiator_id target_id : ℕ) (o : Option VoteKick) (b : Ballot)
      → b.vote_kick ≡ o
      → BallotOk b
      → BallotOk (vote_unless env initiator_id target_id o b).1
  unfolding get_player
  vote_unless-BallotOk initiator_id target_id (some v) b e ok = ok
  vote_unless-BallotOk initiator_id target_id none b e ok =
      elim (Bool-cases (initiator_id == target_id)) [
        | inl s ↦ rw s ok
        | inr s ↦
            rw s (vote_against-BallotOk initiator_id target_id _ b refl (λ i. ground arith) e ok)
      ]

  count_vote-BallotOk :
      (id : ℕ) (in_favour : Bool) (v : VoteKick) (b : Ballot)
      → id ≢ v.target_id
      → Timed (some v) b.timers
      → BallotOk (count_vote env id in_favour v b).1
  count_vote-BallotOk id in_favour v b other ok =
      elim (Bool-cases (
        leb (required_votes (voter_count v.target_id b.session.room))
          (length (cast id in_favour v.votes)))) [
            | inl e ↦ rw e (drop_timer_lem v.timeout_task v.target_id ok.1 b.timers ok.2)
            | inr e ↦ rw e (cast-VotesOk id in_favour v other ok.0, ok.1, ok.2)
          ]

  cast_on-BallotOk :
      (id : ℕ) (in_favour : Bool) (o : Option VoteKick) (b : Ballot)
      → b.vote_kick ≡ o
      → BallotOk b
      → BallotOk (cast_on env id in_favour o b).1
  cast_on-BallotOk id in_favour none b e ok = ok
  cast_on-BallotOk id in_favour (some v) b e ok = elim (Bool-cases (id == v.target_id)) [
    | inl s ↦ rw s ok
    | inr s ↦ elim (Bool-cases (voter_connected (get_player id b.session.room))) [
      | inr c ↦ rw (s, c) ok
      | inl c ↦
          rw (s, c)
            (count_vote-BallotOk id in_favour v b (λ i. ground arith)
              (subst (λ o. Timed o b.timers) e ok))
    ]
  ]

  -- The only timer that is pending fires, or no timer of that name is.
  pub fire_one :
      (id : ℕ) (v : VoteKick) (due : ℕ) (b : Ballot)
      → b.vote_kick ≡ some v
      → b.timers ≡ record { id = v.timeout_task; target_id = v.target_id; due = due } ∷ []
      → v.timeout_task ≡ id
      → fire_found env id (find (λ t. t.id == id) b.timers) b
        ≡ fail_vote env v.target_id (some v) (record b { timers = [] })
  unfolding handle_vote_kick_timeout
  fire_one id v due b e one same =
      let here : (v.timeout_task == id) ≡ true = (==_iff v.timeout_task id).1 same in
      let found : find (λ t. t.id == id) b.timers
          ≡ some (record { id = v.timeout_task; target_id = v.target_id; due = due }) =
        ap (find (λ t. t.id == id)) one ∙ rw here refl in
      let dropped : drop_timer id b.timers ≡ [] = ap (drop_timer id) one ∙ rw here refl in
      rw found (
        ap (λ ts. fail_vote env v.target_id b.vote_kick (record b { timers = ts })) dropped
        ∙ ap (λ o. fail_vote env v.target_id o (record b { timers = [] })) e)

  failed-BallotOk :
      (target_id : ℕ) (v : VoteKick) (b : Ballot)
      → v.target_id ≡ target_id
      → b.timers ≡ []
      → BallotOk (fail_vote env target_id (some v) b)
  failed-BallotOk target_id v b same empty =
      let here : (v.target_id == target_id) ≡ true = (==_iff v.target_id target_id).1 same in
      rw here empty

  fire-BallotOk :
      (id : ℕ) (o : Option VoteKick) (b : Ballot)
      → b.vote_kick ≡ o
      → Timed o b.timers
      → BallotOk b
      → BallotOk (fire_found env id (find (λ t. t.id == id) b.timers) b)
  fire-BallotOk id none b e empty ok =
      let nothing : find (λ t. t.id == id) b.timers ≡ none = ap (find (λ t. t.id == id)) empty in
      rw nothing ok
  fire-BallotOk id (some v) b e (votes, due, one) ok = elim (Bool-cases (v.timeout_task == id)) [
    | inl s ↦
        subst BallotOk (sym (fire_one id v due b e one ((==_iff v.timeout_task id).0 s)))
          (failed-BallotOk v.target_id v (record b { timers = [] }) refl refl)
    | inr s ↦
        let nothing : find (λ t. t.id == id) b.timers ≡ none =
          ap (find (λ t. t.id == id)) one ∙ rw s refl in
        rw nothing ok
  ]

  -- Whether a vote begins, a vote is cast or a timer fires, it stays so that there is at most one vote,
  -- with one timer pending for it, and no timer when there is no vote, that nobody's vote counts twice,
  -- and that the target has none.
  pub act-BallotOk : (a : Act) (b : Ballot) → BallotOk b → BallotOk (act env a b)
  unfolding act
  act-BallotOk (begin initiator_id target_id) b ok =
      vote_unless-BallotOk initiator_id target_id b.vote_kick b refl ok
  act-BallotOk (vote voter_id in_favour) b ok =
      cast_on-BallotOk voter_id in_favour b.vote_kick b refl ok
  act-BallotOk (fire timer) b ok = fire-BallotOk timer b.vote_kick b refl ok ok
