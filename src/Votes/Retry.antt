-- ===== src/Votes/Retry.antt =====
-- The pause after a vote that has failed.
use mathlib.Core.Path.{subst}
use skribbl_app.Prelude.{
  ℕ, ◌+◌, ◌*◌, ◌<◌, ◌≡◌, refl, sym, ap, ◌∙◌, inl, inr, true, Bool-cases, Option, none, some, [],
  arith, ◌==◌, find, ltb, ==_iff,
}
use skribbl_app.Models.{Player, get_player}
use skribbl_app.Session.{Env, second}
use skribbl_app.Turns.{connected_count}
use skribbl_app.Lobby.Host.{member-find}
use skribbl_app.Votes.{
  VoteKick, Ballot, VoteError, vote_error, invalid_target, cooldown_until, vote_against,
  vote_unless, start_vote_kick, fail_vote, fire_timer,
}
use skribbl_app.Votes.Timing.{fire_one}
use skribbl_app.Votes.Rules.{Timed, BallotOk}

refused_of :
    (env : Env) (initiator_id target_id : ℕ) (o : Option Player) (b : Ballot)
    → find (λ p. p.id == target_id) b.session.room.players ≡ o
    → env.now < cooldown_until target_id b.cooldowns
    → (error : VoteError) × (vote_against env initiator_id o b ≡ (vote_error error, b))
refused_of env initiator_id target_id none b e soon = (_, refl)
refused_of env initiator_id target_id (some target) b e soon =
    let same : target.id ≡ target_id = (member-find target_id b.session.room.players target e).1 in
    let paused : ltb env.now (cooldown_until target.id b.cooldowns) ≡ true =
      ap (λ i. ltb env.now (cooldown_until i b.cooldowns)) same ∙ ground arith in
    elim (Bool-cases target.is_connected) [
      | inr e1 ↦ rw e1 (_, refl)
      | inl e1 ↦ elim (Bool-cases (ltb (connected_count b.session.room) 3)) [
        | inl e2 ↦ rw (e1, e2) (_, refl)
        | inr e2 ↦ rw (e1, e2, paused) (_, refl)
      ]
    ]

-- A ballot without a vote on which no vote against a player can start.
abbrev pub Pause : Env → ℕ → ℕ → Ballot → Type 0
Pause later initiator_id target_id b =
    (b.vote_kick ≡ none)
    × (error : VoteError) × (start_vote_kick later initiator_id target_id b ≡ (vote_error error, b))

refused_unless :
    (env : Env) (initiator_id target_id : ℕ) (b : Ballot)
    → b.vote_kick ≡ none
    → env.now < cooldown_until target_id b.cooldowns
    → Pause env initiator_id target_id b
unfolding start_vote_kick get_player
refused_unless env initiator_id target_id b idle soon =
    elim (Bool-cases (initiator_id == target_id)) [
      | inl s ↦ (
        idle,
        invalid_target,
        ap (λ o. vote_unless env initiator_id target_id o b) idle ∙ rw s refl,
      )
      | inr s ↦
          let (error, is) = refused_of env initiator_id target_id _ b refl soon in
          (idle, error, ap (λ o. vote_unless env initiator_id target_id o b) idle ∙ rw s is)
    ]

failed-Pause :
    (env later : Env) (initiator_id target_id : ℕ) (v : VoteKick) (b : Ballot)
    → v.target_id ≡ target_id
    → later.now < env.now + 30 * second
    → Pause later initiator_id target_id (fail_vote env target_id (some v) b)
failed-Pause env later initiator_id target_id v b same soon =
    let here : (v.target_id == target_id) ≡ true = (==_iff v.target_id target_id).1 same in
    let self : (target_id == target_id) ≡ true = ground arith in
    rw here (refused_unless later initiator_id target_id _ refl (rw self soon))

-- Where the timer of the running vote is the only one that is pending: when it fires the vote is
-- over, and for 30 seconds nobody can start another one against the same player: whoever tries
-- gets an error, and nothing changes.
pub start_vote_kick-fire_timer :
    (env later : Env) (initiator_id : ℕ) (v : VoteKick) (b : Ballot)
    → BallotOk b
    → b.vote_kick ≡ some v
    → later.now < env.now + 30 * second
    → Pause later initiator_id v.target_id (fire_timer env v.timeout_task b)
unfolding fire_timer
start_vote_kick-fire_timer env later initiator_id v b ok e soon =
    let (votes, due, one) = subst (λ o. Timed o b.timers) e ok in
    subst (Pause later initiator_id v.target_id)
      (sym (fire_one env v.timeout_task v due b e one refl))
      (failed-Pause env later initiator_id v.target_id v (record b { timers = [] }) refl soon)
