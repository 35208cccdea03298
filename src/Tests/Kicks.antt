-- ===== src/Tests/Kicks.antt =====
-- Tests of the votes to kick a player.
use skribbl_app.Prelude.{◌≡◌, ◌↔◌, refl, true, false, some, [], ◌∷◌, arith}
use skribbl_app.Text.{codes}
use skribbl_app.Session.{Env, Session}
use skribbl_app.Kick.{execute_kick}
use skribbl_app.Kick.Outcome.{Unseated, execute_kick-Unseated}
use skribbl_app.Votes.{VoteKick, Ballot, passed, cast_vote_kick, fire_timer}
use skribbl_app.Votes.Rules.{BallotOk, Carries, cast_vote_kick_passes}
use skribbl_app.Presence.{Hall}
use skribbl_app.Presence.Ballots.{loss, happen, HallOk, happen-HallOk}
use skribbl_app.Votes.Retry.{Pause, start_vote_kick-fire_timer}
use skribbl_app.Tests.Samples.{alice, bob, carol, watcher, env, playing_session}

abbrev four : Session
four = playing_session (alice ∷ bob ∷ carol ∷ watcher ∷ [])

-- The drawer, who is the host, is kicked.
execute_kick-Unseated_example : Unseated 1 four.room (execute_kick env alice four).room
execute_kick-Unseated_example = execute_kick-Unseated env alice four refl (omega arith)

-- Bob wants carol out, and dave votes now.
abbrev against_carol : VoteKick
against_carol = record {
  target_id = 3;
  target_name = codes "carol";
  initiator_id = 2;
  initiator_name = codes "bob";
  votes = 2 ∷ [];
  timeout_task = 7;
}

abbrev ballot : Ballot
ballot = record {
  session = four;
  vote_kick = some against_carol;
  cooldowns = [];
  timers = record { id = 7; target_id = 3; due = 70_000_000 } ∷ [];
  next_timer = 8;
}

ballot-BallotOk : BallotOk ballot
ballot-BallotOk = (record { target_out = refl; no_double = (refl, tt) }, 70_000_000, refl)

cast_vote_kick_passes_example :
    ((cast_vote_kick env 4 true ballot).0 ≡ passed) ↔ Carries 4 true ballot (some against_carol)
cast_vote_kick_passes_example = cast_vote_kick_passes env 4 true ballot ballot-BallotOk

abbrev voting_hall : Hall
voting_hall = record { ballot = ballot; waits = []; next_wait = 1 }

-- Bob, whose vote runs, loses the connection.
happen-HallOk_example : HallOk (happen env (loss 2) voting_hall)
happen-HallOk_example = happen-HallOk env (loss 2) voting_hall ballot-BallotOk

abbrev soon : Env
soon = record env { now = 60_000_000 }

start_vote_kick-fire_timer_example : Pause soon 1 3 (fire_timer env 7 ballot)
start_vote_kick-fire_timer_example =
    start_vote_kick-fire_timer env soon 1 against_carol ballot ballot-BallotOk refl (omega arith)

-- Votes of players who have gone still count: with dave gone, bob's vote no passes the vote of dave
-- and alice.
abbrev stale : Ballot
stale = record ballot {
  session = playing_session (bob ∷ carol ∷ alice ∷ []);
  vote_kick = some (record against_carol { votes = 4 ∷ 1 ∷ [] });
}

no_passes : (cast_vote_kick env 2 false stale).0 ≡ passed
unfolding cast_vote_kick
no_passes = refl
