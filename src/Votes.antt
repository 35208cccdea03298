-- ===== src/Votes.antt =====
-- backend/room_manager.py: the votes to kick a player, `start_vote_kick`, `cast_vote_kick`
-- and `_handle_vote_kick_timeout`, with the game engine as argument.
pub mod Rules
pub mod Timing
pub mod Retry
use skribbl_app.Prelude.{
  ℕ, ◌+◌, ◌*◌, ◌/◌, Bool, true, false, not, ◌&&◌, ◌||◌, Option, none, some, List, [], ◌∷◌, ◌++◌,
  keep, any, find, length, ltb, leb, count_if, ◌==◌, if◌then◌else◌,
}
use skribbl_app.Text.{Text, codes, show_nat}
use skribbl_app.Models.{Player, Room, get_player}
use skribbl_app.Session.{
  Env, second, vote_failed, Session, chat_message, vote_kick_started, vote_kick_updated,
  vote_kick_ended, broadcast,
}
use skribbl_app.Turns.{connected_count}
use skribbl_app.Kick.{ballot_box, execute_kick}

-- The set of votes is a list without doubles; the room code is the room's, and `created_at` is never
-- read.
pub record VoteKick : Type 0 where
  pub target_id : ℕ
  pub target_name : Text
  pub initiator_id : ℕ
  pub initiator_name : Text
  pub votes : List ℕ
  pub timeout_task : ℕ

-- A task of `_vote_timeout`.
pub record Timer : Type 0 where
  pub id : ℕ
  pub target_id : ℕ
  pub due : ℕ

-- A room with its entries of `_active_vote_kicks` and `_vote_kick_cooldowns`, and the timers that
-- are pending for it.
pub record Ballot : Type 0 where
  pub session : Session
  pub vote_kick : Option VoteKick
  pub cooldowns : List (ℕ × ℕ)
  pub timers : List Timer
  pub next_timer : ℕ

pub data VoteError : Type 0 where
  vote_already_active invalid_target player_not_found player_disconnected : VoteError
  not_enough_players cooldown_active no_active_vote invalid_voter : VoteError

pub data VoteReply : Type 0 where
  vote_error : VoteError → VoteReply
  started : (current_votes required_votes : ℕ) → VoteReply
  updated : (current_votes required_votes : ℕ) → VoteReply
  passed : VoteReply

-- `cooldowns.get(target_id, 0)`
abbrev pub cooldown_until : ℕ → List (ℕ × ℕ) → ℕ
cooldown_until id [] = 0
cooldown_until id ((j, until) ∷ cooldowns) =
    let later = cooldown_until id cooldowns in if j == id then until else later

-- `cooldowns[target_id] = until`; the newest entry is found first.
abbrev pub set_cooldown : ℕ → ℕ → List (ℕ × ℕ) → List (ℕ × ℕ)
set_cooldown id until cooldowns = (id, until) ∷ cooldowns

-- The connected players but the target.
abbrev pub voter_count : ℕ → Room → ℕ
voter_count target_id r = count_if (λ p. p.is_connected && not (p.id == target_id)) r.players

-- `(len(voters) // 2) + 1`
unfoldable pub required_votes : ℕ → ℕ
required_votes voters = voters / 2 + 1

abbrev pub has_vote : ℕ → List ℕ → Bool
has_vote id votes = any (λ j. j == id) votes

-- `votes.add(voter_id)` or `votes.discard(voter_id)`
unfoldable pub cast : ℕ → Bool → List ℕ → List ℕ
cast id true votes = if has_vote id votes then votes else votes ++ id ∷ []
cast id false votes = keep (λ j. not (j == id)) votes

abbrev pub name_or_player : Option Player → Text
name_or_player none = codes "Player"
name_or_player (some p) = p.name

-- The vote that begins, with the initiator's vote.
abbrev pub open_vote : Env → ℕ → Player → ℕ → Ballot → VoteReply × Ballot
open_vote env initiator_id target required b =
    let name = name_or_player (get_player initiator_id b.session.room) in
    let told =
      broadcast (vote_kick_started target.id target.name initiator_id name 1 required) b.session in
    let text =
      ballot_box
      ++ name
      ++ codes " started a vote to kick "
      ++ target.name
      ++ codes " (1/"
      ++ show_nat required
      ++ codes " votes needed)." in
    (
      started 1 required,
      record b {
        session = broadcast (chat_message (codes "System") text true) told;
        vote_kick = some (record {
          target_id = target.id;
          target_name = target.name;
          initiator_id = initiator_id;
          initiator_name = name;
          votes = initiator_id ∷ [];
          timeout_task = b.next_timer;
        });
        timers =
            b.timers
            ++ record { id = b.next_timer; target_id = target.id; due = env.now + 30 * second }
              ∷ [];
        next_timer = b.next_timer + 1;
      },
    )

-- The target is found.
abbrev pub vote_against : Env → ℕ → Option Player → Ballot → VoteReply × Ballot
vote_against env initiator_id none b = (vote_error player_not_found, b)
vote_against env initiator_id (some target) b =
    let r = b.session.room in
    let required = required_votes (voter_count target.id r) in
    if not target.is_connected
    then (vote_error player_disconnected, b)
    else if ltb (connected_count r) 3
    then (vote_error not_enough_players, b)
    else if ltb env.now (cooldown_until target.id b.cooldowns)
    then (vote_error cooldown_active, b)
    else if leb required 1
    then (passed, record b { session = execute_kick env target b.session })
    else open_vote env initiator_id target required b

abbrev pub vote_unless : Env → ℕ → ℕ → Option VoteKick → Ballot → VoteReply × Ballot
vote_unless env initiator_id target_id (some v) b = (vote_error vote_already_active, b)
vote_unless env initiator_id target_id none b =
    if initiator_id == target_id
    then (vote_error invalid_target, b)
    else vote_against env initiator_id (get_player target_id b.session.room) b

unfoldable pub start_vote_kick : Env → ℕ → ℕ → Ballot → VoteReply × Ballot
unfolding get_player required_votes execute_kick
start_vote_kick env initiator_id target_id b = vote_unless env initiator_id target_id b.vote_kick b

abbrev pub kick_found : Env → Option Player → Session → Session
kick_found env none s = s
kick_found env (some target) s = execute_kick env target s

abbrev pub drop_timer : ℕ → List Timer → List Timer
drop_timer id timers = keep (λ t. not (t.id == id)) timers

-- The vote is over, with the votes that are enough.
abbrev pub pass_vote : Env → VoteKick → Ballot → VoteReply × Ballot
pass_vote env v b = (
  passed,
  record b {
    session = kick_found env (get_player v.target_id b.session.room) b.session;
    vote_kick = none;
    timers = drop_timer v.timeout_task b.timers;
  },
)

abbrev pub count_vote : Env → ℕ → Bool → VoteKick → Ballot → VoteReply × Ballot
count_vote env voter_id vote v b =
    let required = required_votes (voter_count v.target_id b.session.room) in
    let votes = cast voter_id vote v.votes in
    let session = broadcast (vote_kick_updated v.target_id (length votes) required) b.session in
    if leb required (length votes) then pass_vote env (record v { votes = votes }) b else (
      updated (length votes) required,
      record b { session = session; vote_kick = some (record v { votes = votes }) },
    )

abbrev pub voter_connected : Option Player → Bool
voter_connected none = false
voter_connected (some p) = p.is_connected

abbrev pub cast_on : Env → ℕ → Bool → Option VoteKick → Ballot → VoteReply × Ballot
cast_on env voter_id vote none b = (vote_error no_active_vote, b)
cast_on env voter_id vote (some v) b =
    if voter_id == v.target_id
    then (vote_error invalid_voter, b)
    else if not (voter_connected (get_player voter_id b.session.room))
    then (vote_error player_not_found, b)
    else count_vote env voter_id vote v b

unfoldable pub cast_vote_kick : Env → ℕ → Bool → Ballot → VoteReply × Ballot
unfolding get_player required_votes cast execute_kick
cast_vote_kick env voter_id vote b = cast_on env voter_id vote b.vote_kick b

-- The vote on the target, if it is the active one, fails.
abbrev pub fail_vote : Env → ℕ → Option VoteKick → Ballot → Ballot
fail_vote env target_id none b = b
fail_vote env target_id (some v) b =
    let text = codes "Vote to kick " ++ v.target_name ++ codes " failed" in
    let ended =
      broadcast
        (vote_kick_ended target_id v.target_name vote_failed (text ++ codes " (timed out)."))
        b.session in
    let told =
      broadcast
        (chat_message (codes "System") (ballot_box ++ text ++ codes " (not enough votes).") true)
        ended in
    if v.target_id == target_id
    then record b {
      session = told;
      vote_kick = none;
      cooldowns = set_cooldown target_id (env.now + 30 * second) b.cooldowns;
    }
    else b

-- `_vote_timeout` after its sleep
unfoldable pub handle_vote_kick_timeout : Env → ℕ → Ballot → Ballot
handle_vote_kick_timeout env target_id b = fail_vote env target_id b.vote_kick b

abbrev pub fire_found : Env → ℕ → Option Timer → Ballot → Ballot
fire_found env id none b = b
fire_found env id (some t) b =
    handle_vote_kick_timeout env t.target_id (record b { timers = drop_timer id b.timers })

-- A timer that is pending fires.
unfoldable pub fire_timer : Env → ℕ → Ballot → Ballot
unfolding handle_vote_kick_timeout
fire_timer env id b = fire_found env id (find (λ t. t.id == id) b.timers) b
