-- ===== src/Dispatch/Doors.antt =====
-- The host of a room over the answers at its door and the votes to kick.
use skribbl_app.Prelude.{
  ℕ, ◌≤◌, ◌≡◌, ◌≢◌, refl, ap, ◌∙◌, inl, inr, Bool, true, false, Bool-cases, Option, none, some,
  List, [], ◌∷◌, ◌++◌, arith, find, ◌==◌,
}
use skribbl_app.Models.{Player, new_player, get_player, add_player}
use skribbl_app.Session.{Env, Session}
use skribbl_app.Lobby.Host.{HasHost, is_member, member-modify, member-find}
use skribbl_app.Kick.Outcome.{execute_kick-Unseated, others_online}
use skribbl_app.Votes.{
  Ballot, VoteKick, start_vote_kick, vote_unless, vote_against, cast_vote_kick, cast_on, count_vote,
  kick_found, voter_connected,
}
use skribbl_app.Joining.{PendingJoin, PendingRole, Door, seat}
use skribbl_app.Joining.Places.{players-end_countdown, room-notify_host}
use skribbl_app.Joining.Requests.{
  Action, accept_player, accept_spectator, decline, find_join, forget_join, close_join,
  end_countdown, seat_join, act_on_join, respond_to, respond_join_request,
}
use skribbl_app.Joining.Roles.{
  find_role, forget_role, close_role, store_role, file_role, count_request, become_player_of,
  request_become_player, to_player_role, answer_role, role_reply, respond_spectator_role_request,
  withdraw, asked_by, cancel_spectator_role_request,
}

member-append :
    (id : ℕ) (players : List Player) (p : Player)
    → is_member id players ≡ true
    → is_member id (players ++ p ∷ []) ≡ true
member-append id [] p h = absurd (cc)
member-append id (q ∷ players) p h = ground (arith, member-append id players p)

host-end_countdown : (s : Session) → (end_countdown s).room.host_id ≡ s.room.host_id
unfolding end_countdown
host-end_countdown s = ground arith

module _ (env : Env) (d : Door) (h : HasHost d.session.room) where
  seat_join-HasHost :
      (new_id : ℕ) (is_spectator : Bool) (req : PendingJoin)
      → HasHost (seat_join env new_id is_spectator req d).1.session.room
  unfolding seat_join seat add_player forget_join
  seat_join-HasHost new_id is_spectator req =
      let seated =
        (seat
          (new_player new_id req.request.name (some req.websocket) req.request.avatar is_spectator)
          req.websocket (close_join req d)).session in
      rw (host-end_countdown seated, players-end_countdown env d seated)
        (member-append d.session.room.host_id d.session.room.players _ h)

  act_on_join-HasHost :
      (new_id : ℕ) (action : Action) (req : PendingJoin)
      → HasHost (act_on_join env new_id action req d).1.session.room
  unfolding forget_join
  act_on_join-HasHost new_id decline req = h
  act_on_join-HasHost new_id accept_player req =
      let seated = seat_join-HasHost new_id false req in ground (arith, seated)
  act_on_join-HasHost new_id accept_spectator req =
      let seated = seat_join-HasHost new_id true req in ground (arith, seated)

  respond_to-HasHost :
      (host_player_id new_id : ℕ) (action : Action) (req : Option PendingJoin)
      → HasHost (respond_to env host_player_id new_id action req d).1.session.room
  respond_to-HasHost host_player_id new_id action none = h
  respond_to-HasHost host_player_id new_id action (some req) =
      let acted = act_on_join-HasHost new_id action req in ground (arith, acted)

  pub respond_join_request-HasHost :
      (host_player_id request_id new_id : ℕ) (action : Action)
      → HasHost (respond_join_request env host_player_id request_id new_id action d).1.session.room
  unfolding respond_join_request
  respond_join_request-HasHost host_player_id request_id new_id action =
      respond_to-HasHost host_player_id new_id action (find_join request_id d.joins)

  file_role-HasHost :
      (request_id : ℕ) (p : Player) → HasHost (file_role env request_id p d).1.session.room
  unfolding file_role store_role
  file_role-HasHost request_id p = rw (room-notify_host request_id p) (
      member-modify d.session.room.host_id p.id count_request d.session.room.players (λ q. refl)
      ∙ h)

  become_player_of-HasHost :
      (request_id : ℕ) (p : Option Player)
      → HasHost (become_player_of env request_id p d).1.session.room
  become_player_of-HasHost request_id none = h
  become_player_of-HasHost request_id (some p) =
      let filed = file_role-HasHost request_id p in ground (arith, filed)

  pub request_become_player-HasHost :
      (player_id request_id : ℕ)
      → HasHost (request_become_player env player_id request_id d).1.session.room
  unfolding request_become_player
  request_become_player-HasHost player_id request_id =
      become_player_of-HasHost request_id (get_player player_id d.session.room)

  answer_role-HasHost :
      (accepts : Bool) (req : PendingRole) (p : Option Player)
      → HasHost (answer_role accepts req p (close_role req d)).1.session.room
  unfolding forget_role
  answer_role-HasHost false req none = h
  answer_role-HasHost false req (some p) = h
  answer_role-HasHost true req none = h
  answer_role-HasHost true req (some p) =
      let kept =
        member-modify d.session.room.host_id p.id to_player_role d.session.room.players (λ q. refl)
        ∙ h in
      ground (arith, kept)

  role_reply-HasHost :
      (host_player_id : ℕ) (accepts : Bool) (req : Option PendingRole)
      → HasHost (role_reply host_player_id accepts req d).1.session.room
  role_reply-HasHost host_player_id accepts none = h
  role_reply-HasHost host_player_id accepts (some req) =
      let answered =
        answer_role-HasHost accepts req (get_player req.request.player_id d.session.room) in
      ground (arith, answered)

  pub respond_role-HasHost :
      (host_player_id request_id : ℕ) (accepts : Bool)
      → HasHost (respond_spectator_role_request host_player_id request_id accepts d).1.session.room
  unfolding respond_spectator_role_request
  respond_role-HasHost host_player_id request_id accepts =
      role_reply-HasHost host_player_id accepts (find_role request_id d.roles)

  withdraw-HasHost : (req : Option PendingRole) → HasHost (withdraw req d).1.session.room
  unfolding forget_role
  withdraw-HasHost none = h
  withdraw-HasHost (some req) = h

  pub cancel_role-HasHost :
      (player_id : ℕ) (request_id : Option ℕ)
      → HasHost (cancel_spectator_role_request player_id request_id d).1.session.room
  unfolding cancel_spectator_role_request
  cancel_role-HasHost player_id request_id =
      withdraw-HasHost (find (λ r. asked_by player_id request_id r.request) d.roles)

-- Somebody else than the target is connected.
voters-online :
    (voter target : ℕ) (players : List Player)
    → voter ≢ target
    → voter_connected (find (λ p. p.id == voter) players) ≡ true
    → 1 ≤ others_online target players
voters-online voter target [] other h = absurd (cc)
voters-online voter target (p ∷ players) other h =
    ground (arith, voters-online voter target players other)

module _ (env : Env) (b : Ballot) (h : HasHost b.session.room) where
  kick_found-HasHost :
      (target_id : ℕ) (target : Option Player)
      → get_player target_id b.session.room ≡ target
      → 1 ≤ others_online target_id b.session.room.players
      → HasHost (kick_found env target b.session).room
  unfolding get_player
  kick_found-HasHost target_id none e online = h
  kick_found-HasHost target_id (some target) e online =
      let is = (member-find target_id b.session.room.players target e).1 in
      let same = ap (λ i. others_online i b.session.room.players) is in
      (execute_kick-Unseated env target b.session h (omega (arith, same, online))).host

  count_vote-HasHost :
      (voter_id : ℕ) (vote : Bool) (v : VoteKick)
      → 1 ≤ others_online v.target_id b.session.room.players
      → HasHost (count_vote env voter_id vote v b).1.session.room
  count_vote-HasHost voter_id vote v online =
      let kicked =
        kick_found-HasHost v.target_id (get_player v.target_id b.session.room) refl online in
      ground (arith, kicked)

  cast_on-HasHost :
      (voter_id : ℕ) (vote : Bool) (v : Option VoteKick)
      → HasHost (cast_on env voter_id vote v b).1.session.room
  unfolding get_player
  cast_on-HasHost voter_id vote none = h
  cast_on-HasHost voter_id vote (some v) = elim (Bool-cases (voter_id == v.target_id)) [
    | inl e ↦ rw e h
    | inr e ↦ rw e (elim (Bool-cases (voter_connected (get_player voter_id b.session.room))) [
      | inr off ↦ rw off h
      | inl on ↦ rw on (
          count_vote-HasHost voter_id vote v
            (voters-online voter_id v.target_id b.session.room.players (λ is. ground arith) on))
    ])
  ]

  pub cast_vote_kick-HasHost :
      (voter_id : ℕ) (vote : Bool) → HasHost (cast_vote_kick env voter_id vote b).1.session.room
  unfolding cast_vote_kick
  cast_vote_kick-HasHost voter_id vote = cast_on-HasHost voter_id vote b.vote_kick

  vote_against-HasHost :
      (initiator_id target_id : ℕ) (target : Option Player)
      → get_player target_id b.session.room ≡ target
      → 1 ≤ others_online target_id b.session.room.players
      → HasHost (vote_against env initiator_id target b).1.session.room
  vote_against-HasHost initiator_id target_id none e online = h
  vote_against-HasHost initiator_id target_id (some target) e online =
      let kicked = kick_found-HasHost target_id (some target) e online in ground (arith, kicked)

  vote_unless-HasHost :
      (initiator_id target_id : ℕ) (v : Option VoteKick)
      → voter_connected (get_player initiator_id b.session.room) ≡ true
      → HasHost (vote_unless env initiator_id target_id v b).1.session.room
  unfolding get_player
  vote_unless-HasHost initiator_id target_id (some v) on = h
  vote_unless-HasHost initiator_id target_id none on =
      elim (Bool-cases (initiator_id == target_id)) [
        | inl e ↦ rw e h
        | inr e ↦ rw e (
            vote_against-HasHost initiator_id target_id (get_player target_id b.session.room) refl
              (voters-online initiator_id target_id b.session.room.players (λ is. ground arith) on))
      ]

  pub start_vote_kick-HasHost :
      (initiator_id target_id : ℕ)
      → voter_connected (get_player initiator_id b.session.room) ≡ true
      → HasHost (start_vote_kick env initiator_id target_id b).1.session.room
  unfolding start_vote_kick
  start_vote_kick-HasHost initiator_id target_id on =
      vote_unless-HasHost initiator_id target_id b.vote_kick on
