-- ===== src/Joining/Ledger.antt =====
-- The requests that wait at a door: the manager and the room know the same ones, and a spectator
-- asks at most twice in a game and waits for one answer at a time.
use skribbl_app.Prelude.{
  ℕ, ◌≡◌, refl, ap, ◌∙◌, inl, inr, Bool, true, false, Option-cases, Option, none, some, arith, find,
  ◌==◌,
}
use skribbl_app.Text.{Text}
use skribbl_app.Models.{Player, new_player, get_player}
use skribbl_app.Session.{Env, cancel}
use skribbl_app.Lobby.{ErrorCode}
use skribbl_app.Lobby.Host.{member-find}
use skribbl_app.Joining.{
  PendingJoin, PendingRole, Door, at_session, Visitor, admit_unless, admit, take_seat, reachable,
  seat,
}
use skribbl_app.Joining.Requests.{
  find_join, close_join, expire_join, cancel_join, identify, take_socket, Identifier, by_id,
  by_socket, Action, accept_player, accept_spectator, decline, end_countdown, seat_join,
  act_on_join, respond_to,
}
use skribbl_app.Joining.Roles.{
  find_role, become_player_of, to_player_role, promote, answer_role, role_reply, withdraw, asked_by,
  close_role, expire_request,
}
use skribbl_app.Joining.Remote.{take_remote_seat, remote_unless}
use skribbl_app.Joining.Knocks.{
  Knock, join, remote_join, join_timeout, withdraw_join, respond_join, become_player, role_timeout,
  respond_role, withdraw_role, knock,
}
use skribbl_app.Joining.Waiting.{
  AskedTwice, DoorOk, All-modify, forget_join-DoorOk, forget_role-DoorOk, seat-DoorOk,
  file_join-DoorOk, same_room, file_role-DoorOk,
}

module _ (env : Env) (d : Door) (h : DoorOk d) where
  take_seat-DoorOk : (v : Visitor) → DoorOk (take_seat env v d).1
  unfolding take_seat
  take_seat-DoorOk v = same_room _ _ refl (
      seat-DoorOk (new_player v.new_id v.name (some v.websocket) v.avatar v.as_spectator)
        v.websocket d refl h)

  remote_unless-DoorOk :
      (problem : Option (ErrorCode × Text)) (v : Visitor) → DoorOk (remote_unless problem env v d).1
  unfolding take_remote_seat seat
  remote_unless-DoorOk (some (code, text)) v = h
  remote_unless-DoorOk none v =
      let seated =
        seat-DoorOk (new_player v.new_id v.name none v.avatar v.as_spectator) 0 d refl h in
      let taken : DoorOk (take_remote_seat env v d).1 = record {
        joins = seated.joins;
        roles = seated.roles;
        one_each = seated.one_each;
        counted = seated.counted;
      } in
      grind (arith, h, taken)

  admit_unless-DoorOk :
      (problem : Option (ErrorCode × Text)) (v : Visitor) → DoorOk (admit_unless problem env v d).1
  unfolding admit
  admit_unless-DoorOk (some (code, text)) v = h
  admit_unless-DoorOk none v =
      let taken = take_seat-DoorOk v in
      elim (Option-cases (reachable (get_player d.session.room.host_id d.session.room))) [
        | inl e ↦ rw e (grind (arith, taken, h))
        | inr (host, e) ↦
            rw e (let filed = file_join-DoorOk env v host d h in grind (arith, taken, filed, h))
      ]

  close_join-DoorOk : (req : PendingJoin) → DoorOk (close_join req d)
  close_join-DoorOk req =
      let forgotten = forget_join-DoorOk req d h in
      record {
        joins = forgotten.joins;
        roles = forgotten.roles;
        one_each = forgotten.one_each;
        counted = forgotten.counted;
      }

  close_role-DoorOk : (req : PendingRole) → DoorOk (close_role req d)
  close_role-DoorOk req =
      let forgotten = forget_role-DoorOk req.request.request_id d h in
      record {
        joins = forgotten.joins;
        roles = forgotten.roles;
        one_each = forgotten.one_each;
        counted = forgotten.counted;
      }

  expire_join-DoorOk : (req : Option PendingJoin) → DoorOk (expire_join req d)
  expire_join-DoorOk none = h
  expire_join-DoorOk (some req) = same_room _ _ refl (forget_join-DoorOk req d h)

-- The announcements change nothing of the room.
end_countdown-DoorOk : (d : Door) → DoorOk d → DoorOk (at_session end_countdown d)
unfolding end_countdown
end_countdown-DoorOk d h =
    let stopped : DoorOk (record d {
      session = record d.session {
        room = record d.session.room { insufficient_players_task = none };
        tasks = cancel d.session.room.insufficient_players_task d.session.tasks;
      };
    }) =
      record { joins = h.joins; roles = h.roles; one_each = h.one_each; counted = h.counted } in
    grind (arith, stopped, h)

module _ (env : Env) (d : Door) (h : DoorOk d) where
  seat_join-DoorOk :
      (new_id : ℕ) (is_spectator : Bool) (req : PendingJoin)
      → DoorOk (seat_join env new_id is_spectator req d).1
  unfolding seat_join
  seat_join-DoorOk new_id is_spectator req = same_room _ _ refl (
      end_countdown-DoorOk _ (
        seat-DoorOk
          (new_player new_id req.request.name (some req.websocket) req.request.avatar is_spectator)
          req.websocket _ refl (close_join-DoorOk env d h req)))

  act_on_join-DoorOk :
      (new_id : ℕ) (action : Action) (req : PendingJoin)
      → DoorOk (act_on_join env new_id action req d).1
  act_on_join-DoorOk new_id decline req = same_room _ _ refl (close_join-DoorOk env d h req)
  act_on_join-DoorOk new_id accept_player req =
      let seated = seat_join-DoorOk new_id false req in grind (arith, h, seated)
  act_on_join-DoorOk new_id accept_spectator req =
      let seated = seat_join-DoorOk new_id true req in grind (arith, h, seated)

  respond_to-DoorOk :
      (host_player_id new_id : ℕ) (action : Action) (req : Option PendingJoin)
      → DoorOk (respond_to env host_player_id new_id action req d).1
  respond_to-DoorOk host_player_id new_id action none = h
  respond_to-DoorOk host_player_id new_id action (some req) =
      let acted = act_on_join-DoorOk new_id action req in grind (arith, h, acted)

  cancel_join-DoorOk : (req : Option PendingJoin) → DoorOk (cancel_join req d)
  cancel_join-DoorOk none = h
  cancel_join-DoorOk (some req) = same_room _ _ refl (close_join-DoorOk env d h req)

  become_player_of-DoorOk :
      (player_id request_id : ℕ) (p : Option Player)
      → get_player player_id d.session.room ≡ p
      → DoorOk (become_player_of env request_id p d).1
  unfolding get_player
  become_player_of-DoorOk player_id request_id none e = h
  become_player_of-DoorOk player_id request_id (some p) e =
      let is = (member-find player_id d.session.room.players p e).1 in
      let filed =
        file_role-DoorOk env request_id p d
          (ap (λ i. find (λ q. q.id == i) d.session.room.players) is ∙ e) in
      grind (arith, h, filed)

  expire_request-DoorOk : (request_id : ℕ) (p : Player) → DoorOk (expire_request request_id p d)
  unfolding expire_request
  expire_request-DoorOk request_id p = elim (Option-cases (find_role request_id d.roles)) [
    | inl e ↦ rw e (same_room _ _ refl (forget_role-DoorOk request_id d h))
    | inr (req, e) ↦ rw e (same_room _ _ refl (forget_role-DoorOk request_id d h))
  ]

  answer_role-DoorOk :
      (accepts : Bool) (req : PendingRole) (p : Option Player)
      → DoorOk (answer_role accepts req p d).1
  answer_role-DoorOk false req none = same_room _ _ refl h
  answer_role-DoorOk false req (some p) = same_room _ _ refl h
  answer_role-DoorOk true req none = h
  answer_role-DoorOk true req (some p) =
      let plays : DoorOk (promote req p d).1 = record {
        joins = h.joins;
        roles = h.roles;
        one_each = h.one_each;
        counted =
            All-modify AskedTwice to_player_role p.id d.session.room.players (λ q a. a) h.counted;
      } in
      grind (arith, h, plays)

module _ (env : Env) (d : Door) (h : DoorOk d) where
  role_reply-DoorOk :
      (host_player_id : ℕ) (accepts : Bool) (req : Option PendingRole)
      → DoorOk (role_reply host_player_id accepts req d).1
  role_reply-DoorOk host_player_id accepts none = h
  role_reply-DoorOk host_player_id accepts (some req) =
      let answered =
        answer_role-DoorOk env (close_role req d) (close_role-DoorOk env d h req) accepts req
          (get_player req.request.player_id d.session.room) in
      grind (arith, h, answered)

  withdraw-DoorOk : (req : Option PendingRole) → DoorOk (withdraw req d).1
  withdraw-DoorOk none = h
  withdraw-DoorOk (some req) = same_room _ _ refl (close_role-DoorOk env d h req)

  taken-DoorOk : (i : Identifier) → DoorOk (take_socket i d)
  taken-DoorOk (by_id id) = h
  taken-DoorOk (by_socket websocket) = record {
    joins = h.joins;
    roles = h.roles;
    one_each = h.one_each;
    counted = h.counted;
  }

-- Whatever is asked at the door, by whomever, the manager and the room keep the same requests in the
-- same order, nobody has two requests to play, and nobody has asked to play more than twice.
pub knock-DoorOk :
    (env : Env) (carried : ℕ → Option ℕ) (k : Knock) (d : Door)
    → DoorOk d
    → DoorOk (knock env carried k d)
unfolding knock
knock-DoorOk env carried (join v) d h = admit_unless-DoorOk env d h _ v
knock-DoorOk env carried (remote_join v) d h = remote_unless-DoorOk env d h _ v
knock-DoorOk env carried (join_timeout request_id) d h =
    expire_join-DoorOk env d h (find_join request_id d.joins)
knock-DoorOk env carried (withdraw_join i) d h =
    cancel_join-DoorOk env (take_socket i d) (taken-DoorOk env d h i) (identify carried i d)
knock-DoorOk env carried (respond_join host_player_id request_id new_id action) d h =
    respond_to-DoorOk env d h host_player_id new_id action (find_join request_id d.joins)
knock-DoorOk env carried (become_player player_id request_id) d h =
    become_player_of-DoorOk env d h player_id request_id (get_player player_id d.session.room) refl
knock-DoorOk env carried (role_timeout request_id p) d h =
    expire_request-DoorOk env d h request_id p
knock-DoorOk env carried (respond_role host_player_id request_id accepts) d h =
    role_reply-DoorOk env d h host_player_id accepts (find_role request_id d.roles)
knock-DoorOk env carried (withdraw_role player_id request_id) d h =
    withdraw-DoorOk env d h (find (λ r. asked_by player_id request_id r.request) d.roles)
