-- ===== src/Joining/Capacity.antt =====
-- How full the requests at the door can make a room.
use skribbl_app.Prelude.{
  ℕ, ◌+◌, ◌≤◌, ◌≡◌, refl, sym, inl, inr, Bool, true, false, Bool-cases, not, Option, none, some,
  List, [], ◌∷◌, arith, count_if, find, ◌==◌,
}
use skribbl_app.Models.{Player, Room, get_player, modify_player, new_player}
use skribbl_app.Session.{Env}
use skribbl_app.Lobby.{ErrorCode}
use skribbl_app.Text.{Text}
use skribbl_app.Joining.{
  PendingJoin, PendingRole, Door, Visitor, players_full, spectators_full, admit_unless,
}
use skribbl_app.Joining.Requests.{
  find_join, cancel_join, identify, take_socket, Identifier, by_id, by_socket,
}
use skribbl_app.Joining.Roles.{
  find_role, forget_role, to_player_role, promote, accept_role, answer_role, decline_role,
  role_reply, withdraw, asked_by, close_role,
}
use skribbl_app.Joining.Remote.{take_remote_seat, remote_unless}
use skribbl_app.Joining.Knocks.{
  Knock, join, remote_join, join_timeout, withdraw_join, respond_join, become_player, role_timeout,
  respond_role, withdraw_role, knock,
}
use skribbl_app.Joining.Places.{
  Fits, add_player-Fits, Counted-Fits, idle-Fits, admit-Fits, respond_to-Fits, expire_join-Fits,
  cancel_join-Fits, expire_request-Fits, become_player_of-Fits,
}

-- A spectator who plays is one player more.
promoted :
    (id : ℕ) (players : List Player)
    → (count_if (λ q. not q.is_spectator) (modify_player id to_player_role players)
        ≤ count_if (λ q. not q.is_spectator) players + 1)
      × (count_if (λ q. q.is_spectator) (modify_player id to_player_role players)
          ≤ count_if (λ q. q.is_spectator) players)
unfolding modify_player
promoted id [] = (omega arith, omega arith)
promoted id (p ∷ players) = elim (Bool-cases (p.id == id)) [
  | inl e ↦ rw e (elim (Bool-cases p.is_spectator) [
    | inl s ↦ rw s (omega arith, omega arith)
    | inr s ↦ rw s (omega arith, omega arith)
  ])
  | inr e ↦ let (h, k) = promoted id players in rw e (ground (arith, h), ground (arith, k))
]

module _ (env : Env) (before : Room) where
  accept_role-Fits :
      (req : PendingRole) (p : Option Player) (d : Door)
      → d.session.room.players ≡ before.players
      → d.session.room.config ≡ before.config
      → Fits before (accept_role req p d).1.session.room
  accept_role-Fits req none d same config = Counted-Fits before _ (rw same (refl, refl))
  accept_role-Fits req (some p) d same config =
      let kept = Counted-Fits before d.session.room (rw same (refl, refl)) in
      let (h, k) = promoted p.id d.session.room.players in
      let seated : players_full d.session.room ≡ false
          → Fits before (promote req p d).1.session.room =
        λ free. record {
          players = rw (sym same, sym config) (ground arith);
          spectators = rw (sym same) (omega arith);
        } in
      grind (arith, kept, seated)

  decline_role-Fits :
      (req : PendingRole) (p : Option Player) (d : Door)
      → d.session.room.players ≡ before.players
      → Fits before (decline_role req p d).1.session.room
  decline_role-Fits req none d same = Counted-Fits before _ (rw same (refl, refl))
  decline_role-Fits req (some p) d same = Counted-Fits before _ (rw same (refl, refl))

  answer_role-Fits :
      (accepts : Bool) (req : PendingRole) (p : Option Player) (d : Door)
      → d.session.room.players ≡ before.players
      → d.session.room.config ≡ before.config
      → Fits before (answer_role accepts req p d).1.session.room
  answer_role-Fits true req p d same config = accept_role-Fits req p d same config
  answer_role-Fits false req p d same config = decline_role-Fits req p d same

module _ (env : Env) (d : Door) where
  role_reply-Fits :
      (host_player_id : ℕ) (accepts : Bool) (req : Option PendingRole)
      → Fits d.session.room (role_reply host_player_id accepts req d).1.session.room
  unfolding forget_role
  role_reply-Fits host_player_id accepts none = idle-Fits env d _ refl
  role_reply-Fits host_player_id accepts (some req) =
      let same = idle-Fits env d d.session.room refl in
      let answered =
        answer_role-Fits env d.session.room accepts req
          (get_player req.request.player_id d.session.room) (close_role req d) refl refl in
      grind (arith, same, answered)

  withdraw-Fits : (req : Option PendingRole) → Fits d.session.room (withdraw req d).1.session.room
  unfolding forget_role
  withdraw-Fits none = idle-Fits env d _ refl
  withdraw-Fits (some req) = idle-Fits env d _ refl

  take_remote_seat-Fits :
      (v : Visitor)
      → (v.as_spectator ≡ false → players_full d.session.room ≡ false)
      → (v.as_spectator ≡ true → spectators_full d.session.room ≡ false)
      → Fits d.session.room (take_remote_seat env v d).1.session.room
  unfolding take_remote_seat
  take_remote_seat-Fits v player spectator =
      add_player-Fits (new_player v.new_id v.name none v.avatar v.as_spectator) d.session.room
        player spectator

  remote_unless-Fits :
      (problem : Option (ErrorCode × Text)) (v : Visitor)
      → Fits d.session.room (remote_unless problem env v d).1.session.room
  remote_unless-Fits (some (code, text)) v = idle-Fits env d _ refl
  remote_unless-Fits none v =
      let same = idle-Fits env d d.session.room refl in
      let seated = take_remote_seat-Fits v in grind (arith, same, seated)

  admit_unless-Fits :
      (problem : Option (ErrorCode × Text)) (v : Visitor)
      → Fits d.session.room (admit_unless problem env v d).1.session.room
  admit_unless-Fits none v = admit-Fits env d v
  admit_unless-Fits (some (code, text)) v = idle-Fits env d _ refl

taken-Fits :
    (env : Env) (i : Identifier) (req : Option PendingJoin) (d : Door)
    → Fits d.session.room (cancel_join req (take_socket i d)).session.room
taken-Fits env (by_id id) req d = cancel_join-Fits env d req
taken-Fits env (by_socket websocket) req d =
    cancel_join-Fits env (take_socket (by_socket websocket) d) req

-- Whatever is asked at the door, by whomever and on whichever worker, a room never gets more players than the settings and
-- the cap of twelve allow, nor more than fifty spectators, except those that it had before.
pub knock-Fits :
    (env : Env) (carried : ℕ → Option ℕ) (k : Knock) (d : Door)
    → Fits d.session.room (knock env carried k d).session.room
unfolding knock
knock-Fits env carried (join v) d = admit_unless-Fits env d _ v
knock-Fits env carried (remote_join v) d = remote_unless-Fits env d _ v
knock-Fits env carried (join_timeout request_id) d =
    expire_join-Fits env d (find_join request_id d.joins)
knock-Fits env carried (withdraw_join i) d = taken-Fits env i (identify carried i d) d
knock-Fits env carried (respond_join host_player_id request_id new_id action) d =
    respond_to-Fits env d host_player_id new_id action (find_join request_id d.joins)
knock-Fits env carried (become_player player_id request_id) d =
    become_player_of-Fits env d request_id (get_player player_id d.session.room)
knock-Fits env carried (role_timeout request_id p) d = expire_request-Fits env d request_id p
knock-Fits env carried (respond_role host_player_id request_id accepts) d =
    role_reply-Fits env d host_player_id accepts (find_role request_id d.roles)
knock-Fits env carried (withdraw_role player_id request_id) d =
    withdraw-Fits env d (find (λ r. asked_by player_id request_id r.request) d.roles)
