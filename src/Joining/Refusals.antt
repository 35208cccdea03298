-- ===== src/Joining/Refusals.antt =====
-- The requests at the door that are answered by an error.
use skribbl_app.Prelude.{ℕ, ◌≡◌, refl, Bool, true, false, Option, none, some, arith}
use skribbl_app.Text.{Text}
use skribbl_app.Models.{Player, get_player}
use skribbl_app.Session.{Env}
use skribbl_app.Lobby.{ErrorCode, Reply, error}
use skribbl_app.Joining.{
  PendingJoin, Door, Visitor, join_room_local, password_error, admit_unless, admit, take_seat,
  ask_host, reachable, file_join,
}
use skribbl_app.Joining.Requests.{
  Action, accept_player, accept_spectator, decline, find_join, seat_join, act_on_join, respond_to,
  respond_join_request,
}
use skribbl_app.Joining.Roles.{file_role, become_player_of, request_become_player}

-- An answer that is an error comes with the door unchanged.
abbrev pub Refusal : Door → Reply × Door → Type 0
Refusal d a = (code : ErrorCode) (text : Text) → a.0 ≡ error code text → a.1 ≡ d

module _ (env : Env) (d : Door) where
  ask_host-Refusal : (v : Visitor) (host : Option Player) → Refusal d (ask_host env v host d)
  unfolding file_join
  ask_host-Refusal v none = λ c t e. refl
  ask_host-Refusal v (some host) = λ c t e. cc

  take_seat-Refusal : (v : Visitor) → Refusal d (take_seat env v d)
  unfolding take_seat
  take_seat-Refusal v = λ c t e. cc

  admit_unless-Refusal :
      (problem : Option (ErrorCode × Text)) (v : Visitor) → Refusal d (admit_unless problem env v d)
  unfolding admit
  admit_unless-Refusal (some (code, text)) v = λ c t e. refl
  admit_unless-Refusal none v = λ c t e. ground (
    arith,
    ask_host-Refusal v (reachable (get_player d.session.room.host_id d.session.room)) c t,
    take_seat-Refusal v c t,
  )

  seat_join-Refusal :
      (new_id : ℕ) (is_spectator : Bool) (req : PendingJoin)
      → Refusal d (seat_join env new_id is_spectator req d)
  unfolding seat_join
  seat_join-Refusal new_id is_spectator req = λ c t e. cc

  act_on_join-Refusal :
      (new_id : ℕ) (action : Action) (req : PendingJoin)
      → Refusal d (act_on_join env new_id action req d)
  act_on_join-Refusal new_id decline req = λ c t e. cc
  act_on_join-Refusal new_id accept_player req =
      λ c t e. ground (arith, seat_join-Refusal new_id false req c t)
  act_on_join-Refusal new_id accept_spectator req =
      λ c t e. ground (arith, seat_join-Refusal new_id true req c t)

  respond_to-Refusal :
      (host_player_id new_id : ℕ) (action : Action) (req : Option PendingJoin)
      → Refusal d (respond_to env host_player_id new_id action req d)
  respond_to-Refusal host_player_id new_id action none = λ c t e. refl
  respond_to-Refusal host_player_id new_id action (some req) =
      λ c t e. ground (arith, act_on_join-Refusal new_id action req c t)

  file_role-Refusal : (request_id : ℕ) (p : Player) → Refusal d (file_role env request_id p d)
  unfolding file_role
  file_role-Refusal request_id p = λ c t e. cc

  become_player_of-Refusal :
      (request_id : ℕ) (p : Option Player) → Refusal d (become_player_of env request_id p d)
  become_player_of-Refusal request_id none = λ c t e. refl
  become_player_of-Refusal request_id (some p) =
      λ c t e. ground (arith, file_role-Refusal request_id p c t)

-- The requests of which an error changes nothing.
pub data Asked : Type 0 where
  comes : Visitor → Asked
  answers : (host_player_id request_id new_id : ℕ) → Action → Asked
  wants_to_play : (player_id request_id : ℕ) → Asked

unfoldable pub door_reply : Env → Asked → Door → Reply × Door
unfolding join_room_local respond_join_request request_become_player
door_reply env (comes v) d = join_room_local env v d
door_reply env (answers host_player_id request_id new_id action) d =
    respond_join_request env host_player_id request_id new_id action d
door_reply env (wants_to_play player_id request_id) d =
    request_become_player env player_id request_id d

-- A join, an answer of the host to one, and a request to play that get an error change nothing: the
-- room, the requests, the timers and what was sent are as before.
pub door_refused :
    (env : Env) (asked : Asked) (d : Door) (code : ErrorCode) (text : Text)
    → (door_reply env asked d).0 ≡ error code text
    → (door_reply env asked d).1 ≡ d
unfolding door_reply
door_refused env (comes v) d =
    admit_unless-Refusal env d
      (password_error env.unicode d.session.room.config.password v.password) v
door_refused env (answers host_player_id request_id new_id action) d =
    respond_to-Refusal env d host_player_id new_id action (find_join request_id d.joins)
door_refused env (wants_to_play player_id request_id) d =
    become_player_of-Refusal env d request_id (get_player player_id d.session.room)
