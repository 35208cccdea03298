-- ===== src/Joining/Knocks.antt =====
-- backend/room_manager.py: the requests at the door of a room, taken together.
use skribbl_app.Prelude.{ℕ, Bool, Option}
use skribbl_app.Models.{Player}
use skribbl_app.Session.{Env}
use skribbl_app.Joining.{Visitor, Door, join_room_local}
use skribbl_app.Joining.Remote.{join_by_rpc}
use skribbl_app.Joining.Requests.{
  Identifier, Action, handle_join_request_timeout, cancel_pending_join_request,
  respond_join_request,
}
use skribbl_app.Joining.Roles.{
  request_become_player, expire_request, respond_spectator_role_request,
  cancel_spectator_role_request,
}

pub data Knock : Type 0 where
  join remote_join : Visitor → Knock
  join_timeout : (request_id : ℕ) → Knock
  withdraw_join : Identifier → Knock
  respond_join : (host_player_id request_id new_id : ℕ) → Action → Knock
  become_player : (player_id request_id : ℕ) → Knock
  role_timeout : (request_id : ℕ) → Player → Knock
  respond_role : (host_player_id request_id : ℕ) (accepts : Bool) → Knock
  withdraw_role : (player_id : ℕ) (request_id : Option ℕ) → Knock

-- The door after a request of any kind; `carried` is the attribute `player_id` of a WebSocket.
unfoldable pub knock : Env → (carried : ℕ → Option ℕ) → Knock → Door → Door
unfolding join_room_local join_by_rpc handle_join_request_timeout cancel_pending_join_request
    respond_join_request request_become_player expire_request respond_spectator_role_request
    cancel_spectator_role_request
knock env carried (join v) d = (join_room_local env v d).1
knock env carried (remote_join v) d = (join_by_rpc env v d).1
knock env carried (join_timeout request_id) d = handle_join_request_timeout request_id d
knock env carried (withdraw_join identifier) d = cancel_pending_join_request carried identifier d
knock env carried (respond_join host_player_id request_id new_id action) d =
    (respond_join_request env host_player_id request_id new_id action d).1
knock env carried (become_player player_id request_id) d =
    (request_become_player env player_id request_id d).1
knock env carried (role_timeout request_id p) d = expire_request request_id p d
knock env carried (respond_role host_player_id request_id accepts) d =
    (respond_spectator_role_request host_player_id request_id accepts d).1
knock env carried (withdraw_role player_id request_id) d =
    (cancel_spectator_role_request player_id request_id d).1
