-- ===== src/Joining/Remote.antt =====
-- backend/room_manager.py, `_handle_rpc`, the join of a player whose connection is on another worker,
-- to a room that this worker owns.
use skribbl_app.Prelude.{
  ℕ, ◌≡◌, refl, ap, false, not, ◌&&◌, Option, none, some, List, [], ◌∷◌, ◌++◌, map, arith,
  if◌then◌else◌,
}
use skribbl_app.Text.{Text, codes}
use skribbl_app.Payloads.{serialize_player}
use skribbl_app.Models.{lobby, state_eq, Player, new_player, add_player}
use skribbl_app.Session.{Env, room_joined, set_room}
use skribbl_app.Lobby.{ErrorCode, Reply, error, told, tell_players, room_full, room_in_progress}
use skribbl_app.Joining.{
  Door, Visitor, at_session, players_full, spectators_full, password_error, room_view, seat,
  take_seat, admit, admit_unless, join_room_local,
}

-- The player has no WebSocket on this worker.
unfoldable pub take_remote_seat : Env → Visitor → Door → Reply × Door
unfolding add_player
take_remote_seat env v d =
    let player = new_player v.new_id v.name none v.avatar v.as_spectator in
    let seated = at_session tell_players (record d {
      session = set_room (add_player player) d.session;
      player_to_room = (v.new_id, d.session.room.code) ∷ d.player_to_room;
    }) in
    (told (room_joined v.new_id (room_view env.now v.as_spectator seated.session.room)), seated)

abbrev pub remote_admit : Env → Visitor → Door → Reply × Door
remote_admit env v d =
    let room = d.session.room in
    if not (state_eq room.state lobby) && not v.as_spectator
    then (error room_in_progress (codes "Room is not accepting new players"), d)
    else if not v.as_spectator && players_full room
    then (error room_full (codes "Room is full"), d)
    else if v.as_spectator && spectators_full room
    then (error room_full (codes "Spectator capacity reached"), d)
    else take_remote_seat env v d

abbrev pub remote_unless : Option (ErrorCode × Text) → Env → Visitor → Door → Reply × Door
remote_unless (some (code, text)) env v d = (error code text, d)
remote_unless none env v d = remote_admit env v d

-- `_handle_rpc` of the type join_room, on a room that is found
unfoldable pub join_by_rpc : Env → Visitor → Door → Reply × Door
unfolding password_error take_remote_seat
join_by_rpc env v d =
    remote_unless (password_error env.unicode d.session.room.config.password v.password) env v d

serialize-append :
    (host_id : ℕ) (players : List Player) (p : Player)
    → map (serialize_player host_id) (players ++ p ∷ [])
      ≡ map (serialize_player host_id) players ++ serialize_player host_id p ∷ []
serialize-append host_id [] p = refl
serialize-append host_id (q ∷ players) p =
    ap (λ l. serialize_player host_id q ∷ l) (serialize-append host_id players p)

same_seat :
    (env : Env) (v : Visitor) (d : Door) → (take_remote_seat env v d).0 ≡ (take_seat env v d).0
unfolding take_remote_seat take_seat seat add_player
same_seat env v d =
    let room = d.session.room in
    rw
      (
        serialize-append room.host_id room.players
            (new_player v.new_id v.name none v.avatar v.as_spectator),
        serialize-append room.host_id room.players
            (new_player v.new_id v.name (some v.websocket) v.avatar v.as_spectator),
      )
      refl

-- A visitor from another worker who does not come as a player in the middle of a game gets the answer
-- that a visitor with the same wishes gets on this worker: the same error, or the same view of the room.
pub join_by_rpc-join_room_local :
    (env : Env) (v : Visitor) (d : Door)
    → (not (state_eq d.session.room.state lobby) && not v.as_spectator) ≡ false
    → (join_by_rpc env v d).0 ≡ (join_room_local env v d).0
unfolding join_by_rpc join_room_local admit
join_by_rpc-join_room_local env v d early = by_password _
  where
    admitted : (remote_admit env v d).0 ≡ (admit env v d).0
    admitted = let seated = same_seat env v d in ground (arith, seated)

    by_password :
        (problem : Option (ErrorCode × Text))
        → (remote_unless problem env v d).0 ≡ (admit_unless problem env v d).0
    by_password none = admitted
    by_password (some (code, text)) = refl
