-- ===== src/Connection/Protocol.antt =====
-- What the handler of a WebSocket may do for its client, as a state machine.
use skribbl_app.Prelude.{◌≡◌, refl, sym, inl, inr, Bool-cases, Option, none, some, List, [], ◌∷◌}
use skribbl_app.Text.{Text}
use skribbl_app.Connection.{
  Identity, Entry, entered, refused, raised, Outcome, stayed, left, failed, RoomManager, Request,
  create_room, join_room, reconnect, cancel_join_request, pong, other, Frame, too_large, malformed,
  not_object, message, Call, identified, found, handled, forwarded, departed, disconnected,
  notified, cancelled, Connection, enter, identify_as, approve_as, approve, conclude, act_as,
  receive, serve, hang_up, websocket_handler,
}

-- The calls of an open connection, newest first, and the player whom it stands for.
pub data Run : Option Identity → List Call → Type 0 where
  opens : Run none []
  identifies :
      {who : Option Identity} {calls : List Call} (next : Identity)
      → Run who calls
      → Run (some next) (identified next ∷ calls)
  finds :
      {calls : List Call} (next : Identity) → Run none calls → Run (some next) (found next ∷ calls)
  handles :
      {who : Identity} {calls : List Call}
      → Run (some who) calls
      → Run (some who) (handled who ∷ calls)
  forwards :
      {who : Identity} {calls : List Call}
      → Run (some who) calls
      → Run (some who) (forwarded who ∷ calls)
  departs :
      {who : Identity} {calls : List Call} → Run (some who) calls → Run none (departed who ∷ calls)
  cancels :
      {who : Option Identity} {calls : List Call} → Run who calls → Run who (cancelled ∷ calls)

-- The calls of a connection that has ended.
pub data Ended : List Call → Type 0 where
  hangs_up :
      {who : Identity} {calls : List Call} → Run (some who) calls → Ended (disconnected who ∷ calls)
  notifies :
      {who : Identity} {calls : List Call} → Run (some who) calls → Ended (notified who ∷ calls)
  abandons : {calls : List Call} → Run none calls → Ended (cancelled ∷ calls)

abbrev pub Runs : {S : Type 0} → Connection S → Type 0
Runs c = Run c.identity c.calls

module _ {S : Type 0} where
  identify_as-Runs : (reply : Entry × S) (c : Connection S) → Runs c → Runs (identify_as reply c)
  identify_as-Runs (entered who, s) c run = Run.identifies who run
  identify_as-Runs (refused, s) c run = run
  identify_as-Runs (raised, s) c run = run

  approve_as-Runs :
      (who known : Option Identity) (c : Connection S)
      → who ≡ c.identity
      → Run who c.calls
      → Runs (approve_as who known c)
  approve_as-Runs (some who) known c e run = rw (sym e) run
  approve_as-Runs none none c e run = rw (sym e) run
  approve_as-Runs none (some who) c e run = Run.finds who run

  conclude-Runs :
      (who : Identity) (outcome : Outcome × S) (c : Connection S)
      → some who ≡ c.identity
      → Run (some who) c.calls
      → Runs (conclude who outcome c)
  conclude-Runs who (stayed, s) c e run = rw (sym e) (Run.handles run)
  conclude-Runs who (left, s) c e run = Run.departs run
  conclude-Runs who (failed, s) c e run = rw (sym e) (Run.handles run)

module _ {S P : Type 0} where
  enter-Runs :
      (operation : P → S → Entry × S) (payload : Option P) (c : Connection S)
      → Runs c
      → Runs (enter operation payload c)
  enter-Runs operation none c run = run
  enter-Runs operation (some payload) c run = identify_as-Runs (operation payload c.worker) c run

  act_as-Runs :
      (m : RoomManager S P) (msg_type : Text) (payload : Option P) (who : Option Identity)
      (c : Connection S)
      → who ≡ c.identity
      → Run who c.calls
      → Runs (act_as m msg_type payload who c)
  act_as-Runs m msg_type payload none c e run = rw (sym e) run
  act_as-Runs m msg_type payload (some who) c e run =
      elim (Bool-cases (m.is_proxy who.room_code c.worker)) [
        | inl t ↦ rw (t, sym e) (Run.forwards run)
        | inr f ↦ rw f (
            conclude-Runs who (m.handle_local_message who.player_id msg_type payload c.worker) c e
              run)
      ]

  approve-Runs : (m : RoomManager S P) (c : Connection S) → Runs c → Runs (approve m c)
  approve-Runs m c run = approve_as-Runs c.identity (m.player_of c.worker) c refl run

  receive-Runs :
      (m : RoomManager S P) (request : Request P) (c : Connection S)
      → Runs c
      → Runs (receive m request c)
  receive-Runs m (create_room payload) c run = enter-Runs m.create_room payload c run
  receive-Runs m (join_room payload) c run = enter-Runs m.join_room payload c run
  receive-Runs m (reconnect payload) c run = enter-Runs m.handle_reconnect payload c run
  receive-Runs m (cancel_join_request id) c run = Run.cancels run
  receive-Runs m pong c run = run
  receive-Runs m (other msg_type payload) c run =
      act_as-Runs m msg_type payload (approve m c).identity (approve m c) refl
        (approve-Runs m c run)

  serve-Runs :
      (m : RoomManager S P) (frames : List (Frame P)) (c : Connection S)
      → Runs c
      → Runs (serve m frames c)
  unfolding serve
  serve-Runs m [] c run = run
  serve-Runs m (too_large ∷ frames) c run = serve-Runs m frames _ run
  serve-Runs m (malformed ∷ frames) c run = serve-Runs m frames _ run
  serve-Runs m (not_object ∷ frames) c run = run
  serve-Runs m (message request ∷ frames) c run =
      serve-Runs m frames (receive m request c) (receive-Runs m request c run)

  hang_up-Ended :
      (m : RoomManager S P) (who : Option Identity) (c : Connection S)
      → Run who c.calls
      → Ended (hang_up m who c).calls
  hang_up-Ended m none c run = Ended.abandons run
  hang_up-Ended m (some who) c run =
      elim (Bool-cases (m.is_proxy who.room_code (m.forget c.worker))) [
        | inl t ↦ rw t (Ended.notifies run)
        | inr f ↦ rw f (Ended.hangs_up run)
      ]

  -- Whatever the client sends and whatever the manager answers, the calls of a connection are a run of
  -- the protocol: messages are handled or forwarded only in the name of the player of the last
  -- identification, and after he left, or before there is one, only once a player was found in
  -- _ws_to_player, in whose name they are then. At the end the player of the connection is
  -- disconnected or the owner of his room is told, or, where there is none, a request that is pending
  -- is cancelled.
  pub websocket_handler-Ended :
      (m : RoomManager S P) (frames : List (Frame P)) (s : S)
      → Ended (websocket_handler m frames s).calls
  unfolding websocket_handler
  websocket_handler-Ended m frames s =
      let start : Connection S = record { identity = none; worker = s; calls = []; sent = [] } in
      let served = serve m frames start in
      hang_up-Ended m (approve m served).identity (approve m served)
        (approve-Runs m served (serve-Runs m frames start Run.opens))
