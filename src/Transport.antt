-- ===== src/Transport.antt =====
-- backend/virtual_transport.py: the messages of a player's connection, put on the bounded queue of
-- a gRPC stream. The payload is the text that is encoded.
pub mod Delivery
use skribbl_app.Prelude.{
  Option, none, some, ℕ, Bool, true, false, ◌&&◌, List, [], ◌∷◌, ◌++◌, length, ltb, leb,
  if◌then◌else◌,
}
use skribbl_app.Text.{Text}

pub data FrameType : Type 0 where
  targeted targeted_lossy broadcast broadcast_lossy : FrameType

-- `BroadcastMessage`
pub record Frame : Type 0 where
  pub room_code : ℕ
  pub message_type : FrameType
  pub payload : Text
  pub target_player_ids : List ℕ

-- `VirtualTransport` without its queue
pub record Transport : Type 0 where
  pub player_id : ℕ
  pub room_code : ℕ

-- `asyncio.Queue.full`: a queue of size 0 has no bound.
abbrev pub is_full : ℕ → List Frame → Bool
is_full size queue = ltb 0 size && leb size (length queue)

-- `put_nowait`, which raises QueueFull where nothing is put
abbrev pub put : ℕ → Frame → List Frame → List Frame
put size frame queue = if is_full size queue then queue else queue ++ frame ∷ []

-- `get_nowait`
abbrev pub get : List Frame → List Frame
get [] = []
get (frame ∷ queue) = queue

-- `_enqueue_with_backpressure`
unfoldable pub enqueue : ℕ → Frame → Bool → List Frame → List Frame
enqueue size frame lossy queue =
    if is_full size queue
    then (if lossy then queue else put size frame (get queue))
    else queue ++ frame ∷ []

unfoldable pub send_text : ℕ → Transport → Text → Bool → List Frame → List Frame
unfolding enqueue
send_text size transport text lossy queue =
    enqueue size
      (record {
        room_code = transport.room_code;
        message_type = if lossy then targeted_lossy else targeted;
        payload = text;
        target_player_ids = transport.player_id ∷ [];
      })
      lossy queue

-- `room_code or self.room_code`
abbrev pub room_or : ℕ → Option ℕ → ℕ
room_or own none = own
room_or own (some room_code) = room_code

-- `send_room`; no room code is given where it is empty.
unfoldable pub send_room : ℕ → Transport → Text → Option ℕ → Bool → List Frame → List Frame
unfolding enqueue
send_room size transport text room_code lossy queue =
    enqueue size
      (record {
        room_code = room_or transport.room_code room_code;
        message_type = if lossy then broadcast_lossy else broadcast;
        payload = text;
        target_player_ids = [];
      })
      lossy queue
