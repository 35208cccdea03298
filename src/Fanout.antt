-- ===== src/Fanout.antt =====
-- backend/room_manager.py, `broadcast`: how a message for a room reaches its players. The text of the
-- message is encoded already; a send that fails is passed over.
pub mod Receivers
use skribbl_app.Prelude.{
  ℕ, Bool, true, false, not, ◌&&◌, Option, none, some, List, [], ◌∷◌, ◌++◌, length, any, ◌==◌,
  if◌then◌else◌,
}
use skribbl_app.Text.{Text, codes, mem_text}
use skribbl_app.Models.{Player, Room}
use skribbl_app.Transport.{Transport}

-- What a WebSocket handle stands for: a connection of this process, or a transport on the queue of a
-- stream of the gateway.
pub data Socket : Type 0 where
  real : Socket
  virtual : (queue : ℕ) → Transport → Socket

-- The calls that a broadcast makes: `send_room` on a queue, `send_text` on a WebSocket, and
-- `publish_to_room`.
pub data Delivery : Type 0 where
  to_stream : (queue : ℕ) → Transport → (room_code : ℕ) (lossy : Bool) → Delivery
  to_websocket : (websocket : ℕ) (lossy : Bool) → Delivery
  to_redis : (room_code : ℕ) → Delivery

-- The variables of the loop over the players; the transport stands with its queue.
pub record Survey : Type 0 where
  pub seen_queues : List ℕ
  pub single : Option (ℕ × Transport)
  pub has_real_websocket : Bool
  pub has_remote_players : Bool

abbrev pub nothing_seen : Survey
nothing_seen = record {
  seen_queues = [];
  single = none;
  has_real_websocket = false;
  has_remote_players = false;
}

abbrev pub see : Socket → Survey → Survey
see real s = record s { has_real_websocket = true }
see (virtual queue transport) s =
    if any (λ q. q == queue) s.seen_queues
    then s
    else record s { seen_queues = s.seen_queues ++ queue ∷ []; single = some (queue, transport) }

module _ (socket_of : ℕ → Socket) where
  abbrev pub survey_player : Option ℕ → Bool → Survey → Survey
  survey_player none is_connected s = record s { has_remote_players = true }
  survey_player (some websocket) is_connected s =
      if is_connected then see (socket_of websocket) s else s

  abbrev pub survey : List Player → Survey → Survey
  survey [] s = s
  survey (p ∷ players) s = survey players (survey_player p.websocket p.is_connected s)

  -- `lossy` is given to a transport only.
  abbrev pub tagged : Socket → Bool → Bool
  tagged real lossy = false
  tagged (virtual queue transport) lossy = lossy

  abbrev pub target : Bool → Option ℕ → Bool → List Delivery
  target lossy none is_connected = []
  target lossy (some websocket) is_connected =
      if is_connected then to_websocket websocket (tagged (socket_of websocket) lossy) ∷ [] else []

  abbrev pub one_by_one : Bool → List Player → List Delivery
  one_by_one lossy [] = []
  one_by_one lossy (p ∷ players) =
      target lossy p.websocket p.is_connected ++ one_by_one lossy players

  abbrev pub on_stream : Bool → ℕ → Option (ℕ × Transport) → List Delivery
  on_stream lossy room_code none = []
  on_stream lossy room_code (some (queue, transport)) =
      to_stream queue transport room_code lossy ∷ []

  -- `len(seen_queues) == 1 and not has_real_websocket`
  abbrev pub is_single : Survey → Bool
  is_single s = (length s.seen_queues == 1) && not s.has_real_websocket

  abbrev pub deliver : Bool → Room → Survey → List Delivery
  deliver lossy room s =
      if is_single s then on_stream lossy room.code s.single else one_by_one lossy room.players

  abbrev pub relay : Bool → Room → Survey → List Delivery
  relay redis_enabled room s =
      if s.has_remote_players && redis_enabled then to_redis room.code ∷ [] else []

-- LOSSY_BROADCAST_TYPES
abbrev pub lossy_types : List Text
lossy_types = codes "stroke" ∷ codes "fill" ∷ codes "clear_canvas" ∷ codes "cursor" ∷ []

unfoldable pub broadcast_room :
    (ℕ → Socket) → (redis_enabled : Bool) → (message_type : Text) → Room → List Delivery
unfolding mem_text
broadcast_room socket_of redis_enabled message_type room =
    let surveyed = survey socket_of room.players nothing_seen in
    deliver socket_of (mem_text message_type lossy_types) room surveyed
    ++ relay socket_of redis_enabled room surveyed
