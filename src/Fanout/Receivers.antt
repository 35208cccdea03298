-- ===== src/Fanout/Receivers.antt =====
-- Whom a broadcast reaches, whichever way it takes.
use mathlib.Core.Path.{subst}
use skribbl_app.Prelude.{
  ℕ, ◌≡◌, refl, sym, ap, ◌∙◌, inl, inr, Bool, true, false, Bool-cases, ◌&&◌, Option, none, some,
  List, [], ◌∷◌, ◌++◌, arith, append_assoc, append_nil, length, any, count_if, ◌==◌, if◌then◌else◌,
}
use skribbl_app.Text.{Text, mem_text}
use skribbl_app.Models.{Player, Room}
use skribbl_app.Transport.{Transport}
use skribbl_app.Fanout.{
  Socket, real, virtual, Delivery, to_stream, to_websocket, to_redis, Survey, nothing_seen, see,
  survey_player, survey, target, one_by_one, on_stream, is_single, deliver, relay, lossy_types,
  broadcast_room,
}

-- The same WebSockets, as often, in any order.
abbrev pub SameItems : List ℕ → List ℕ → Type 0
SameItems xs ys = (w : ℕ) → count_if (λ x. x == w) xs ≡ count_if (λ x. x == w) ys

abbrev pub reachable_at : Option ℕ → Bool → List ℕ
reachable_at none is_connected = []
reachable_at (some websocket) is_connected = if is_connected then websocket ∷ [] else []

-- Everyone who is to get a message: the connected players who have a WebSocket on this worker.
abbrev pub recipients : List Player → List ℕ
recipients [] = []
recipients (p ∷ players) = reachable_at p.websocket p.is_connected ++ recipients players

-- What the calls bring about: a message with no target goes to all sessions that the gateway has for
-- the room code, whichever stream it came on, and one with a target to its WebSocket.
abbrev pub reached : (sessions : ℕ → List ℕ) → List Delivery → List ℕ
reached sessions [] = []
reached sessions (to_stream queue transport room_code lossy ∷ calls) =
    sessions room_code ++ reached sessions calls
reached sessions (to_websocket websocket lossy ∷ calls) = websocket ∷ reached sessions calls
reached sessions (to_redis room_code ∷ calls) = reached sessions calls

reached-append :
    (sessions : ℕ → List ℕ) (xs ys : List Delivery)
    → reached sessions (xs ++ ys) ≡ reached sessions xs ++ reached sessions ys
reached-append sessions [] ys = refl
reached-append sessions (to_stream queue transport room_code lossy ∷ xs) ys =
    rw (reached-append sessions xs ys) (sym (append_assoc (sessions room_code) _ _))
reached-append sessions (to_websocket websocket lossy ∷ xs) ys =
    ap (λ l. websocket ∷ l) (reached-append sessions xs ys)
reached-append sessions (to_redis room_code ∷ xs) ys = reached-append sessions xs ys

abbrev member : ℕ → List ℕ → Bool
member x xs = any (λ q. q == x) xs

member-snoc : (x y : ℕ) (xs : List ℕ) → member x xs ≡ true → member x (xs ++ y ∷ []) ≡ true
member-snoc x y [] h = absurd (cc)
member-snoc x y (z ∷ xs) h = ground (arith, member-snoc x y xs)

member_last : (x : ℕ) (xs : List ℕ) → member x (xs ++ x ∷ []) ≡ true
member_last x [] = ground arith
member_last x (z ∷ xs) = ground (arith, member_last x xs)

-- The transport that was seen last is on a queue that was seen.
abbrev Placed : List ℕ → Option (ℕ × Transport) → Type 0
Placed seen none = seen ≡ []
Placed seen (some (queue, transport)) = member queue seen ≡ true

module _ (socket_of : ℕ → Socket) where
  abbrev pub is_virtual : Socket → Bool
  is_virtual real = false
  is_virtual (virtual queue transport) = true

  abbrev pub session_at : Option ℕ → Bool → List ℕ
  session_at none is_connected = []
  session_at (some websocket) is_connected =
      if is_connected && is_virtual (socket_of websocket) then websocket ∷ [] else []

  -- The connected players of a room who came through the gateway, on whichever stream.
  abbrev pub gateway_players : List Player → List ℕ
  gateway_players [] = []
  gateway_players (p ∷ players) = session_at p.websocket p.is_connected ++ gateway_players players

  real-survey :
      (players : List Player) (s : Survey)
      → s.has_real_websocket ≡ true
      → (survey socket_of players s).has_real_websocket ≡ true
  real-survey [] s h = h
  real-survey (p ∷ players) s h =
      real-survey players (survey_player socket_of p.websocket p.is_connected s)
        (real_here p.websocket p.is_connected)
    where
      real_now : (socket : Socket) → (see socket s).has_real_websocket ≡ true
      real_now real = refl
      real_now (virtual queue transport) = ground (arith, h)

      real_here :
          (websocket : Option ℕ) (is_connected : Bool)
          → (survey_player socket_of websocket is_connected s).has_real_websocket ≡ true
      real_here none is_connected = h
      real_here (some websocket) true = real_now (socket_of websocket)
      real_here (some websocket) false = h

  Placed-see :
      (socket : Socket) (s : Survey)
      → Placed s.seen_queues s.single
      → Placed (see socket s).seen_queues (see socket s).single
  Placed-see real s h = h
  Placed-see (virtual queue transport) s h = elim (Bool-cases (member queue s.seen_queues)) [
    | inl old ↦ rw old h
    | inr new ↦ rw new (member_last queue s.seen_queues)
  ]

  Placed-survey :
      (players : List Player) (s : Survey)
      → Placed s.seen_queues s.single
      → Placed (survey socket_of players s).seen_queues (survey socket_of players s).single
  Placed-survey [] s h = h
  Placed-survey (p ∷ players) s h =
      Placed-survey players (survey_player socket_of p.websocket p.is_connected s)
        (here p.websocket p.is_connected)
    where
      here :
          (websocket : Option ℕ) (is_connected : Bool)
          → Placed
              (survey_player socket_of websocket is_connected s).seen_queues
              (survey_player socket_of websocket is_connected s).single
      here none is_connected = h
      here (some websocket) true = Placed-see (socket_of websocket) s h
      here (some websocket) false = h

  -- Where no connection of this process was seen, all came through the gateway.
  gateway_players-survey :
      (players : List Player) (s : Survey)
      → (survey socket_of players s).has_real_websocket ≡ false
      → gateway_players players ≡ recipients players
  gateway_players-survey [] s virtual_only = refl
  gateway_players-survey (p ∷ players) s virtual_only =
      rw (here p.websocket p.is_connected virtual_only) (
        ap (λ l. reachable_at p.websocket p.is_connected ++ l)
          (gateway_players-survey players (survey_player socket_of p.websocket p.is_connected s)
            virtual_only))
    where
      now :
          (socket : Socket)
          → (survey socket_of players (see socket s)).has_real_websocket ≡ false
          → is_virtual socket ≡ true
      now real gone = absurd (let is_real = real-survey players (see real s) refl in cc)
      now (virtual q transport) gone = refl

      here :
          (websocket : Option ℕ) (is_connected : Bool)
          → (survey socket_of players
              (survey_player socket_of websocket is_connected s)).has_real_websocket
            ≡ false
          → session_at websocket is_connected ≡ reachable_at websocket is_connected
      here none is_connected gone = refl
      here (some websocket) false gone = refl
      here (some websocket) true gone = rw (now (socket_of websocket) gone) refl

  reached-one_by_one :
      (sessions : ℕ → List ℕ) (lossy : Bool) (players : List Player)
      → reached sessions (one_by_one socket_of lossy players) ≡ recipients players
  reached-one_by_one sessions lossy [] = refl
  reached-one_by_one sessions lossy (p ∷ players) =
      reached-append sessions (target socket_of lossy p.websocket p.is_connected) _
      ∙ rw (here p.websocket p.is_connected) (
          ap (λ l. reachable_at p.websocket p.is_connected ++ l)
            (reached-one_by_one sessions lossy players))
    where
      here :
          (websocket : Option ℕ) (is_connected : Bool)
          → reached sessions (target socket_of lossy websocket is_connected)
            ≡ reachable_at websocket is_connected
      here none is_connected = refl
      here (some websocket) true = refl
      here (some websocket) false = refl

  reached-on_stream :
      (sessions : ℕ → List ℕ) (lossy : Bool) (room : Room) (queue : ℕ)
      (single : Option (ℕ × Transport))
      → Placed (queue ∷ []) single
      → reached sessions (on_stream socket_of lossy room.code single) ≡ sessions room.code
  reached-on_stream sessions lossy room queue none placed = absurd (cc)
  reached-on_stream sessions lossy room queue (some (q, transport)) placed =
      append_nil (sessions room.code)

  one_queue : (seen : List ℕ) → (length seen == 1) ≡ true → (queue : ℕ) × (seen ≡ queue ∷ [])
  one_queue [] h = absurd (cc)
  one_queue (queue ∷ []) h = (queue, refl)
  one_queue (queue ∷ q ∷ seen) h = absurd (ground arith)

  reached-relay :
      (sessions : ℕ → List ℕ) (redis_enabled : Bool) (room : Room) (s : Survey)
      → reached sessions (relay socket_of redis_enabled room s) ≡ []
  reached-relay sessions redis_enabled room s = ground arith

  deliver-reaches :
      (sessions : ℕ → List ℕ) (lossy : Bool) (room : Room)
      → SameItems (sessions room.code) (gateway_players room.players)
      → SameItems
          (reached sessions
            (deliver socket_of lossy room (survey socket_of room.players nothing_seen)))
          (recipients room.players)
  deliver-reaches sessions lossy room h w =
      elim (Bool-cases (is_single socket_of (survey socket_of room.players nothing_seen))) [
        | inr many ↦
            rw many (ap (count_if (λ x. x == w)) (reached-one_by_one sessions lossy room.players))
        | inl single ↦
            let surveyed = survey socket_of room.players nothing_seen in
            let one : (length surveyed.seen_queues == 1) ≡ true = ground arith in
            let virtual_only : surveyed.has_real_websocket ≡ false = ground arith in
            let (queue, seen) = one_queue surveyed.seen_queues one in
            let placed : Placed (queue ∷ []) surveyed.single =
              subst (λ l. Placed l surveyed.single) seen
                (Placed-survey room.players nothing_seen refl) in
            rw single (
              ap (count_if (λ x. x == w))
                (reached-on_stream sessions lossy room queue surveyed.single placed)
              ∙ h w
              ∙ ap (count_if (λ x. x == w))
                  (gateway_players-survey room.players nothing_seen virtual_only))
      ]

-- Where the sessions that the gateway has for the room code are those of the room's connected players
-- who came through it, a broadcast reaches every connected player of this worker once and nobody
-- else, whether it sends one message for the room or one for each player.
pub broadcast_room-reaches :
    (socket_of : ℕ → Socket) (redis_enabled : Bool) (message_type : Text) (room : Room)
    (sessions : ℕ → List ℕ)
    → SameItems (sessions room.code) (gateway_players socket_of room.players)
    → SameItems
        (reached sessions (broadcast_room socket_of redis_enabled message_type room))
        (recipients room.players)
unfolding broadcast_room
broadcast_room-reaches socket_of redis_enabled message_type room sessions h w =
    let surveyed = survey socket_of room.players nothing_seen in
    let lossy = mem_text message_type lossy_types in
    ap (count_if (λ x. x == w)) (
      reached-append sessions (deliver socket_of lossy room surveyed)
        (relay socket_of redis_enabled room surveyed)
      ∙ ap (λ l. reached sessions (deliver socket_of lossy room surveyed) ++ l)
          (reached-relay socket_of sessions redis_enabled room surveyed)
      ∙ append_nil _)
    ∙ deliver-reaches socket_of sessions lossy room h w
