-- ===== src/Tests/Messages.antt =====
-- Tests of the messages of players, and of broadcasts.
use skribbl_app.Prelude.{
  ℕ, ◌≡◌, refl, true, none, some, List, [], ◌∷◌, arith, Option, ◌==◌, length, if◌then◌else◌,
}
use skribbl_app.Text.{codes, mem_text, text_eq}
use skribbl_app.Models.{Room, get_player}
use skribbl_app.Session.{fill, stroke}
use skribbl_app.Dispatch.{Hub, draw_msg, vote_kick_msg, handle_local_message}
use skribbl_app.Dispatch.Forwarded.{handle_forwarded_message}
use skribbl_app.Dispatch.Alike.{handle_forwarded_message-handle_local_message}
use skribbl_app.Dispatch.Gateway.{dispatch_of_client, Site}
use skribbl_app.Dispatch.Host.{Hosted, handle_local_message-Hosted}
use skribbl_app.Fanout.{Socket, virtual, broadcast_room, to_stream}
use skribbl_app.Fanout.Receivers.{
  SameItems, reached, recipients, gateway_players, broadcast_room-reaches,
}
use skribbl_app.Tests.Samples.{alice, bob, carol, watcher, env, playing_session, lobby_room}

abbrev pub hub : Hub
hub = record {
  ballot = record {
    session = playing_session (alice ∷ bob ∷ carol ∷ watcher ∷ []);
    vote_kick = none;
    cooldowns = [];
    timers = [];
    next_timer = 0;
  };
  joins = [];
  roles = [];
  ws_to_request = [];
  ws_to_player = [];
  player_to_room = [];
  timers = [];
  next_timer = 0;
}

handle_local_message-Hosted_example :
    Hosted (handle_local_message env 90 2 (vote_kick_msg 1) hub).hub
handle_local_message-Hosted_example =
    handle_local_message-Hosted env 90 2 (vote_kick_msg 1) hub (unfold get_player in refl) refl

handle_forwarded_message-handle_local_message_example :
    handle_forwarded_message env 90 1 (draw_msg fill (codes "{}")) hub
    ≡ (handle_local_message env 90 1 (draw_msg fill (codes "{}")) hub).hub
handle_forwarded_message-handle_local_message_example =
    handle_forwarded_message-handle_local_message env 90 1 (draw_msg fill (codes "{}")) hub alice
      (unfold get_player in refl) refl

-- Bob is no drawer; his fill is sent to all where it is forwarded, and to nobody where it is not.
abbrev outbox_length : Option Hub → ℕ
outbox_length none = 0
outbox_length (some h) = length h.ballot.session.outbox

forwarded_unchecked :
    (outbox_length (handle_forwarded_message env 90 2 (draw_msg fill (codes "{}")) hub) ≡ 1)
    × (outbox_length (handle_local_message env 90 2 (draw_msg fill (codes "{}")) hub).hub ≡ 0)
unfolding handle_forwarded_message handle_local_message get_player
forwarded_unchecked = (refl, refl)

-- Everybody is on the stream of queue 5.
abbrev one_stream : ℕ → Socket
one_stream websocket = virtual 5 (record { player_id = websocket; room_code = 77 })

abbrev sessions : ℕ → List ℕ
sessions room_code = if 77 == room_code then 13 ∷ 12 ∷ 11 ∷ [] else []

abbrev full_room : Room
full_room = lobby_room (alice ∷ bob ∷ carol ∷ [])

of_the_room : SameItems (sessions 77) (gateway_players one_stream full_room.players)
of_the_room w = ground arith

broadcast_room-reaches_example :
    SameItems
      (reached sessions (broadcast_room one_stream true (codes "stroke") full_room))
      (recipients full_room.players)
broadcast_room-reaches_example =
    broadcast_room-reaches one_stream true (codes "stroke") full_room sessions of_the_room

one_frame :
    broadcast_room one_stream true (codes "stroke") full_room
    ≡ to_stream 5 (record { player_id = 11; room_code = 77 }) 77 true ∷ []
unfolding broadcast_room mem_text text_eq
one_frame = refl

abbrev site : Site
site = record { hub = hub; waits = []; next_wait = 1 }

abbrev nothing_carried : ℕ → Option ℕ
nothing_carried w = none

-- Bob's stroke is passed on by the gateway too.
gateway_unchecked :
    outbox_length (dispatch_of_client env 90 2 (draw_msg stroke (codes "{}")) hub).hub ≡ 1
unfolding dispatch_of_client
gateway_unchecked = refl
