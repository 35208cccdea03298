-- ===== src/Tests/Losses.antt =====
-- Tests of players who lose their connection.
use skribbl_app.Prelude.{Option, none, List, ◌≡◌, refl, some, [], ◌∷◌, arith}
use skribbl_app.Text.{codes, text_eq}
use skribbl_app.Models.Lookup.{OnlyName}
use skribbl_app.Presence.RoundTrip.{Back, handle_reconnect-handle_disconnect}
use skribbl_app.Session.{idle, Session}
use skribbl_app.Presence.{Hall, Wait, clean_up, room_of, handle_disconnect}
use skribbl_app.Presence.Return.{reassign_host, handle_reconnect}
use skribbl_app.Presence.Succession.{HostOnline, reassign_host-HostOnline}
use skribbl_app.Tests.Samples.{alice, bob, carol, watcher, env, playing_session, lobby_room}

abbrev four : Session
four = playing_session (alice ∷ bob ∷ carol ∷ watcher ∷ [])

abbrev hall : Hall
hall = record {
  ballot = record { session = four; vote_kick = none; cooldowns = []; timers = []; next_timer = 0 };
  waits = [];
  next_wait = 0;
}

reassign_host-HostOnline_example :
    (after : Hall) × (reassign_host 1 hall ≡ some after) × HostOnline (room_of after)
reassign_host-HostOnline_example = reassign_host-HostOnline 1 hall refl (omega arith)

-- Carol loses her connection twice, as when the gateway reports it twice, and comes back: a clean-up
-- is still pending, and removes her although she is connected.
abbrev twice : Option Hall → Option Hall
twice none = none
twice (some h) = handle_disconnect env 3 h

abbrev back : Option Hall → List Wait
back none = []
back (some h) = (handle_reconnect (codes "carol") 33 none h).1.waits

orphan :
    back (twice (handle_disconnect env 3 hall))
    ≡ record { id = 0; kind = clean_up; player_id = 3; due = 160_000_000 } ∷ []
unfolding handle_disconnect handle_reconnect
orphan = refl

abbrev waiting : Hall
waiting = record hall {
  ballot = record hall.ballot { session = idle (lobby_room (alice ∷ bob ∷ carol ∷ [])) };
}

only_bob : OnlyName 2 (codes "bob") (room_of waiting).players
unfolding text_eq
only_bob = (refl, (refl, (refl, tt)))

handle_reconnect-handle_disconnect_example :
    (after : Hall) × (handle_disconnect env 2 waiting ≡ some after)
    × Back 2 55 bob waiting (handle_reconnect (codes "bob") 55 none after)
handle_reconnect-handle_disconnect_example =
    handle_reconnect-handle_disconnect env 2 55 none bob waiting refl only_bob refl (omega arith)
      refl
