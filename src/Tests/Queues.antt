-- ===== src/Tests/Queues.antt =====
-- Tests of the queue of a stream.
use skribbl_app.Prelude.{none, ◌≤◌, ◌≡◌, refl, true, false, List, [], ◌∷◌, ◌++◌, arith, length}
use skribbl_app.Text.{Text, codes}
use skribbl_app.Transport.{Transport, send_text, send_room}
use skribbl_app.Transport.Delivery.{Send, send_all, payloads, texts, send_all-delivers}

abbrev transport : Transport
transport = record { player_id = 1; room_code = 77 }

abbrev strokes : List Send
strokes =
    record { text = codes "a"; lossy = true; to_room = true; room_code = none }
    ∷ record { text = codes "b"; lossy = true; to_room = true; room_code = none }
    ∷ record { text = codes "c"; lossy = true; to_room = true; room_code = none }
    ∷ []

abbrev results : List Send
results =
    record { text = codes "word"; lossy = false; to_room = false; room_code = none }
    ∷ record { text = codes "over"; lossy = false; to_room = true; room_code = none }
    ∷ []

send_all-delivers_example :
    (length (send_all 2 transport strokes []) ≤ 2)
    × (front : List Text) × (payloads
          (send_all 2 transport results (send_all 2 transport strokes []))
        ≡ front ++ texts results)
send_all-delivers_example =
    send_all-delivers 2 transport strokes results [] (omega arith) (omega arith) (refl, (refl, tt))
      (omega arith)

-- A message that must be delivered displaces an older one that must be delivered too.
displaced : payloads (send_all 1 transport results []) ≡ codes "over" ∷ []
unfolding send_text send_room
displaced = refl
