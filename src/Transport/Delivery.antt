-- ===== src/Transport/Delivery.antt =====
-- What the bounded queue delivers.
use skribbl_app.Prelude.{
  append_nil, append_assoc, Option, ℕ, suc, ◌+◌, ◌≤◌, ◌<◌, ◌≡◌, refl, sym, ap, ◌∙◌, inl, inr, Bool,
  false, Bool-cases, List, [], ◌∷◌, ◌++◌, arith, length, length-append, if◌then◌else◌,
}
use skribbl_app.Text.{Text}
use skribbl_app.Transport.{Frame, Transport, is_full, enqueue, send_text, send_room}

-- A message that is sent: its text, whether it may be lost, and whether it is for a whole room,
-- and for which.
pub record Send : Type 0 where
  pub text : Text
  pub lossy : Bool
  pub to_room : Bool
  pub room_code : Option ℕ

abbrev pub send : ℕ → Transport → Send → List Frame → List Frame
send size transport m queue =
    if m.to_room
    then send_room size transport m.text m.room_code m.lossy queue
    else send_text size transport m.text m.lossy queue

abbrev pub send_all : ℕ → Transport → List Send → List Frame → List Frame
send_all size transport [] queue = queue
send_all size transport (m ∷ messages) queue =
    send_all size transport messages (send size transport m queue)

abbrev pub payloads : List Frame → List Text
payloads [] = []
payloads (frame ∷ queue) = frame.payload ∷ payloads queue

abbrev pub texts : List Send → List Text
texts [] = []
texts (m ∷ messages) = m.text ∷ texts messages

abbrev pub MustDeliver : List Send → Type 0
MustDeliver [] = Unit
MustDeliver (m ∷ messages) = (m.lossy ≡ false) × MustDeliver messages

payloads-append : (a b : List Frame) → payloads (a ++ b) ≡ payloads a ++ payloads b
payloads-append [] b = refl
payloads-append (x ∷ a) b = ap (λ l. x.payload ∷ l) (payloads-append a b)

enqueue-le :
    (size : ℕ) (frame : Frame) (lossy : Bool) (queue : List Frame)
    → 0 < size
    → length queue ≤ size
    → length (enqueue size frame lossy queue) ≤ size
unfolding enqueue
enqueue-le size frame lossy [] pos h = ground arith
enqueue-le size frame lossy (x ∷ queue) pos h =
    ground (arith, length-append queue (frame ∷ []), length-append (x ∷ queue) (frame ∷ []))

length-payloads : (queue : List Frame) → length (payloads queue) ≡ length queue
length-payloads [] = refl
length-payloads (x ∷ queue) = ap suc (length-payloads queue)

drop_first :
    (x : Text) (rest front sent : List Text)
    → x ∷ rest ≡ front ++ sent
    → length sent < length (x ∷ rest)
    → (front' : List Text) × (rest ≡ front' ++ sent)
drop_first x rest [] sent e h = absurd (omega (arith, h, ap length e))
drop_first x rest (y ∷ front) sent e h = (front, cc)

put_last :
    (queue : List Frame) (frame : Frame) (front sent : List Text)
    → payloads queue ≡ front ++ sent
    → payloads (queue ++ frame ∷ []) ≡ front ++ (sent ++ frame.payload ∷ [])
put_last queue frame front sent e =
    payloads-append queue (frame ∷ [])
    ∙ ap (λ l. l ++ frame.payload ∷ []) e
    ∙ append_assoc front sent (frame.payload ∷ [])

-- A message that must be delivered is put behind the newest ones, which are all kept.
enqueue_last :
    (size : ℕ) (frame : Frame) (queue : List Frame) (front sent : List Text)
    → payloads queue ≡ front ++ sent
    → length sent < size
    → length queue ≤ size
    → (front' : List Text) × (payloads (enqueue size frame false queue)
        ≡ front' ++ (sent ++ frame.payload ∷ []))
unfolding enqueue
enqueue_last size frame [] front sent e room h =
    let empty : is_full size [] ≡ false = ground arith in
    rw empty (front, put_last [] frame front sent e)
enqueue_last size frame (x ∷ queue) front sent e room h =
    elim (Bool-cases (is_full size (x ∷ queue))) [
      | inr free ↦ rw free (front, put_last (x ∷ queue) frame front sent e)
      | inl full ↦
          let (front', e') =
            drop_first x.payload (payloads queue) front sent e
              (ground (arith, length-payloads queue)) in
          let fits : is_full size queue ≡ false = ground arith in
          rw (full, fits) (front', put_last queue frame front' sent e')
    ]

module _ (size : ℕ) (transport : Transport) where
  send-le :
      (m : Send) (queue : List Frame)
      → 0 < size
      → length queue ≤ size
      → length (send size transport m queue) ≤ size
  unfolding send_text send_room
  send-le m queue pos h = elim (Bool-cases m.to_room) [
    | inl e ↦ rw e (enqueue-le size _ m.lossy queue pos h)
    | inr e ↦ rw e (enqueue-le size _ m.lossy queue pos h)
  ]

  send_last :
      (m : Send) (queue : List Frame) (front sent : List Text)
      → m.lossy ≡ false
      → payloads queue ≡ front ++ sent
      → length sent < size
      → length queue ≤ size
      → (front' : List Text) × (payloads (send size transport m queue)
          ≡ front' ++ (sent ++ m.text ∷ []))
  unfolding send_text send_room
  send_last m queue front sent must e room h = elim (Bool-cases m.to_room) [
    | inl r ↦ rw (must, r) (enqueue_last size _ queue front sent e room h)
    | inr r ↦ rw (must, r) (enqueue_last size _ queue front sent e room h)
  ]

  send_all_after :
      (messages : List Send) (queue : List Frame) (front sent : List Text)
      → MustDeliver messages
      → payloads queue ≡ front ++ sent
      → length sent + length messages ≤ size
      → length queue ≤ size
      → (front' : List Text) × (payloads (send_all size transport messages queue)
          ≡ front' ++ (sent ++ texts messages))
  send_all_after [] queue front sent must e room h =
      (front, e ∙ ap (λ l. front ++ l) (sym (append_nil sent)))
  send_all_after (m ∷ messages) queue front sent must e room h =
      let (front1, e1) = send_last m queue front sent must.0 e (omega arith) h in
      let (front2, e2) =
        send_all_after messages (send size transport m queue) front1 (sent ++ m.text ∷ []) must.1 e1
          (omega (arith, length-append sent (m.text ∷ []))) (send-le m queue (omega arith) h) in
      (front2, e2 ∙ ap (λ l. front2 ++ l) (append_assoc sent (m.text ∷ []) (texts messages)))

  send_all-le :
      (messages : List Send) (queue : List Frame)
      → 0 < size
      → length queue ≤ size
      → length (send_all size transport messages queue) ≤ size
  send_all-le [] queue pos h = h
  send_all-le (m ∷ messages) queue pos h =
      send_all-le messages (send size transport m queue) pos (send-le m queue pos h)

-- A queue with a positive bound, which is kept at first, still keeps it whatever messages are sent.
-- Where after them only messages are sent that must be delivered, without another kind among them, and
-- no more than the queue has places, these all stand in the queue, in the order in which they were sent
-- and behind everything else.
pub send_all-delivers :
    (size : ℕ) (transport : Transport) (before messages : List Send) (queue : List Frame)
    → 0 < size
    → length queue ≤ size
    → MustDeliver messages
    → length messages ≤ size
    → (length (send_all size transport before queue) ≤ size)
      × (front : List Text) × (payloads
            (send_all size transport messages (send_all size transport before queue))
          ≡ front ++ texts messages)
send_all-delivers size transport before messages queue pos h must room =
    let bound = send_all-le size transport before queue pos h in
    let start = send_all size transport before queue in
    let (front, is) =
      send_all_after size transport messages start (payloads start) [] must
        (sym (append_nil (payloads start))) (omega (arith, room)) bound in
    (bound, front, is)
