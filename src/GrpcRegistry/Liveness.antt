-- ===== src/GrpcRegistry/Liveness.antt =====
-- How long the gateway sees a worker as alive.
use skribbl_app.Prelude.{
  ℕ, ◌+◌, ◌*◌, ◌≤◌, ◌<◌, ◌≡◌, refl, Bool, true, false, some, List, [], ◌∷◌, arith, length,
}
use skribbl_app.Text.{Text}
use skribbl_app.GrpcRegistry.{
  Registration, both, register_grpc_worker, refresh, refresh_rounds, refresh_interval, is_alive,
}

-- No two rounds in a row fail, and the first does not where `failed` is.
abbrev pub NeverTwice : (failed : Bool) → List Bool → Type 0
NeverTwice failed [] = Unit
NeverTwice failed (true ∷ rounds) = NeverTwice false rounds
NeverTwice true (false ∷ rounds) = ⊥
NeverTwice false (false ∷ rounds) = NeverTwice true rounds

-- The time that the key has at least, one round after its last refresh or two.
abbrev left_at : Bool → ℕ
left_at true = 2
left_at false = 3

-- The key stands for so long from now.
abbrev Stands : ℕ → Bool → Registration → Type 0
Stands now failed r =
    (t : ℕ) × (r.redis.alive_until ≡ some t) × (now + left_at failed * refresh_interval ≤ t)

Stands-alive :
    (now later : ℕ) (failed : Bool) (r : Registration)
    → Stands now failed r
    → later < now + 2 * refresh_interval
    → is_alive later r ≡ true
Stands-alive now later true r (t, e, h) soon = rw e (ground arith)
Stands-alive now later false r (t, e, h) soon = rw e (ground arith)

rounds-alive :
    (rounds : List Bool) (now later : ℕ) (failed : Bool) (r : Registration)
    → NeverTwice failed rounds
    → Stands now failed r
    → later < now + (length rounds + 2) * refresh_interval
    → is_alive later (refresh_rounds now rounds r) ≡ true
unfolding refresh_rounds refresh
rounds-alive [] now later failed r never stands soon =
    Stands-alive now later failed r stands (omega arith)
rounds-alive (true ∷ rounds) now later failed r never stands soon =
    rounds-alive rounds (now + refresh_interval) later false
      (refresh (now + refresh_interval) true r) never (_, refl, omega arith) (omega arith)
rounds-alive (false ∷ rounds) now later true r never stands soon = absurd never
rounds-alive (false ∷ rounds) now later false r never (t, e, h) soon =
    rounds-alive rounds (now + refresh_interval) later true r never (t, e, omega arith)
      (omega arith)

-- A worker that has registered with success, and whose refreshes never fail twice in a row, is alive
-- for the gateway from its registration until two rounds after the last refresh that was tried.
pub refresh_rounds-register_grpc_worker :
    (now later : ℕ) (hostname : Text) (port : ℕ) (rounds : List Bool) (r : Registration)
    → NeverTwice false rounds
    → later < now + (length rounds + 2) * refresh_interval
    → is_alive later
        (refresh_rounds now rounds (register_grpc_worker now true hostname port both r))
      ≡ true
unfolding register_grpc_worker
refresh_rounds-register_grpc_worker now later hostname port rounds r never soon =
    rounds-alive rounds now later false (register_grpc_worker now true hostname port both r) never
      (_, refl, omega arith) soon
