-- ===== src/Selection/Stall.antt =====
-- A turn that ends with fewer than two active players while at least two players are connected,
-- spectators among them: nothing that happens in the room brings the game on.
use mathlib.Core.Path.{subst}
use skribbl_app.Prelude.{
  ℕ, ◌*◌, ◌≤◌, ◌<◌, ◌≡◌, refl, inl, inr, true, false, Bool-cases, Option, none, some, List, [], ◌∷◌,
  get_elem?, arith, ltb, not, ap, sym, ◌==◌, if◌then◌else◌,
}
use skribbl_app.Text.{Text, mem_text}
use skribbl_app.Models.{playing, TurnEndReason, Player, TurnState}
use skribbl_app.Session.{
  Env, Job, auto_select, reveal_hint, turn_timer, end_after_wait, Session, second,
}
use skribbl_app.Turns.{connected_count, active_count, advance_turn_or_round, start_countdown}
use skribbl_app.EndTurn.{end_turn, end_turn_of, close_turn}
use skribbl_app.EndTurn.Counts.{count-tally_for, is_active-Untouched, is_connected-Untouched}
use skribbl_app.Guess.{active_of, guess_in, chat_in, handle_guess, handle_chat}
use skribbl_app.Selection.{
  pending_words, accept_word, selection_of, handle_word_selection, live_of, reveal_in, time_out,
  run_job,
}

-- What can happen in a room whose players stay connected.
pub data Event : Type 0 where
  guess : Env → ℕ → Text → Event
  chat : Env → ℕ → Text → Event
  select : Env → ℕ → Text → Event
  fire : Env → Job → Event

abbrev pub handle : Event → Session → Session
handle (guess env id text) s = handle_guess env id text s
handle (chat env id text) s = handle_chat env id text s
handle (select env id word) s = handle_word_selection env id word s
handle (fire env job) s = run_job env job s

abbrev pub handle_all : List Event → Session → Session
handle_all [] s = s
handle_all (e ∷ events) s = handle_all events (handle e s)

-- The room plays, and has no turn.
pub record Stalled (s : Session) : Type 0 where
  pub state : s.room.state ≡ playing
  pub no_turn : s.room.turn ≡ none
  pub connected : 2 ≤ connected_count s.room
  pub no_offer : s.room.pending_word_choices ≡ none

module _ (env : Env) (s : Session) (h : Stalled s) where
  guess_ignored : (id : ℕ) (text : Text) → handle_guess env id text s ≡ s
  unfolding handle_guess
  guess_ignored id text = ap (λ o. guess_in env id text (active_of s.room.state o) s) h.no_turn

  chat_ignored : (id : ℕ) (text : Text) → handle_chat env id text s ≡ s
  unfolding handle_chat
  chat_ignored id text = ap (λ o. chat_in env id text (active_of s.room.state o) s) h.no_turn

  select_ignored : (id : ℕ) (word : Text) (p : Player) → selection_of env (some p) id word s ≡ s
  unfolding mem_text
  select_ignored id word p = elim (Bool-cases (not (id == p.id))) [
    | inl e ↦ rw e refl
    | inr e ↦ rw e (
        ap (λ o. if not (mem_text word (pending_words o)) then s else accept_word env p word s)
          h.no_offer)
  ]

  select-Stalled : (id : ℕ) (word : Text) → Stalled (handle_word_selection env id word s)
  unfolding handle_word_selection
  select-Stalled id word = drawn (get_elem? s.room.players s.room.drawer_index)
    where
      drawn : (o : Option Player) → Stalled (selection_of env o id word s)
      drawn none = record {
        state = h.state;
        no_turn = h.no_turn;
        connected = h.connected;
        no_offer = h.no_offer;
      }
      drawn (some p) = rw (select_ignored id word p) h

  fire-Stalled : (job : Job) → Stalled (run_job env job s)
  unfolding run_job
  fire-Stalled (auto_select id) = simp h.state h
  fire-Stalled (reveal_hint k) =
      subst (λ o. Stalled (reveal_in env (live_of k s.room.state o) s)) (sym h.no_turn) h
  fire-Stalled (turn_timer k) =
      subst (λ o. Stalled (time_out env (live_of k s.room.state o) s)) (sym h.no_turn) h
  fire-Stalled end_after_wait =
      let enough : ltb (connected_count s.room) 2 ≡ false = ground (arith, h.connected) in
      rw enough (record {
        state = h.state;
        no_turn = h.no_turn;
        connected = h.connected;
        no_offer = h.no_offer;
      })

handle-Stalled : (e : Event) (s : Session) → Stalled s → Stalled (handle e s)
handle-Stalled (guess env id text) s h = rw (guess_ignored env s h id text) h
handle-Stalled (chat env id text) s h = rw (chat_ignored env s h id text) h
handle-Stalled (select env id word) s h = select-Stalled env s h id word
handle-Stalled (fire env job) s h = fire-Stalled env s h job

pub handle_all-Stalled :
    (events : List Event) (s : Session) → Stalled s → Stalled (handle_all events s)
handle_all-Stalled [] s h = h
handle_all-Stalled (e ∷ events) s h = handle_all-Stalled events (handle e s) (handle-Stalled e s h)

module _ (env : Env) where
  countdown-Stalled : (o : Option ℕ) (s : Session) → Stalled s → Stalled (start_countdown env o s)
  countdown-Stalled none s h = record {
    state = h.state;
    no_turn = h.no_turn;
    connected = h.connected;
    no_offer = h.no_offer;
  }
  countdown-Stalled (some task) s h = h

  advance-Stalled :
      (s : Session) → Stalled s → active_count s.room < 2 → Stalled (advance_turn_or_round env s)
  unfolding advance_turn_or_round
  advance-Stalled s h few =
      let too_few : ltb (active_count s.room) 2 ≡ true = ground arith in
      rw too_few (countdown-Stalled s.room.insufficient_players_task s h)

-- A turn of a playing room ends with fewer than two active players and at least two connected ones,
-- spectators among them, when no words are offered. Then the room goes on playing with no turn,
-- whatever guesses, chats and word selections come and whatever tasks run after that, at any times
-- and in any order.
pub end_turn-Stalled :
    (env : Env) (reason : TurnEndReason) (turn : TurnState) (s : Session) (events : List Event)
    → s.room.turn ≡ some turn
    → s.room.state ≡ playing
    → s.room.pending_word_choices ≡ none
    → active_count s.room < 2
    → 2 ≤ connected_count s.room
    → Stalled (handle_all events (end_turn env reason s))
unfolding end_turn
end_turn-Stalled env reason turn s events running state no_offer few many =
    let duration = s.room.config.turn_duration * second in
    let same_active =
      count-tally_for is_active-Untouched reason env.now duration turn s.room.players in
    let same_connected =
      count-tally_for is_connected-Untouched reason env.now duration turn s.room.players in
    let closed : Stalled (close_turn env reason turn s) = record {
      state = state;
      no_turn = refl;
      connected = omega (arith, same_connected);
      no_offer = no_offer;
    } in
    handle_all-Stalled events (end_turn env reason s) (
      subst (λ o. Stalled (end_turn_of env reason o s)) (sym running)
        (advance-Stalled env (close_turn env reason turn s) closed (omega (arith, same_active))))
