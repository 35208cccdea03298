-- ===== src/Selection.antt =====
-- backend/game_engine.py, `handle_word_selection`, and the coroutines that a room schedules.
pub mod Stall
pub mod Rules
pub mod Shift
use skribbl_app.Prelude.{
  ℕ, zero, suc, ◌+◌, ◌*◌, ◌/◌, Bool, true, false, not, ◌&&◌, ◌||◌, Option, none, some, List, [],
  ◌∷◌, ◌++◌, any, find, map, get_elem?, keep, ltb, ◌==◌, if◌then◌else◌,
}
use skribbl_app.Text.{Text, Unicode, text_eq, mem_text}
use skribbl_app.Random.{choice, next_draw}
use skribbl_app.Hints.{generate_initial_hint, reveal_hint_char}
use skribbl_app.Words.{select_word, word_to_pack, custom_info}
use skribbl_app.Models.{
  RoomState, playing, word_selection, state_eq, timer_expired, PackInfo, Player, TurnState, Room,
}
use skribbl_app.Session.{
  Env, second, Job, auto_select, reveal_hint, turn_timer, end_after_wait, Task, Session,
  turn_started, word_assigned, clear_canvas, hint_update, raised, index_error, is_pending, cancel,
  remove_task, create_task, emit, broadcast, send_to, set_room,
}
use skribbl_app.Turns.{cancel_auto_select, connected_count, end_game_immediate}
use skribbl_app.EndTurn.{end_turn}

-- The theme of a word: its pack's, or the custom one.
unfoldable pub theme_of : Unicode → Env → List Text → Text → Option PackInfo
unfolding word_to_pack text_eq
theme_of u env custom_words word = elim (word_to_pack u env.word_packs (u.lower word)) [
  | some info ↦ some info
  | none ↦
      if any (λ w. text_eq (u.lower w) (u.lower word)) custom_words then some custom_info else none
]

abbrev pub pending_words : Option (List Text) → List Text
pending_words none = []
pending_words (some words) = words

-- `TurnState(...)`; the three tasks are set at the end of the handler.
abbrev pub new_turn : Env → ℕ → ℕ → Text → List Text → List Text → TurnState
new_turn env serial drawer_id word choices custom_words = record {
  serial = serial;
  drawer_id = drawer_id;
  word = word;
  hint = generate_initial_hint word;
  start_time = env.now;
  word_choices = choices;
  timer_task = none;
  hint_task_40 = none;
  hint_task_70 = none;
  guess_order = [];
  theme = theme_of env.unicode env custom_words word;
}

abbrev pub clear_guessed : Player → Player
clear_guessed p = record p { has_guessed = false }

-- The room when the turn begins.
abbrev pub begin_turn : TurnState → Room → Room
begin_turn turn r = record r {
  turn = some turn;
  state = playing;
  players = map clear_guessed r.players;
  pending_word_choices = none;
  pending_packs = none;
}

-- The three tasks of the turn, due at 40%, 70% and 100% of its duration.
abbrev pub schedule_turn : Env → TurnState → Session → Session
schedule_turn env turn s =
    let ticks = s.room.config.turn_duration * second in
    let s40 = create_task (env.now + ticks * 4 / 10) (reveal_hint turn.serial) s in
    let s70 = create_task (env.now + ticks * 7 / 10) (reveal_hint turn.serial) s40 in
    let timed = create_task (env.now + ticks) (turn_timer turn.serial) s70 in
    set_room
      (λ r. record r {
        turn = some (record turn {
          hint_task_40 = some s.next_task;
          hint_task_70 = some s40.next_task;
          timer_task = some s70.next_task;
        });
      })
      timed

-- The steps once the drawer and the word are accepted. The counter of tasks names the turn object.
abbrev pub accept_word : Env → Player → Text → Session → Session
accept_word env drawer word s =
    let choices = pending_words s.room.pending_word_choices in
    let used = set_room (select_word word) (cancel_auto_select s) in
    let turn = new_turn env s.next_task drawer.id word choices s.room.config.custom_words in
    let begun = set_room (begin_turn turn) used in
    let started =
      broadcast
        (turn_started drawer.id turn.hint begun.room.config.turn_duration begun.room.current_round
          turn.theme)
        begun in
    let assigned = send_to drawer (word_assigned word) started in
    schedule_turn env turn (broadcast clear_canvas assigned)

abbrev pub selection_of : Env → Option Player → ℕ → Text → Session → Session
selection_of env none player_id word s = emit (raised index_error) s
selection_of env (some drawer) player_id word s =
    if not (player_id == drawer.id)
    then s
    else if not (mem_text word (pending_words s.room.pending_word_choices))
    then s
    else accept_word env drawer word s

unfoldable pub handle_word_selection : Env → ℕ → Text → Session → Session
unfolding select_word mem_text theme_of generate_initial_hint
handle_word_selection env player_id word s =
    selection_of env (get_elem? s.room.players s.room.drawer_index) player_id word s

-- `room.turn is not None and room.turn is turn_state and room.state == RoomState.PLAYING`
abbrev pub live_of : ℕ → RoomState → Option TurnState → Option TurnState
live_of serial state none = none
live_of serial state (some turn) =
    if (turn.serial == serial) && state_eq state playing then some turn else none

abbrev pub show_hint : TurnState → Option Text → Session → Session
show_hint turn none s = emit (raised index_error) s
show_hint turn (some hint) s =
    broadcast (hint_update hint)
      (set_room (λ r. record r { turn = some (record turn { hint = hint }) }) s)

abbrev pub choose_for : Env → ℕ → Option Text → Session → Session
choose_for env drawer_id none s = emit (raised index_error) s
choose_for env drawer_id (some word) s = handle_word_selection env drawer_id word s

abbrev pub choose_from : Env → ℕ → Option (List Text) → Session → Session
choose_from env drawer_id none s = s
choose_from env drawer_id (some words) s =
    choose_for env drawer_id (choice (next_draw env.draws) words) s

abbrev pub reveal_in : Env → Option TurnState → Session → Session
reveal_in env none s = s
reveal_in env (some turn) s =
    show_hint turn (reveal_hint_char (next_draw env.draws) turn.hint turn.word) s

abbrev pub time_out : Env → Option TurnState → Session → Session
time_out env none s = s
time_out env (some turn) s = end_turn env timer_expired s

-- What a coroutine does after its sleep.
unfoldable pub run_job : Env → Job → Session → Session
unfolding handle_word_selection reveal_hint_char choice end_turn end_game_immediate
run_job env (auto_select drawer_id) s =
    if state_eq s.room.state word_selection
    then choose_from env drawer_id s.room.pending_word_choices s
    else s
run_job env (reveal_hint serial) s = reveal_in env (live_of serial s.room.state s.room.turn) s
run_job env (turn_timer serial) s = time_out env (live_of serial s.room.state s.room.turn) s
run_job env end_after_wait s =
    let after = if ltb (connected_count s.room) 2 then end_game_immediate s else s in
    set_room (λ r. record r { insufficient_players_task = none }) after

-- A task that is due runs, and is done when its coroutine ends.
unfoldable pub run_task : Env → ℕ → Session → Session
unfolding run_job
run_task env id s = elim (find (λ t. t.id == id) s.tasks) [
  | none ↦ s
  | some task ↦
      let after = run_job env task.job s in record after { tasks = remove_task id after.tasks }
]
