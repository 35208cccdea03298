-- ===== src/Turns.antt =====
-- backend/game_engine.py, `start_turn` and `advance_turn_or_round`, and the countdown of
-- backend/room_manager.py, `_end_game_insufficient_players` and its `_immediate` form.
pub mod Advance
pub mod Outcome
use skribbl_app.Prelude.{
  ℕ, zero, suc, ◌+◌, ◌*◌, Bool, true, false, Option, none, some, List, length, get_elem?, count_if,
  ltb, leb, if◌then◌else◌,
}
use skribbl_app.Words.{draw_word_pack_choices, offered_words}
use skribbl_app.Models.{word_selection, game_over, Player, TurnState, Room, is_active}
use skribbl_app.GameOver.{build_game_over_payload}
use skribbl_app.Session.{
  Env, second, Session, auto_select, end_after_wait, word_choices, drawer_selecting, over,
  waiting_for_reconnect, game_ended_insufficient_players, raised, index_error, is_pending, cancel,
  create_task, emit, broadcast, send_to, set_room,
}

-- `len([p for p in room.players if p.is_connected])`
abbrev pub connected_count : Room → ℕ
connected_count room = count_if (λ p. p.is_connected) room.players

-- The same, without the spectators.
abbrev pub active_count : Room → ℕ
active_count room = count_if is_active room.players

-- `start_turn` from the lookup of the drawer on.
abbrev pub start_turn_of : Env → Option Player → Session → Session
start_turn_of env none s = emit (raised index_error) s
start_turn_of env (some drawer) s =
    let (packs, choices) = draw_word_pack_choices env.draws env.word_packs s.room 3 3 in
    let offered =
      set_room
        (λ r. record r {
          pending_word_choices = some (offered_words packs);
          pending_packs = some packs;
        })
        s in
    let told = send_to drawer (word_choices choices packs) offered in
    let selecting = set_room (λ r. record r { state = word_selection }) told in
    let announced = broadcast (drawer_selecting drawer.id drawer.name) selecting in
    let scheduled = create_task (env.now + 15 * second) (auto_select drawer.id) announced in
    set_room (λ r. record r { auto_select_task = some announced.next_task }) scheduled

unfoldable pub start_turn : Env → Session → Session
unfolding draw_word_pack_choices
start_turn env s = start_turn_of env (get_elem? s.room.players s.room.drawer_index) s

-- `_end_game_insufficient_players`: a countdown of 20 seconds, unless one runs.
abbrev pub start_countdown : Env → Option ℕ → Session → Session
start_countdown env (some task) s = s
start_countdown env none s =
    let warned = broadcast (waiting_for_reconnect 20) s in
    let scheduled = create_task (env.now + 20 * second) end_after_wait warned in
    set_room (λ r. record r { insufficient_players_task = some warned.next_task }) scheduled

unfoldable pub end_game_insufficient_players : Env → Session → Session
end_game_insufficient_players env s = start_countdown env s.room.insufficient_players_task s

-- The three tasks of a turn are cancelled.
abbrev pub cancel_turn_tasks : TurnState → Session → Session
cancel_turn_tasks turn s = record s {
  tasks = cancel turn.hint_task_70 (cancel turn.hint_task_40 (cancel turn.timer_task s.tasks));
}

abbrev pub drop_turn : Option TurnState → Session → Session
drop_turn none s = s
drop_turn (some turn) s = set_room (λ r. record r { turn = none }) (cancel_turn_tasks turn s)

-- The automatic selection is cancelled and forgotten, if it is pending.
abbrev pub cancel_auto_select : Session → Session
cancel_auto_select s =
    if is_pending s.room.auto_select_task s.tasks
    then record s {
      tasks = cancel s.room.auto_select_task s.tasks;
      room = record s.room { auto_select_task = none };
    }
    else s

-- `_end_game_insufficient_players_immediate`
unfoldable pub end_game_immediate : Session → Session
end_game_immediate s =
    let cleared = cancel_auto_select (drop_turn s.room.turn s) in
    broadcast game_ended_insufficient_players
      (set_room (λ r. record r { state = game_over }) cleared)

-- The end of a game whose rounds are complete or whose players are gone.
unfoldable pub finish_game : Session → Session
unfolding build_game_over_payload
finish_game s =
    let ended = set_room (λ r. record r { state = game_over }) s in
    let (payload, room) = build_game_over_payload ended.room in
    broadcast (over payload) (record ended { room = room })

-- Where the search for the next drawer ends: at a drawer, at the end of the last round, or after
-- as many attempts as there are players. An index out of range raises IndexError.
pub data Rotation : Type 0 where
  drawer_at : (index round : ℕ) → Rotation
  rounds_complete : (index round : ℕ) → Rotation
  nobody : (index round : ℕ) → Rotation
  out_of_range : (index round : ℕ) → Rotation

-- The `while` loop, on the attempts that are left.
abbrev pub next_drawer : ℕ → ℕ → List Player → ℕ → ℕ → Rotation
next_drawer zero num_rounds players index round = nobody index round
next_drawer (suc attempts) num_rounds players index round =
    let go_on = next_drawer attempts num_rounds players (index + 1) round in
    let go_round = next_drawer attempts num_rounds players 0 (round + 1) in
    elim (get_elem? players index) [
      | none ↦ out_of_range index round
      | some p ↦
          if is_active p
          then drawer_at index round
          else if leb (length players) (index + 1)
          then (if ltb num_rounds (round + 1) then rounds_complete 0 (round + 1) else go_round)
          else go_on
    ]

abbrev pub at_turn : ℕ → ℕ → Room → Room
at_turn index round r = record r { drawer_index = index; current_round = round }

abbrev pub follow : Env → Rotation → Session → Session
follow env (drawer_at index round) s = start_turn env (set_room (at_turn index round) s)
follow env (rounds_complete index round) s = finish_game (set_room (at_turn index round) s)
follow env (nobody index round) s = finish_game (set_room (at_turn index round) s)
follow env (out_of_range index round) s =
    emit (raised index_error) (set_room (at_turn index round) s)

-- The turn after the increment of `drawer_index` and, at the end of the list, of the round.
abbrev pub advance_from : Env → ℕ → ℕ → Session → Session
advance_from env index round s =
    if ltb s.room.config.num_rounds round
    then follow env (rounds_complete index round) s
    else follow env
        (next_drawer (length s.room.players) s.room.config.num_rounds s.room.players index round) s

unfoldable pub advance_turn_or_round : Env → Session → Session
unfolding end_game_insufficient_players
advance_turn_or_round env s =
    let room = s.room in
    if ltb (active_count room) 2
    then end_game_insufficient_players env s
    else if leb (length room.players) (room.drawer_index + 1)
    then advance_from env 0 (room.current_round + 1) s
    else advance_from env (room.drawer_index + 1) room.current_round s
