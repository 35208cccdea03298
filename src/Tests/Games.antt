-- ===== src/Tests/Games.antt =====
-- Tests of the turns: selection, guesses, the end of a turn and the step to the next.
use skribbl_app.Prelude.{◌≡◌, refl, false, some, none, List, [], ◌∷◌, arith}
use skribbl_app.Text.{codes, mem_text}
use skribbl_app.Models.{remove_player, timer_expired}
use skribbl_app.Selection.Shift.{handle_word_selection-remove_player}
use skribbl_app.Session.{auto_select, set_room, Session, is_pending, turn_timer}
use skribbl_app.Turns.{advance_turn_or_round}
use skribbl_app.Turns.Outcome.{GoesOn, advance_turn_or_round-GoesOn}
use skribbl_app.EndTurn.{end_turn}
use skribbl_app.EndTurn.Stop.{end_turn-Gone}
use skribbl_app.Guess.{handle_guess}
use skribbl_app.Guess.Order.{FairTurn, handle_guess-IsFair}
use skribbl_app.Selection.{run_job, handle_word_selection}
use skribbl_app.Selection.Rules.{Settled, handle_word_selection-Settled}
use skribbl_app.Selection.Stall.{Event, guess, fire, Stalled, handle_all, end_turn-Stalled}
use skribbl_app.Tests.Samples.{
  alice, bob, carol, watcher, env, cat_turn, playing_session, choosing_session,
}

abbrev three : Session
three = playing_session (alice ∷ bob ∷ carol ∷ [])

advance_turn_or_round-GoesOn_example : GoesOn env three (advance_turn_or_round env three)
advance_turn_or_round-GoesOn_example =
    advance_turn_or_round-GoesOn env three
      (record { index_in_range = omega arith; round_to_play = omega arith }) (omega arith)

end_turn-Gone_example :
    ((end_turn env timer_expired three).room.turn ≡ none)
    × (is_pending (some 2) (end_turn env timer_expired three).tasks ≡ false)
    × (is_pending (some 0) (end_turn env timer_expired three).tasks ≡ false)
    × (is_pending (some 1) (end_turn env timer_expired three).tasks ≡ false)
end_turn-Gone_example =
    end_turn-Gone env timer_expired cat_turn three 2 0 1 refl
      (record { timer_task = refl; hint_40 = refl; hint_70 = refl; created = omega arith })

handle_guess-IsFair_example :
    FairTurn
      (handle_guess env 2 (codes " CAT ") three).room.players
      (handle_guess env 2 (codes " CAT ") three).room.turn
handle_guess-IsFair_example =
    handle_guess-IsFair env 2 (codes " CAT ") three
      (record { marked = λ id m. cc; distinct = tt; not_drawer = refl })

abbrev choosing : Session
choosing = choosing_session (alice ∷ bob ∷ [])

-- The automatic selection of the words is task 0, and is pending.
abbrev waited_for : Session
waited_for = record choosing {
  room = record choosing.room { auto_select_task = some 0 };
  tasks = record { id = 0; job = auto_select 1; due = 15_000_000 } ∷ [];
  next_task = 1;
}

handle_word_selection-Settled_example :
    Settled env 0 (handle_word_selection env alice.id (codes "cat") waited_for)
unfolding mem_text
handle_word_selection-Settled_example =
    handle_word_selection-Settled env env alice (codes "cat") waited_for 0 refl refl refl
      (omega arith)

-- A player draws for a spectator, and nobody else is there.
abbrev watched : Session
watched = playing_session (alice ∷ watcher ∷ [])

abbrev later : List Event
later = guess env 4 (codes "cat") ∷ fire env (turn_timer 0) ∷ []

end_turn-Stalled_example : Stalled (handle_all later (end_turn env timer_expired watched))
end_turn-Stalled_example =
    end_turn-Stalled env timer_expired cat_turn watched later refl refl refl (omega arith)
      (omega arith)

-- Alice, the second of three, chooses a word, and bob, the first, is removed.
abbrev second_chooses : Session
second_chooses =
    set_room (λ r. record r { drawer_index = 1 }) (choosing_session (bob ∷ alice ∷ carol ∷ []))

handle_word_selection-remove_player_example :
    ((handle_word_selection env 1 (codes "cat") (set_room (remove_player 2) second_chooses)).room
      ≡ remove_player 2 second_chooses.room)
    × ((run_job env (auto_select 1) (set_room (remove_player 2) second_chooses)).room
        ≡ remove_player 2 second_chooses.room)
handle_word_selection-remove_player_example =
    handle_word_selection-remove_player env 2 (bob ∷ []) (carol ∷ []) alice (codes "cat")
      second_chooses refl refl refl (omega arith) (omega arith, tt)
