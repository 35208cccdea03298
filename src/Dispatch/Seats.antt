-- ===== src/Dispatch/Seats.antt =====
-- The host and the seats of a room over the game's own messages.
use skribbl_app.Prelude.{
  ℕ, refl, ap, ◌∙◌, inl, inr, Bool, Bool-cases, Option, none, some, [], ◌∷◌, ◌++◌, arith, get_elem?,
  ◌==◌,
}
use skribbl_app.Text.{Text}
use skribbl_app.Models.{all_guessed, Player, TurnState, Room, get_player, modify_player}
use skribbl_app.Words.{select_word}
use skribbl_app.Session.{Env, Session, Message, guess_correct, broadcast}
use skribbl_app.Turns.{start_turn, end_game_immediate, cancel_auto_select, drop_turn}
use skribbl_app.Selection.{handle_word_selection, selection_of, accept_word, clear_guessed}
use skribbl_app.Guess.{
  handle_guess, guess_in, guess_by, guess_of, correct_guess, wrong_guess, active_turn, mark_guessed,
  handle_chat, chat_in, chat_by,
}
use skribbl_app.Lobby.Host.{HasHost, is_member, member-map, member-modify}
use skribbl_app.Kick.Seats.{
  SameSeats, SameSeats-trans, same, end_turn-SameSeats, start_turn_of-SameSeats,
}
use skribbl_app.Dispatch.{chat, lobby_chat, react, tell_typing, stop_waiting, end_game_now, draw}

pub SameSeats-HasHost : {r t : Room} → SameSeats r t → HasHost r → HasHost t
SameSeats-HasHost {r} {t} k h = ap (λ i. is_member i t.players) k.host ∙ k.members r.host_id ∙ h

module _ (env : Env) where
  pub start_turn-SameSeats : (s : Session) → SameSeats s.room (start_turn env s).room
  unfolding start_turn
  start_turn-SameSeats s =
      start_turn_of-SameSeats env (get_elem? s.room.players s.room.drawer_index) s

  correct_guess-SameSeats :
      (p : Player) (turn : TurnState) (s : Session)
      → SameSeats s.room (correct_guess env p turn s).room
  correct_guess-SameSeats p turn s =
      let marked : SameSeats s.room (record s.room {
        players = modify_player p.id (mark_guessed env.now) s.room.players;
        turn = some (record turn { guess_order = turn.guess_order ++ p.id ∷ [] });
      }) =
        record {
          host = refl;
          members = λ id. member-modify id p.id (mark_guessed env.now) s.room.players (λ q. refl);
        } in
      let ended = SameSeats-trans marked (
        end_turn-SameSeats env all_guessed (
          broadcast (guess_correct p.name) (record s {
            room = record s.room {
              players = modify_player p.id (mark_guessed env.now) s.room.players;
              turn = some (record turn { guess_order = turn.guess_order ++ p.id ∷ [] });
            };
          }))) in
      grind (arith, ended, marked)

  wrong_guess-SameSeats :
      (p : Player) (turn : TurnState) (text : Text) (s : Session)
      → SameSeats s.room (wrong_guess env p turn text s).room
  wrong_guess-SameSeats p turn text s = grind (arith, same s.room)

  guess_of-SameSeats :
      (p : Player) (turn : TurnState) (text : Text) (s : Session)
      → SameSeats s.room (guess_of env p turn text s).room
  guess_of-SameSeats p turn text s =
      grind
        (arith, same s.room, correct_guess-SameSeats p turn s, wrong_guess-SameSeats p turn text s)

  guess_by-SameSeats :
      (p : Option Player) (turn : TurnState) (text : Text) (s : Session)
      → SameSeats s.room (guess_by env p turn text s).room
  guess_by-SameSeats none turn text s = same s.room
  guess_by-SameSeats (some p) turn text s = guess_of-SameSeats p turn text s

  guess_in-SameSeats :
      (id : ℕ) (text : Text) (turn : Option TurnState) (s : Session)
      → SameSeats s.room (guess_in env id text turn s).room
  guess_in-SameSeats id text none s = same s.room
  guess_in-SameSeats id text (some turn) s =
      grind (arith, same s.room, guess_by-SameSeats (get_player id s.room) turn text s)

  pub handle_guess-SameSeats :
      (id : ℕ) (text : Text) (s : Session) → SameSeats s.room (handle_guess env id text s).room
  unfolding handle_guess
  handle_guess-SameSeats id text s = guess_in-SameSeats id text (active_turn s.room) s

  chat_by-SameSeats :
      (p : Option Player) (turn : TurnState) (text : Text) (s : Session)
      → SameSeats s.room (chat_by env p turn text s).room
  chat_by-SameSeats none turn text s = same s.room
  chat_by-SameSeats (some p) turn text s = grind (arith, same s.room)

  chat_in-SameSeats :
      (id : ℕ) (text : Text) (turn : Option TurnState) (s : Session)
      → SameSeats s.room (chat_in env id text turn s).room
  chat_in-SameSeats id text none s = same s.room
  chat_in-SameSeats id text (some turn) s = chat_by-SameSeats (get_player id s.room) turn text s

  lobby_chat-SameSeats :
      (p : Option Player) (text : Text) (s : Session) → SameSeats s.room (lobby_chat p text s).room
  lobby_chat-SameSeats none text s = same s.room
  lobby_chat-SameSeats (some p) text s = same s.room

  pub chat-SameSeats :
      (id : ℕ) (text : Text) (s : Session) → SameSeats s.room (chat env id text s).room
  unfolding chat handle_chat
  chat-SameSeats id text s = grind (
    arith,
    lobby_chat-SameSeats (get_player id s.room) text s,
    chat_in-SameSeats id text (active_turn s.room) s,
  )

pub react-SameSeats :
    (p : Option Player) (emoji : Text) (s : Session) → SameSeats s.room (react p emoji s).room
react-SameSeats none emoji s = same s.room
react-SameSeats (some p) emoji s = same s.room

pub tell_typing-SameSeats :
    (id : ℕ) (p : Option Player) (is_typing : Bool) (s : Session)
    → SameSeats s.room (tell_typing id p is_typing s).room
tell_typing-SameSeats id none is_typing s = same s.room
tell_typing-SameSeats id (some p) is_typing s = same s.room

pub draw-SameSeats : (id : ℕ) (m : Message) (s : Session) → SameSeats s.room (draw id m s).room
draw-SameSeats id m s = grind (arith, same s.room)

cancel_auto_select-SameSeats : (s : Session) → SameSeats s.room (cancel_auto_select s).room
cancel_auto_select-SameSeats s = record { host = ground arith; members = λ id. ground arith }

drop_turn-SameSeats :
    (turn : Option TurnState) (s : Session) → SameSeats s.room (drop_turn turn s).room
drop_turn-SameSeats none s = same s.room
drop_turn-SameSeats (some turn) s = record { host = refl; members = λ id. refl }

stop_waiting-SameSeats : (s : Session) → SameSeats s.room (stop_waiting s).room
stop_waiting-SameSeats s = record { host = ground arith; members = λ id. ground arith }

end_game_immediate-SameSeats : (s : Session) → SameSeats s.room (end_game_immediate s).room
unfolding end_game_immediate
end_game_immediate-SameSeats s =
    let cleared =
      SameSeats-trans (drop_turn-SameSeats s.room.turn s)
        (cancel_auto_select-SameSeats (drop_turn s.room.turn s)) in
    record { host = cleared.host; members = cleared.members }

pub end_game_now-SameSeats : (id : ℕ) (s : Session) → SameSeats s.room (end_game_now id s).1.room
unfolding end_game_now
end_game_now-SameSeats id s =
    let ended =
      SameSeats-trans (stop_waiting-SameSeats s) (end_game_immediate-SameSeats (stop_waiting s)) in
    elim (Bool-cases (s.room.host_id == id)) [ inl e ↦ rw e ended | inr e ↦ rw e (same s.room) ]

module _ (env : Env) where
  accept_word-SameSeats :
      (drawer : Player) (word : Text) (s : Session)
      → SameSeats s.room (accept_word env drawer word s).room
  unfolding select_word
  accept_word-SameSeats drawer word s =
      let cancelled = cancel_auto_select-SameSeats s in
      record {
        host = cancelled.host;
        members = λ id.
            member-map id clear_guessed (cancel_auto_select s).room.players (λ p. refl)
            ∙ cancelled.members id;
      }

  selection_of-SameSeats :
      (drawer : Option Player) (id : ℕ) (word : Text) (s : Session)
      → SameSeats s.room (selection_of env drawer id word s).room
  selection_of-SameSeats none id word s = same s.room
  selection_of-SameSeats (some drawer) id word s =
      grind (arith, same s.room, accept_word-SameSeats drawer word s)

  pub handle_word_selection-SameSeats :
      (id : ℕ) (word : Text) (s : Session)
      → SameSeats s.room (handle_word_selection env id word s).room
  unfolding handle_word_selection
  handle_word_selection-SameSeats id word s =
      selection_of-SameSeats (get_elem? s.room.players s.room.drawer_index) id word s
