-- ===== src/Guess.antt =====
-- backend/game_engine.py, `handle_guess`, `handle_chat` and `filter_profanity`.
pub mod Order
pub mod Clean
use skribbl_app.Prelude.{
  ℕ, zero, suc, ◌+◌, ◌≡◌, refl, Bool, true, false, not, ◌&&◌, ◌||◌, Option, none, some, List, [],
  ◌∷◌, ◌++◌, length, all, keep, map, replicate, ltb, leb, ◌==◌, if◌then◌else◌,
}
use skribbl_app.Text.{
  Text, codes, Unicode, ascii, text_eq, mem_text, strip, split, mask_word, join_spaces,
}
use skribbl_app.Levenshtein.{levenshtein_distance}
use skribbl_app.Models.{
  RoomState, playing, state_eq, all_guessed, Player, TurnState, Room, get_player, modify_player,
  is_active,
}
use skribbl_app.Session.{Env, Session, chat_message, guess_correct, broadcast, set_room}
use skribbl_app.EndTurn.{end_turn}

abbrev pub star : ℕ
star = b'*'

-- One word of a message, masked if its letters and digits are a word of the table.
abbrev pub censor : Unicode → List Text → Text → Text
censor u banned word =
    if mem_text (keep u.is_alnum (u.lower word)) banned then replicate (length word) star else word

unfoldable pub filter_profanity : Unicode → List Text → Text → Text
unfolding mem_text split join_spaces
filter_profanity u banned [] = []
filter_profanity u banned (c ∷ text) = join_spaces (map (censor u banned) (split u (c ∷ text)))

-- Everyone else who is connected and plays has guessed.
abbrev pub all_have_guessed : ℕ → List Player → Bool
all_have_guessed drawer_id players =
    all (λ p. p.has_guessed) (keep (λ p. not (p.id == drawer_id) && is_active p) players)

-- `len(guess) >= 3` and a distance of at most 2 to the word.
unfoldable pub is_close : Text → Text → Bool
unfolding levenshtein_distance
is_close guess word = leb 3 (length guess) && leb (levenshtein_distance guess word) 2

abbrev pub spectator_name : Text → Text
spectator_name name = name ++ codes " (Spectator)"

-- The text of a spectator or of the drawer, without the word.
abbrev pub sanitized : Env → Text → Text → Text
sanitized env word text =
    filter_profanity env.unicode env.profanity_words (mask_word env.unicode word text)

abbrev pub mark_guessed : ℕ → Player → Player
mark_guessed now p = record p { has_guessed = true; guess_time = some now }

-- The branch of a correct guess.
abbrev pub correct_guess : Env → Player → TurnState → Session → Session
correct_guess env player turn s =
    let marked =
      set_room
        (λ r. record r {
          players = modify_player player.id (mark_guessed env.now) r.players;
          turn = some (record turn { guess_order = turn.guess_order ++ player.id ∷ [] });
        })
        s in
    let told = broadcast (guess_correct player.name) marked in
    if all_have_guessed turn.drawer_id told.room.players
    then end_turn env all_guessed told
    else told

-- The branch of a wrong guess; a close one is not shown.
abbrev pub wrong_guess : Env → Player → TurnState → Text → Session → Session
wrong_guess env player turn text s =
    let u = env.unicode in
    if is_close (u.lower (strip u text)) (u.lower turn.word)
    then broadcast (chat_message (codes "System") (player.name ++ codes " is very close!") true) s
    else broadcast (chat_message player.name (filter_profanity u env.profanity_words text) false) s

-- `handle_guess` once the turn and the player are found.
abbrev pub guess_of : Env → Player → TurnState → Text → Session → Session
guess_of env player turn text s =
    let u = env.unicode in
    if player.id == turn.drawer_id
    then s
    else if player.is_spectator
    then broadcast (chat_message (spectator_name player.name) (sanitized env turn.word text) false)
        s
    else if player.has_guessed
    then s
    else if not player.is_connected
    then s
    else if text_eq (u.lower (strip u text)) (u.lower turn.word)
    then correct_guess env player turn s
    else wrong_guess env player turn text s

-- The turn, if there is one and the room is playing.
abbrev pub active_of : RoomState → Option TurnState → Option TurnState
active_of state none = none
active_of state (some turn) = if state_eq state playing then some turn else none

abbrev pub active_turn : Room → Option TurnState
active_turn r = active_of r.state r.turn

abbrev pub guess_by : Env → Option Player → TurnState → Text → Session → Session
guess_by env none turn text s = s
guess_by env (some player) turn text s = guess_of env player turn text s

abbrev pub guess_in : Env → ℕ → Text → Option TurnState → Session → Session
guess_in env player_id text none s = s
guess_in env player_id text (some turn) s =
    if ltb 100 (length text) then s else guess_by env (get_player player_id s.room) turn text s

unfoldable pub handle_guess : Env → ℕ → Text → Session → Session
unfolding get_player
handle_guess env player_id text s = guess_in env player_id text (active_turn s.room) s

-- `handle_chat` once the turn and the player are found.
abbrev pub chat_of : Env → Player → TurnState → Text → Session → Session
chat_of env player turn text s =
    if not (player.id == turn.drawer_id) && not player.is_spectator
    then s
    else broadcast
        (chat_message (if player.is_spectator then spectator_name player.name else player.name)
          (sanitized env turn.word text) false)
        s

abbrev pub chat_by : Env → Option Player → TurnState → Text → Session → Session
chat_by env none turn text s = s
chat_by env (some player) turn text s = chat_of env player turn text s

abbrev pub chat_in : Env → ℕ → Text → Option TurnState → Session → Session
chat_in env player_id text none s = s
chat_in env player_id text (some turn) s = chat_by env (get_player player_id s.room) turn text s

unfoldable pub handle_chat : Env → ℕ → Text → Session → Session
unfolding get_player
handle_chat env player_id text s = chat_in env player_id text (active_turn s.room) s
