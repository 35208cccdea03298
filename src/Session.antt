-- ===== src/Session.antt =====
-- A room on the event loop of its worker: the room, the pending tasks, and what was sent. A handler
-- runs to its end before another starts, as it does where no send has to wait.
use skribbl_app.Prelude.{
  ℕ, ◌+◌, Bool, false, not, Option, none, some, List, [], ◌∷◌, ◌++◌, keep, any, ◌==◌, if◌then◌else◌,
}
use skribbl_app.Text.{Text, Unicode, ascii}
use skribbl_app.Payloads.{PlayerView, ConfigView, RoomView}
use skribbl_app.Models.{JoinRequest, RoleRequest, PackInfo, Pack, TurnEndReason, Player, Room}
use skribbl_app.GameOver.{GameOverPayload}
use skribbl_app.Words.{small_packs}

-- What a handler is given: Python's tables, the tables of backend/words.py and of the profanity
-- filter, the time, and the numbers that `random` draws.
pub record Env : Type 0 where
  pub unicode : Unicode
  pub word_packs : List Pack
  pub profanity_words : List Text
  pub now : ℕ
  pub draws : List ℕ

-- A second, in ticks; `asyncio.sleep` and `time.time` count in them.
abbrev pub second : ℕ
second = 1_000_000

-- How a pending request ended, and the two reasons that a declined one gives.
pub data Resolution : Type 0 where
  accepted accepted_player accepted_spectator declined cancelled timeout expired : Resolution

-- What a drawer sends; the payload is only passed on.
pub data Drawing : Type 0 where
  stroke highlighter shape fill undo : Drawing

pub data VoteResult : Type 0 where
  vote_passed vote_failed vote_cancelled : VoteResult

-- The messages of the game engine and, from `player_list` on, of the room manager: `type` and
-- `payload`. `system_chat` is a chat_message of the shape that a new host is announced in.
pub data Message : Type 0 where
  word_choices : List Text → List Pack → Message
  drawer_selecting : (drawer_id : ℕ) (drawer_name : Text) → Message
  turn_started :
      (drawer_id : ℕ) (hint : Text) (duration round : ℕ) (theme : Option PackInfo) → Message
  word_assigned : Text → Message
  clear_canvas : Message
  hint_update : Text → Message
  chat_message : (player_name text : Text) (is_system : Bool) → Message
  guess_correct : (player_name : Text) → Message
  turn_ended : (word : Text) (scores : List (ℕ × ℕ)) (reason : TurnEndReason) → Message
  over : GameOverPayload → Message
  waiting_for_reconnect : (seconds : ℕ) → Message
  game_ended_insufficient_players : Message
  player_list : List PlayerView → Message
  settings_updated : ConfigView → Message
  rematch_started : List PlayerView → ConfigView → Message
  game_started : (drawer_id round total_rounds : ℕ) → Message
  host_changed : (new_host_id : ℕ) (new_host_name : Text) (old : Option (ℕ × Text)) → Message
  kicked : (message : Text) → Message
  join_request_received : JoinRequest → (room_code : ℕ) → Message
  spectator_role_request_received : RoleRequest → (room_code : ℕ) → Message
  vote_kick_started :
      (target_id : ℕ) (target_name : Text) (initiator_id : ℕ) (initiator_name : Text)
      (current_votes required_votes : ℕ)
      → Message
  vote_kick_updated : (target_id current_votes required_votes : ℕ) → Message
  vote_kick_ended :
      (target_id : ℕ) (target_name : Text) (result : VoteResult) (message : Text) → Message
  system_chat : (text : Text) → Message
  reconnect_resumed : Message
  player_reconnected : (player_id : ℕ) (name : Text) → Message
  drawn : Drawing → (payload : Text) → Message
  reaction : (player_name emoji : Text) → Message
  typing : (player_id : ℕ) (player_name : Text) (is_typing : Bool) → Message
  room_created : (room_code player_id : ℕ) → List PlayerView → ConfigView → Message
  room_joined : (player_id : ℕ) → RoomView → Message
  join_request_pending : (request_id room_code : ℕ) → Message
  join_request_declined : (request_id : ℕ) → Resolution → Message
  join_request_resolved :
      (request_id : ℕ) → Resolution → (player_id : Option ℕ) (player_name : Option Text) → Message
  become_player_request_pending : (request_id requests_remaining : ℕ) → Message
  spectator_role_request_declined :
      (request_id : ℕ) → Resolution → (requests_remaining : ℕ) → Message
  spectator_role_request_resolved :
      (request_id : Option ℕ) → Resolution → (player_id : Option ℕ) → Message

pub data Exception : Type 0 where
  index_error : Exception

-- A broadcast to the room, a message to one player or to a WebSocket that no player has yet, or an
-- exception that ends the handler.
pub data Effect : Type 0 where
  to_all : Message → Effect
  to_player : ℕ → Message → Effect
  to_socket : (websocket : ℕ) → Message → Effect
  raised : Exception → Effect

-- The coroutines that the backend schedules for a room, with what they captured.
pub data Job : Type 0 where
  auto_select : (drawer_id : ℕ) → Job
  reveal_hint : (serial : ℕ) → Job
  turn_timer : (serial : ℕ) → Job
  end_after_wait : Job

pub record Task : Type 0 where
  pub id : ℕ
  pub job : Job
  pub due : ℕ

pub record Session : Type 0 where
  pub room : Room
  pub tasks : List Task
  pub next_task : ℕ
  pub outbox : List Effect

-- `task.done()` of a task that was created is false while it is pending.
abbrev pub is_pending : Option ℕ → List Task → Bool
is_pending none tasks = false
is_pending (some id) tasks = any (λ t. t.id == id) tasks

abbrev pub remove_task : ℕ → List Task → List Task
remove_task id tasks = keep (λ t. not (t.id == id)) tasks

-- `if task is not None and not task.done(): task.cancel()`
abbrev pub cancel : Option ℕ → List Task → List Task
cancel none tasks = tasks
cancel (some id) tasks = remove_task id tasks

-- `asyncio.create_task` of a coroutine that begins by a sleep
abbrev pub create_task : ℕ → Job → Session → Session
create_task due job s = record s {
  tasks = s.tasks ++ record { id = s.next_task; job = job; due = due } ∷ [];
  next_task = s.next_task + 1;
}

abbrev pub emit : Effect → Session → Session
emit e s = record s { outbox = s.outbox ++ e ∷ [] }

abbrev pub broadcast : Message → Session → Session
broadcast m s = emit (to_all m) s

-- `if player.is_connected and player.websocket is not None: await player.websocket.send_text(...)`
abbrev pub delivered : Player → Message → List Effect
delivered player m = elim player.websocket [
  | none ↦ []
  | some ws ↦ if player.is_connected then to_player player.id m ∷ [] else []
]

abbrev pub send_to : Player → Message → Session → Session
send_to player m s = record s { outbox = s.outbox ++ delivered player m }

abbrev pub set_room : (Room → Room) → Session → Session
set_room f s = record s { room = f s.room }

abbrev pub idle : Room → Session
idle room = record { room = room; tasks = []; next_task = 0; outbox = [] }

abbrev pub test_env : Env
test_env = record {
  unicode = ascii;
  word_packs = small_packs;
  profanity_words = [];
  now = 0;
  draws = [];
}
