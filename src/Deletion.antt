-- ===== src/Deletion.antt =====
-- backend/room_manager.py, `_delete_room`: a room leaves the manager's dictionaries, and the tasks of
-- its requests and of its vote are cancelled. What the call tells Redis afterwards is not modelled.
pub mod Entries
pub mod Sweep
pub mod Gone
use skribbl_app.Prelude.{ℕ, not, Option, none, some, List, [], ◌∷◌, map, keep, find, ◌==◌}
use skribbl_app.Models.{Player, Room}
use skribbl_app.Votes.{VoteKick}
use skribbl_app.Registry.{Manager, lookup}

-- `dict.pop(key, None)`
abbrev pub pop {ℓ} : {A : Type ℓ} → ℕ → List (ℕ × A) → List (ℕ × A)
pop key entries = keep (λ e. not (e.0 == key)) entries

-- Of a request what the deletion reads; a request of a spectator has no WebSocket.
pub record Filed : Type 0 where
  pub room_code : ℕ
  pub request_id : ℕ
  pub timeout_task : ℕ
  pub websocket : Option ℕ

-- The requests of one kind by their ids, the tasks that are pending, and `_ws_to_pending_request`.
pub record Requests : Type 0 where
  pub filed : List Filed
  pub tasks : List ℕ
  pub ws_to_request : List (ℕ × ℕ)

-- The dictionaries of the manager, those by rooms and those by requests, and the pending tasks.
pub record Directory : Type 0 where
  pub manager : Manager
  pub joins : List Filed
  pub roles : List Filed
  pub ws_to_request : List (ℕ × ℕ)
  pub votes : List (ℕ × VoteKick)
  pub cooldowns : List (ℕ × List (ℕ × ℕ))
  pub tasks : List ℕ

-- `task.cancel()` of a task that is not done
abbrev pub cancel_task : ℕ → List ℕ → List ℕ
cancel_task task tasks = keep (λ t. not (t == task)) tasks

abbrev pub drop_socket : Option ℕ → List (ℕ × ℕ) → List (ℕ × ℕ)
drop_socket none entries = entries
drop_socket (some websocket) entries = pop websocket entries

abbrev pub find_filed : ℕ → List Filed → Option Filed
find_filed request_id filed = find (λ r. r.request_id == request_id) filed

-- What is popped has its task cancelled.
abbrev pub close_filed : Option Filed → ℕ → Requests → Requests
close_filed none request_id q = q
close_filed (some req) request_id q = record {
  filed = keep (λ r. not (r.request_id == request_id)) q.filed;
  tasks = cancel_task req.timeout_task q.tasks;
  ws_to_request = drop_socket req.websocket q.ws_to_request;
}

abbrev pub close_request : ℕ → Requests → Requests
close_request request_id q = close_filed (find_filed request_id q.filed) request_id q

abbrev pub close_all : List ℕ → Requests → Requests
close_all [] q = q
close_all (request_id ∷ ids) q = close_all ids (close_request request_id q)

-- The ids of the requests for a room, `to_cancel`.
abbrev pub to_cancel : ℕ → List Filed → List ℕ
to_cancel room_code filed = map (λ r. r.request_id) (keep (λ r. r.room_code == room_code) filed)

unfoldable pub sweep : ℕ → Requests → Requests
sweep room_code q = close_all (to_cancel room_code q.filed) q

abbrev pub unlist : List Player → List (ℕ × ℕ) → List (ℕ × ℕ)
unlist [] index = index
unlist (p ∷ players) index = unlist players (pop p.id index)

abbrev pub unlist_room : Option Room → List (ℕ × ℕ) → List (ℕ × ℕ)
unlist_room none index = index
unlist_room (some room) index = unlist room.players index

abbrev pub drop_room : ℕ → Manager → Manager
drop_room room_code m = record {
  rooms = pop room_code m.rooms;
  player_to_room = unlist_room (lookup room_code m.rooms) m.player_to_room;
}

abbrev pub stop_vote : Option VoteKick → List ℕ → List ℕ
stop_vote none tasks = tasks
stop_vote (some vote) tasks = cancel_task vote.timeout_task tasks

unfoldable pub delete_room : ℕ → Directory → Directory
unfolding sweep
delete_room room_code d =
    let joins =
      sweep room_code
        (record { filed = d.joins; tasks = d.tasks; ws_to_request = d.ws_to_request }) in
    let roles =
      sweep room_code
        (record { filed = d.roles; tasks = joins.tasks; ws_to_request = joins.ws_to_request }) in
    record {
      manager = drop_room room_code d.manager;
      joins = joins.filed;
      roles = roles.filed;
      ws_to_request = roles.ws_to_request;
      votes = pop room_code d.votes;
      cooldowns = pop room_code d.cooldowns;
      tasks = stop_vote (lookup room_code d.votes) roles.tasks;
    }
