-- ===== src/Deletion/Gone.antt =====
-- What `_delete_room` leaves of a room, in all dictionaries of the manager.
use skribbl_app.Prelude.{ℕ, ◌≡◌, Bool, true, false, Option, none, some, List, [], ◌∷◌, All, ◌==◌}
use skribbl_app.Votes.{VoteKick}
use skribbl_app.Registry.{lookup}
use skribbl_app.Registry.Index.{Consistent}
use skribbl_app.Deletion.{
  Filed, Requests, Directory, close_filed, close_request, close_all, find_filed, to_cancel, sweep,
  stop_vote, delete_room,
}
use skribbl_app.Deletion.Entries.{lookup-pop, drop_room-Consistent}
use skribbl_app.Deletion.Sweep.{has, has-cancel_task, has-cancel_other, ByIds, Fate, sweep-Fate}

abbrev pub Stopped : Option VoteKick → List ℕ → Type 0
Stopped none tasks = Unit
Stopped (some vote) tasks = has vote.timeout_task tasks ≡ false

-- The manager after a room is deleted, by what it was before.
pub record Deleted (code : ℕ) (before after : Directory) : Type 0 where
  pub index : Consistent after.manager
  pub room : lookup code after.manager.rooms ≡ none
  pub joins : All (λ r. Fate (r.room_code == code) r after.joins after.tasks) before.joins
  pub roles : All (λ r. Fate (r.room_code == code) r after.roles after.tasks) before.roles
  pub vote : lookup code after.votes ≡ none
  pub cooldowns : lookup code after.cooldowns ≡ none
  pub vote_stopped : Stopped (lookup code before.votes) after.tasks

-- A task that is not pending is not started by the deletion.
close_filed-has :
    (o : Option Filed) (id task : ℕ) (q : Requests)
    → has task q.tasks ≡ false
    → has task (close_filed o id q).tasks ≡ false
close_filed-has none id task q h = h
close_filed-has (some req) id task q h = has-cancel_other task req.timeout_task q.tasks h

close_all-has :
    (ids : List ℕ) (task : ℕ) (q : Requests)
    → has task q.tasks ≡ false
    → has task (close_all ids q).tasks ≡ false
close_all-has [] task q h = h
close_all-has (id ∷ ids) task q h =
    close_all-has ids task (close_request id q)
      (close_filed-has (find_filed id q.filed) id task q h)

stop_vote-has :
    (vote : Option VoteKick) (task : ℕ) (tasks : List ℕ)
    → has task tasks ≡ false
    → has task (stop_vote vote tasks) ≡ false
stop_vote-has none task tasks h = h
stop_vote-has (some vote) task tasks h = has-cancel_other task vote.timeout_task tasks h

stop_vote-Stopped : (vote : Option VoteKick) (tasks : List ℕ) → Stopped vote (stop_vote vote tasks)
stop_vote-Stopped none tasks = tt
stop_vote-Stopped (some vote) tasks = has-cancel_task vote.timeout_task tasks

Fate-later :
    (here : Bool) (r : Filed) (filed : List Filed) (tasks later : List ℕ)
    → (has r.timeout_task tasks ≡ false → has r.timeout_task later ≡ false)
    → Fate here r filed tasks
    → Fate here r filed later
Fate-later true r filed tasks later keeps (gone, off) = (gone, keeps off)
Fate-later false r filed tasks later keeps there = there

fates-later :
    (code : ℕ) (each filed : List Filed) (tasks later : List ℕ)
    → ((task : ℕ) → has task tasks ≡ false → has task later ≡ false)
    → All (λ r. Fate (r.room_code == code) r filed tasks) each
    → All (λ r. Fate (r.room_code == code) r filed later) each
fates-later code [] filed tasks later keeps h = tt
fates-later code (r ∷ each) filed tasks later keeps h = (
  Fate-later (r.room_code == code) r filed tasks later (keeps r.timeout_task) h.0,
  fates-later code each filed tasks later keeps h.1,
)

-- Where the rooms stand under their codes and the requests under their ids, and the index is right:
-- after a room is deleted no dictionary of rooms has it, the index of players is still right, its
-- requests of both kinds are gone, the requests of the other rooms are there as before, and no task of
-- its requests or of its vote is pending.
pub delete_room-Deleted :
    (code : ℕ) (d : Directory)
    → All (λ e. e.0 ≡ e.1.code) d.manager.rooms
    → Consistent d.manager
    → ByIds d.joins
    → ByIds d.roles
    → Deleted code d (delete_room code d)
unfolding delete_room sweep
delete_room-Deleted code d own ok joins_keyed roles_keyed =
    let of_joins : Requests = record {
      filed = d.joins;
      tasks = d.tasks;
      ws_to_request = d.ws_to_request;
    } in
    let joins = sweep code of_joins in
    let of_roles : Requests = record {
      filed = d.roles;
      tasks = joins.tasks;
      ws_to_request = joins.ws_to_request;
    } in
    let roles = sweep code of_roles in
    let vote = lookup code d.votes in
    record {
      index = drop_room-Consistent code d.manager own ok;
      room = lookup-pop code d.manager.rooms;
      joins =
          fates-later code d.joins joins.filed joins.tasks (stop_vote vote roles.tasks)
            (λ task h.
              stop_vote-has vote task roles.tasks
                (close_all-has (to_cancel code d.roles) task of_roles h))
            (sweep-Fate code of_joins joins_keyed);
      roles =
          fates-later code d.roles roles.filed roles.tasks (stop_vote vote roles.tasks)
            (λ task h. stop_vote-has vote task roles.tasks h)
            (sweep-Fate code of_roles roles_keyed);
      vote = lookup-pop code d.votes;
      cooldowns = lookup-pop code d.cooldowns;
      vote_stopped = stop_vote-Stopped vote roles.tasks;
    }
