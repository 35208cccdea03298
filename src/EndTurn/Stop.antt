-- ===== src/EndTurn/Stop.antt =====
-- A turn that has ended leaves nothing behind.
use mathlib.Core.Path.{subst}
use skribbl_app.Prelude.{
  ℕ, ◌+◌, ◌<◌, ◌≡◌, refl, ap, sym, ◌∙◌, inl, inr, false, Bool-cases, Option, none, some, List, [],
  ◌∷◌, ◌++◌, get_elem?, length, arith, ltb, leb,
}
use skribbl_app.Models.{TurnEndReason, Player, TurnState}
use skribbl_app.Session.{Env, Task, Session, is_pending, remove_task, cancel}
use skribbl_app.Turns.{
  Rotation, drawer_at, rounds_complete, nobody, out_of_range, active_count, start_turn_of,
  start_turn, start_countdown, finish_game, at_turn, follow, advance_from, advance_turn_or_round,
}
use skribbl_app.EndTurn.{close_turn, end_turn_of, end_turn}

pending-remove_self :
    (id : ℕ) (tasks : List Task) → is_pending (some id) (remove_task id tasks) ≡ false
pending-remove_self id [] = refl
pending-remove_self id (t ∷ tasks) = ground (arith, pending-remove_self id tasks)

remove_keeps_out :
    (id k : ℕ) (tasks : List Task)
    → is_pending (some k) tasks ≡ false
    → is_pending (some k) (remove_task id tasks) ≡ false
remove_keeps_out id k [] h = refl
remove_keeps_out id k (t ∷ tasks) h = ground (arith, remove_keeps_out id k tasks)

out-snoc :
    (k : ℕ) (tasks : List Task) (t : Task)
    → is_pending (some k) tasks ≡ false
    → k < t.id
    → is_pending (some k) (tasks ++ t ∷ []) ≡ false
out-snoc k [] t h lt = ground arith
out-snoc k (u ∷ tasks) t h lt = ground (arith, out-snoc k tasks t)

-- A task that was created and is not pending.
pub record Gone (k : ℕ) (s : Session) : Type 0 where
  pub done : is_pending (some k) s.tasks ≡ false
  pub created : k < s.next_task

module _ (env : Env) (k : ℕ) where
  start_turn_of-Gone : (o : Option Player) (s : Session) → Gone k s → Gone k (start_turn_of env o s)
  start_turn_of-Gone none s g = record { done = g.done; created = g.created }
  start_turn_of-Gone (some p) s g = record {
    done = out-snoc k s.tasks _ g.done g.created;
    created = omega (arith, g.created);
  }

  countdown-Gone : (o : Option ℕ) (s : Session) → Gone k s → Gone k (start_countdown env o s)
  countdown-Gone none s g = record {
    done = out-snoc k s.tasks _ g.done g.created;
    created = omega (arith, g.created);
  }
  countdown-Gone (some task) s g = g

  follow-Gone : (rot : Rotation) (s : Session) → Gone k s → Gone k (follow env rot s)
  unfolding start_turn finish_game
  follow-Gone (drawer_at i r) s g =
      start_turn_of-Gone (get_elem? s.room.players i) (record s { room = at_turn i r s.room })
        (record { done = g.done; created = g.created })
  follow-Gone (rounds_complete i r) s g = record { done = g.done; created = g.created }
  follow-Gone (nobody i r) s g = record { done = g.done; created = g.created }
  follow-Gone (out_of_range i r) s g = record { done = g.done; created = g.created }

  advance_from-Gone : (i r : ℕ) (s : Session) → Gone k s → Gone k (advance_from env i r s)
  advance_from-Gone i r s g = elim (Bool-cases (ltb s.room.config.num_rounds r)) [
    | inl e ↦ rw e (follow-Gone (rounds_complete i r) s g)
    | inr e ↦ rw e (follow-Gone _ s g)
  ]

  advance-Gone : (s : Session) → Gone k s → Gone k (advance_turn_or_round env s)
  unfolding advance_turn_or_round
  advance-Gone s g = elim (Bool-cases (ltb (active_count s.room) 2)) [
    | inl few ↦ rw few (countdown-Gone s.room.insufficient_players_task s g)
    | inr many ↦ elim (Bool-cases (leb (length s.room.players) (s.room.drawer_index + 1))) [
      | inl e ↦ rw (many, e) (advance_from-Gone 0 (s.room.current_round + 1) s g)
      | inr e ↦ rw (many, e) (advance_from-Gone (s.room.drawer_index + 1) s.room.current_round s g)
    ]
  ]

-- No step after the end of a turn sets a new one.
abbrev NoTurn : Session → Type 0
NoTurn s = s.room.turn ≡ none

module _ (env : Env) where
  start_turn_of-NoTurn :
      (o : Option Player) (s : Session) → NoTurn s → NoTurn (start_turn_of env o s)
  start_turn_of-NoTurn none s h = h
  start_turn_of-NoTurn (some p) s h = h

  countdown-NoTurn : (o : Option ℕ) (s : Session) → NoTurn s → NoTurn (start_countdown env o s)
  countdown-NoTurn none s h = h
  countdown-NoTurn (some task) s h = h

  follow-NoTurn : (rot : Rotation) (s : Session) → NoTurn s → NoTurn (follow env rot s)
  unfolding start_turn finish_game
  follow-NoTurn (drawer_at i r) s h =
      start_turn_of-NoTurn (get_elem? s.room.players i) (record s { room = at_turn i r s.room }) h
  follow-NoTurn (rounds_complete i r) s h = h
  follow-NoTurn (nobody i r) s h = h
  follow-NoTurn (out_of_range i r) s h = h

  advance_from-NoTurn : (i r : ℕ) (s : Session) → NoTurn s → NoTurn (advance_from env i r s)
  advance_from-NoTurn i r s h = elim (Bool-cases (ltb s.room.config.num_rounds r)) [
    | inl e ↦ rw e (follow-NoTurn (rounds_complete i r) s h)
    | inr e ↦ rw e (follow-NoTurn _ s h)
  ]

  pub advance-NoTurn : (s : Session) → NoTurn s → NoTurn (advance_turn_or_round env s)
  unfolding advance_turn_or_round
  advance-NoTurn s h = elim (Bool-cases (ltb (active_count s.room) 2)) [
    | inl few ↦ rw few (countdown-NoTurn s.room.insufficient_players_task s h)
    | inr many ↦ elim (Bool-cases (leb (length s.room.players) (s.room.drawer_index + 1))) [
      | inl e ↦ rw (many, e) (advance_from-NoTurn 0 (s.room.current_round + 1) s h)
      | inr e ↦
          rw (many, e) (advance_from-NoTurn (s.room.drawer_index + 1) s.room.current_round s h)
    ]
  ]

  end_turn_of-NoTurn :
      (reason : TurnEndReason) (o : Option TurnState) (s : Session)
      → s.room.turn ≡ o
      → NoTurn (end_turn_of env reason o s)
  end_turn_of-NoTurn reason none s e = e
  end_turn_of-NoTurn reason (some turn) s e = advance-NoTurn (close_turn env reason turn s) refl

  pub end_turn-NoTurn :
      (reason : TurnEndReason) (s : Session) → (end_turn env reason s).room.turn ≡ none
  unfolding end_turn
  end_turn-NoTurn reason s = end_turn_of-NoTurn reason s.room.turn s refl

-- The numbers of a turn's tasks were given out before.
pub record HasTasks (turn : TurnState) (s : Session) (timer h40 h70 : ℕ) : Type 0 where
  pub timer_task : turn.timer_task ≡ some timer
  pub hint_40 : turn.hint_task_40 ≡ some h40
  pub hint_70 : turn.hint_task_70 ≡ some h70
  pub created : (timer < s.next_task) × (h40 < s.next_task) × (h70 < s.next_task)

module _ {turn : TurnState} {s : Session} {timer h40 h70 : ℕ}
    (t : HasTasks turn s timer h40 h70) where
  cancelled_tasks :
      cancel turn.hint_task_70 (cancel turn.hint_task_40 (cancel turn.timer_task s.tasks))
      ≡ remove_task h70 (remove_task h40 (remove_task timer s.tasks))
  cancelled_tasks =
      λ i. cancel (t.hint_70 i) (cancel (t.hint_40 i) (cancel (t.timer_task i) s.tasks))

  module _ (env : Env) (reason : TurnEndReason) where
    Gone-timer : Gone timer (close_turn env reason turn s)
    Gone-timer = record {
      done =
          ap (λ l. is_pending (some timer) l) cancelled_tasks
          ∙ remove_keeps_out h70 timer _
              (remove_keeps_out h40 timer _ (pending-remove_self timer s.tasks));
      created = t.created.0;
    }

    Gone-h40 : Gone h40 (close_turn env reason turn s)
    Gone-h40 = record {
      done =
          ap (λ l. is_pending (some h40) l) cancelled_tasks
          ∙ remove_keeps_out h70 h40 _ (pending-remove_self h40 (remove_task timer s.tasks));
      created = t.created.1;
    }

    Gone-h70 : Gone h70 (close_turn env reason turn s)
    Gone-h70 = record {
      done =
          ap (λ l. is_pending (some h70) l) cancelled_tasks
          ∙ pending-remove_self h70 (remove_task h40 (remove_task timer s.tasks));
      created = t.created.2;
    }

-- A turn whose three tasks have been created ends, for whatever reason. However the game goes
-- on, there is no turn afterwards, and neither the timer of the turn nor one of its two hint
-- tasks is pending.
pub end_turn-Gone :
    (env : Env) (reason : TurnEndReason) (turn : TurnState) (s : Session) (timer h40 h70 : ℕ)
    → s.room.turn ≡ some turn
    → HasTasks turn s timer h40 h70
    → ((end_turn env reason s).room.turn ≡ none)
      × (is_pending (some timer) (end_turn env reason s).tasks ≡ false)
      × (is_pending (some h40) (end_turn env reason s).tasks ≡ false)
      × (is_pending (some h70) (end_turn env reason s).tasks ≡ false)
unfolding end_turn
end_turn-Gone env reason turn s timer h40 h70 running t =
    let closed = close_turn env reason turn s in
    let at : (k : ℕ) → Gone k closed → is_pending (some k) (end_turn env reason s).tasks ≡ false =
      λ k g.
        subst (λ o. is_pending (some k) (end_turn_of env reason o s).tasks ≡ false) (sym running)
          (advance-Gone env k closed g).done in
    (
      end_turn-NoTurn env reason s,
      at timer (Gone-timer t env reason),
      at h40 (Gone-h40 t env reason),
      at h70 (Gone-h70 t env reason),
    )
