-- ===== src/Selection/Rules.antt =====
-- Who can select a word, and what a selection does.
use skribbl_app.Prelude.{
  ℕ, ◌+◌, ◌*◌, ◌/◌, ◌≡◌, ◌≢◌, refl, ◌⊎◌, inl, inr, true, false, Bool-cases, none, some, List, [],
  ◌∷◌, ◌++◌, map, get_elem?, arith, zero, suc, ◌<◌, Bool, any, ◌||◌, ap, ◌∙◌, ◌==◌,
}
use skribbl_app.Text.{Text, text_eq_refl, mem_text}
use skribbl_app.Hints.{generate_initial_hint}
use skribbl_app.Words.{select_word}
use skribbl_app.Models.{playing, Player, TurnState, Room}
use skribbl_app.Session.{
  Env, second, reveal_hint, turn_timer, Task, Session, to_all, delivered, turn_started,
  word_assigned, clear_canvas, is_pending, remove_task, auto_select,
}
use skribbl_app.Turns.{cancel_auto_select}
use skribbl_app.Selection.{
  run_job, pending_words, new_turn, clear_guessed, accept_word, handle_word_selection,
}

-- What a drawer has started by selecting a word, from one session to the next.
pub record Begun (env : Env) (drawer : Player) (word : Text) (s t : Session) : Type 0 where
  pub turn : TurnState
  pub is_turn : t.room.turn ≡ some turn
  pub state : t.room.state ≡ playing
  pub drawer_draws : turn.drawer_id ≡ drawer.id
  pub has_word : turn.word ≡ word
  pub shows_hint : turn.hint ≡ generate_initial_hint word
  pub starts_now : turn.start_time ≡ env.now
  pub nobody_guessed : turn.guess_order ≡ []
  pub all_cleared : t.room.players ≡ map clear_guessed s.room.players
  pub word_used : mem_text word t.room.used_words ≡ true
  pub offer_closed : t.room.pending_word_choices ≡ none
  pub same_place :
      (t.room.drawer_index ≡ s.room.drawer_index) × (t.room.current_round ≡ s.room.current_round)
  pub tasks_named :
      (turn.hint_task_40 ≡ some s.next_task)
      × (turn.hint_task_70 ≡ some (s.next_task + 1))
      × (turn.timer_task ≡ some (s.next_task + 1 + 1))
  pub scheduled :
      t.tasks
      ≡ (((cancel_auto_select s).tasks
            ++ record {
              id = s.next_task;
              job = reveal_hint turn.serial;
              due = env.now + s.room.config.turn_duration * second * 4 / 10;
            }
              ∷ [])
          ++ record {
            id = s.next_task + 1;
            job = reveal_hint turn.serial;
            due = env.now + s.room.config.turn_duration * second * 7 / 10;
          }
            ∷ [])
        ++ record {
          id = s.next_task + 1 + 1;
          job = turn_timer turn.serial;
          due = env.now + s.room.config.turn_duration * second;
        }
          ∷ []
  pub told :
      t.outbox
      ≡ ((s.outbox
            ++ to_all (
                turn_started drawer.id turn.hint s.room.config.turn_duration s.room.current_round
                  turn.theme)
              ∷ [])
          ++ delivered drawer (word_assigned word))
        ++ to_all clear_canvas ∷ []

mem_text-select_word :
    (word : Text) (r : Room) → mem_text word (select_word word r).used_words ≡ true
unfolding select_word
mem_text-select_word word r = elim (Bool-cases (mem_text word r.used_words)) [
  | inl e ↦ rw e e
  | inr e ↦ rw e (unfold mem_text in rw (text_eq_refl word))
]

module _ (env : Env) (drawer : Player) (word : Text) (s : Session) where
  -- The turn with its tasks.
  abbrev timed : TurnState
  timed =
      record (new_turn env s.next_task drawer.id word (pending_words s.room.pending_word_choices)
        s.room.config.custom_words) {
          hint_task_40 = some s.next_task;
          hint_task_70 = some (s.next_task + 1);
          timer_task = some (s.next_task + 1 + 1);
        }

  accept_word-Begun : Begun env drawer word s (accept_word env drawer word s)
  unfolding select_word
  accept_word-Begun =
      let used = mem_text-select_word word s.room in
      elim (Bool-cases (is_pending s.room.auto_select_task s.tasks)) [
        | inl e ↦ rw e (record {
          turn = timed;
          is_turn = refl;
          state = refl;
          drawer_draws = refl;
          has_word = refl;
          shows_hint = refl;
          starts_now = refl;
          nobody_guessed = refl;
          all_cleared = refl;
          word_used = used;
          offer_closed = refl;
          same_place = (refl, refl);
          tasks_named = (refl, refl, refl);
          scheduled = rw e refl;
          told = refl;
        })
        | inr e ↦ rw e (record {
          turn = timed;
          is_turn = refl;
          state = refl;
          drawer_draws = refl;
          has_word = refl;
          shows_hint = refl;
          starts_now = refl;
          nobody_guessed = refl;
          all_cleared = refl;
          word_used = used;
          offer_closed = refl;
          same_place = (refl, refl);
          tasks_named = (refl, refl, refl);
          scheduled = rw e refl;
          told = refl;
        })
      ]

-- The drawer selects an offered word: the turn of that word begins, with the first hint, nobody
-- having guessed, the word marked as used and the offer closed; the two hints and the end of the
-- turn are scheduled at 40%, 70% and 100% of its duration; everyone learns the hint, and only the
-- drawer, if connected, the word.
pub handle_word_selection-Begun :
    (env : Env) (drawer : Player) (word : Text) (s : Session)
    → get_elem? s.room.players s.room.drawer_index ≡ some drawer
    → mem_text word (pending_words s.room.pending_word_choices) ≡ true
    → Begun env drawer word s (handle_word_selection env drawer.id word s)
unfolding handle_word_selection
handle_word_selection-Begun env drawer word s at offered =
    let self : (drawer.id == drawer.id) ≡ true = ground arith in
    rw at (rw self (rw offered (accept_word-Begun env drawer word s)))

-- A selection by anybody but the drawer, or of a word that was not offered, changes nothing.
pub handle_word_selection_rejected :
    (env : Env) (drawer : Player) (player_id : ℕ) (word : Text) (s : Session)
    → get_elem? s.room.players s.room.drawer_index ≡ some drawer
    → (player_id ≢ drawer.id) ⊎ (mem_text word (pending_words s.room.pending_word_choices) ≡ false)
    → handle_word_selection env player_id word s ≡ s
unfolding handle_word_selection
handle_word_selection_rejected env drawer player_id word s at (inl other) =
    let wrong : (player_id == drawer.id) ≡ false = ground arith in rw at (rw wrong refl)
handle_word_selection_rejected env drawer player_id word s at (inr missing) =
    rw at (elim (Bool-cases (player_id == drawer.id)) [
      | inl e ↦ rw e (rw missing refl)
      | inr e ↦ rw e refl
    ])

get_elem?-map :
    (f : Player → Player) (players : List Player) (i : ℕ) {p : Player}
    → get_elem? players i ≡ some p
    → get_elem? (map f players) i ≡ some (f p)
get_elem?-map f [] i e = absurd (cc)
get_elem?-map f (q ∷ players) zero {p} e = let is : q ≡ p = ground (arith, e) in rw is refl
get_elem?-map f (q ∷ players) (suc i) e = get_elem?-map f players i e

any-append : (t : Task → Bool) (xs ys : List Task) → any t (xs ++ ys) ≡ (any t xs || any t ys)
any-append t [] ys = refl
any-append t (x ∷ xs) ys = ground (arith, any-append t xs ys)

-- Whether a task is pending where three have been scheduled.
is_pending-three :
    (id : ℕ) (tasks : List Task) (a b c : Task)
    → is_pending (some id) (((tasks ++ a ∷ []) ++ b ∷ []) ++ c ∷ [])
      ≡ (is_pending (some id) tasks || ((a.id == id) || ((b.id == id) || (c.id == id))))
is_pending-three id tasks a b c =
    let by_c = any-append (λ t. t.id == id) ((tasks ++ a ∷ []) ++ b ∷ []) (c ∷ []) in
    let by_b = any-append (λ t. t.id == id) (tasks ++ a ∷ []) (b ∷ []) in
    let by_a = any-append (λ t. t.id == id) tasks (a ∷ []) in ground (arith, by_a, by_b, by_c)

is_pending-remove_task :
    (id : ℕ) (tasks : List Task) → is_pending (some id) (remove_task id tasks) ≡ false
is_pending-remove_task id [] = refl
is_pending-remove_task id (t ∷ tasks) = ground (arith, is_pending-remove_task id tasks)

is_pending-cancel_auto_select :
    (s : Session) (auto : ℕ)
    → s.room.auto_select_task ≡ some auto
    → is_pending (some auto) (cancel_auto_select s).tasks ≡ false
is_pending-cancel_auto_select s auto e = elim (Bool-cases (is_pending (some auto) s.tasks)) [
  | inl h ↦ rw (e, h) (is_pending-remove_task auto s.tasks)
  | inr h ↦ rw (e, h) h
]

none_offered : (word : Text) → mem_text word [] ≡ false
unfolding mem_text
none_offered word = refl

not_selecting :
    (env : Env) (drawer_id : ℕ) (t : Session)
    → t.room.state ≡ playing
    → run_job env (auto_select drawer_id) t ≡ t
unfolding run_job
not_selecting env drawer_id t e = rw e refl

-- The selection is over: nobody's selection and no automatic one does anything, the task of the
-- automatic one is gone, and the tasks of the turn are pending.
pub record Settled (later : Env) (auto : ℕ) (t : Session) : Type 0 where
  pub closed : (id : ℕ) (word : Text) → handle_word_selection later id word t ≡ t
  pub no_automatic : (drawer_id : ℕ) → run_job later (auto_select drawer_id) t ≡ t
  pub not_pending : is_pending (some auto) t.tasks ≡ false
  pub turn : TurnState
  pub is_turn : t.room.turn ≡ some turn
  pub hint_40_pending : is_pending turn.hint_task_40 t.tasks ≡ true
  pub hint_70_pending : is_pending turn.hint_task_70 t.tasks ≡ true
  pub timer_pending : is_pending turn.timer_task t.tasks ≡ true

-- The drawer selects an offered word, while the room names a task of the automatic selection that was
-- created before: from then on no selection by anybody and no automatic selection changes anything,
-- the automatic one is not pending, and both hints and the end of the new turn are.
pub handle_word_selection-Settled :
    (env later : Env) (drawer : Player) (word : Text) (s : Session) (auto : ℕ)
    → get_elem? s.room.players s.room.drawer_index ≡ some drawer
    → mem_text word (pending_words s.room.pending_word_choices) ≡ true
    → s.room.auto_select_task ≡ some auto
    → auto < s.next_task
    → Settled later auto (handle_word_selection env drawer.id word s)
handle_word_selection-Settled env later drawer word s auto at offered waits old =
    let t = handle_word_selection env drawer.id word s in
    let b = handle_word_selection-Begun env drawer word s at offered in
    let draws : get_elem? t.room.players t.room.drawer_index ≡ some (clear_guessed drawer) =
      ap (λ players. get_elem? players t.room.drawer_index) b.all_cleared
      ∙ ap (get_elem? (map clear_guessed s.room.players)) b.same_place.0
      ∙ get_elem?-map clear_guessed s.room.players s.room.drawer_index at in
    let pending : (id : ℕ) → is_pending (some id) t.tasks ≡ _ =
      λ id. ap (is_pending (some id)) b.scheduled ∙ is_pending-three id _ _ _ _ in
    record {
      closed = λ id other.
          handle_word_selection_rejected later (clear_guessed drawer) id other t draws
            (inr (ap (λ o. mem_text other (pending_words o)) b.offer_closed ∙ none_offered other));
      no_automatic = λ drawer_id. not_selecting later drawer_id t b.state;
      not_pending =
          let gone = is_pending-cancel_auto_select s auto waits in
          pending auto ∙ ground (arith, gone, old);
      turn = b.turn;
      is_turn = b.is_turn;
      hint_40_pending =
          ap (λ o. is_pending o t.tasks) b.tasks_named.0 ∙ pending s.next_task ∙ ground arith;
      hint_70_pending =
          ap (λ o. is_pending o t.tasks) b.tasks_named.1 ∙ pending (s.next_task + 1) ∙ ground arith;
      timer_pending =
          ap (λ o. is_pending o t.tasks) b.tasks_named.2
          ∙ pending (s.next_task + 1 + 1)
          ∙ ground arith;
    }
