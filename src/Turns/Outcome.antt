-- ===== src/Turns/Outcome.antt =====
-- How a room goes on when a turn has ended.
use skribbl_app.Prelude.{
  ℕ, ◌+◌, ◌≤◌, ◌<◌, ◌≡◌, ◌≢◌, refl, ◌⊎◌, inl, inr, true, false, Bool-cases, none, some, [], ◌∷◌,
  ◌++◌, ◌*◌, length, get_elem?, count_if, arith, ltb, leb, ltb→lt, leb→le,
}
use skribbl_app.Models.{game_over, word_selection, Player, Room, is_active}
use skribbl_app.Session.{Env, Session, second, auto_select}
use skribbl_app.Turns.{
  Rotation, drawer_at, rounds_complete, nobody, out_of_range, active_count, start_turn, finish_game,
  at_turn, follow, advance_from, advance_turn_or_round,
}
use skribbl_app.Turns.Advance.{
  NoneActive, Found, get_elem?-lt, count_if-NoneActive, next_drawer-Found, next_drawer-ne-nobody,
}

-- A room that plays has a round to be played, and a drawer index in range.
pub record InGame (r : Room) : Type 0 where
  pub index_in_range : r.drawer_index < length r.players
  pub round_to_play : r.current_round ≤ r.config.num_rounds

-- The place and the round after the drawer's, the list taken as a circle: everyone between cannot
-- draw, and the round is one more exactly when the search went past the end of the list.
abbrev pub IsNext : Room → (index round : ℕ) → Type 0
IsNext r index round =
    (round ≡ r.current_round)
      × (r.drawer_index < index)
      × NoneActive r.players (λ j. (r.drawer_index < j) × (j < index))
    ⊎ (round ≡ r.current_round + 1)
      × NoneActive r.players (λ j. r.drawer_index < j)
      × NoneActive r.players (λ j. j < index)

-- The next player who can draw chooses a word, and is waited for.
pub record Choosing (env : Env) (s t : Session) : Type 0 where
  pub state : t.room.state ≡ word_selection
  pub same_players : t.room.players ≡ s.room.players
  pub drawer : Player
  pub at_index : get_elem? t.room.players t.room.drawer_index ≡ some drawer
  pub can_draw : is_active drawer ≡ true
  pub is_next : IsNext s.room t.room.drawer_index t.room.current_round
  pub round_to_play : t.room.current_round ≤ t.room.config.num_rounds
  pub words_offered : t.room.pending_word_choices ≢ none
  pub timer_is : t.room.auto_select_task ≡ some s.next_task
  pub timer_runs :
      t.tasks
      ≡ s.tasks
        ++ record { id = s.next_task; job = auto_select drawer.id; due = env.now + 15 * second }
          ∷ []

-- The last round is played, nobody after the drawer being able to draw, and the game is over.
pub record Over (s t : Session) : Type 0 where
  pub state : t.room.state ≡ game_over
  pub last_round : s.room.current_round ≡ s.room.config.num_rounds
  pub rounds_played : t.room.current_round ≡ s.room.config.num_rounds + 1
  pub nobody_left : NoneActive s.room.players (λ j. s.room.drawer_index < j)

abbrev pub GoesOn : Env → Session → Session → Type 0
GoesOn env s t = Choosing env s t ⊎ Over s t

module _ (env : Env) (s : Session) where
  -- Where the search begins: behind the drawer, or at the first player in the next round.
  abbrev Begins : ℕ → ℕ → Type 0
  Begins index round =
      (round ≡ s.room.current_round) × (index ≡ s.room.drawer_index + 1)
      ⊎ (round ≡ s.room.current_round + 1)
        × (index ≡ 0)
        × (length s.room.players ≤ s.room.drawer_index + 1)

  none_behind :
      length s.room.players ≤ s.room.drawer_index + 1
      → NoneActive s.room.players (λ j. s.room.drawer_index < j)
  none_behind end j p e lt = absurd (omega (arith, get_elem?-lt s.room.players j e, end, lt))

  start_turn-Choosing :
      (index round : ℕ) (p : Player)
      → get_elem? s.room.players index ≡ some p
      → is_active p ≡ true
      → round ≤ s.room.config.num_rounds
      → IsNext s.room index round
      → Choosing env s (start_turn env (record s { room = at_turn index round s.room }))
  unfolding start_turn
  start_turn-Choosing index round p at active le next = rw at (record {
    state = refl;
    same_players = refl;
    drawer = p;
    at_index = at;
    can_draw = active;
    is_next = next;
    round_to_play = le;
    words_offered = λ e. cc;
    timer_is = refl;
    timer_runs = refl;
  })

  finish_game-Over :
      (index round : ℕ)
      → s.room.current_round ≡ s.room.config.num_rounds
      → round ≡ s.room.config.num_rounds + 1
      → NoneActive s.room.players (λ j. s.room.drawer_index < j)
      → Over s (finish_game (record s { room = at_turn index round s.room }))
  unfolding finish_game
  finish_game-Over index round last h none_left = record {
    state = refl;
    last_round = last;
    rounds_played = h;
    nobody_left = none_left;
  }

  found-IsNext :
      (index round i r : ℕ) (p : Player)
      → Begins index round
      → get_elem? s.room.players i ≡ some p
      → is_active p ≡ true
      → (r ≡ round) × (index ≤ i) × NoneActive s.room.players (λ j. (index ≤ j) × (j < i))
        ⊎ (r ≡ round + 1)
          × NoneActive s.room.players (λ j. index ≤ j)
          × NoneActive s.room.players (λ j. j < i)
      → IsNext s.room i r
  found-IsNext index round i r p (inl (same, behind)) at active (inl (e, le, between)) =
      inl (omega arith, omega arith, λ j q g c. between j q g (omega (arith, c.0), c.1))
  found-IsNext index round i r p (inl (same, behind)) at active (inr (e, after, before)) =
      inr (omega arith, (λ j q g lt. after j q g (omega (arith, lt))), before)
  found-IsNext index round i r p (inr (next, first, end)) at active (inl (e, le, between)) =
      inr (omega arith, none_behind end, λ j q g lt. between j q g (omega arith, lt))
  found-IsNext index round i r p (inr (next, first, end)) at active (inr (e, after, before)) =
      absurd (let idle_there = after i p at (omega arith) in cc)

  none_left :
      (index round : ℕ)
      → Begins index round
      → NoneActive s.room.players (λ j. index ≤ j)
      → NoneActive s.room.players (λ j. s.room.drawer_index < j)
  none_left index round (inl (same, behind)) after = λ j q g lt. after j q g (omega (arith, lt))
  none_left index round (inr (next, first, end)) after = none_behind end

  follow-GoesOn :
      (index round : ℕ) (rot : Rotation)
      → Begins index round
      → 0 < count_if is_active s.room.players
      → Found s.room.config.num_rounds s.room.players index round rot
      → ((i r : ℕ) → rot ≢ nobody i r)
      → GoesOn env s (follow env rot s)
  follow-GoesOn index round (drawer_at i r) b pos (p, at, active, le, o) n =
      inl (start_turn-Choosing i r p at active le (found-IsNext index round i r p b at active o))
  follow-GoesOn index round (rounds_complete i r) (inl (same, behind)) pos (e, after, inl last) n =
      inr (finish_game-Over i r (omega arith) e (none_left index round (inl (same, behind)) after))
  follow-GoesOn index round (rounds_complete i r) (inr (next, first, end)) pos (e, after, inl last)
        n =
      absurd (
        let none_at_all = count_if-NoneActive s.room.players (λ j p g. after j p g (omega arith)) in
        omega arith)
  follow-GoesOn index round (rounds_complete i r) b pos (e, after, inr idle) n = absurd (
      let none_at_all = count_if-NoneActive s.room.players (λ j p g. idle j p g (omega arith)) in
      omega arith)
  follow-GoesOn index round (nobody i r) b pos f n = absurd (n i r refl)
  follow-GoesOn index round (out_of_range i r) b pos f n = absurd f

  advance_from-GoesOn :
      (index round : ℕ)
      → Begins index round
      → index < length s.room.players
      → 0 < count_if is_active s.room.players
      → s.room.current_round ≤ s.room.config.num_rounds
      → GoesOn env s (advance_from env index round s)
  advance_from-GoesOn index round b h pos playable =
      elim (Bool-cases (ltb s.room.config.num_rounds round)) [
        | inl done ↦ rw done (inr (over b (ltb→lt _ _ done)))
        | inr more ↦ rw more (
            follow-GoesOn index round _ b pos
              (next_drawer-Found s.room.config.num_rounds s.room.players (length s.room.players)
                index round h (ground arith))
              (λ i r.
                next_drawer-ne-nobody s.room.config.num_rounds s.room.players index round i r h
                  pos))
      ]
    where
      over :
          Begins index round
          → s.room.config.num_rounds < round
          → Over s (finish_game (record s { room = at_turn index round s.room }))
      over (inl (same, behind)) past = absurd (omega arith)
      over (inr (next, first, end)) past =
          finish_game-Over index round (omega arith) (omega arith) (none_behind end)

-- When at least two players can play, a game goes on after a turn. Either the next player who can draw
-- chooses a word: everyone between the drawer and the next one, the list taken as a circle, cannot
-- draw, the round is the next one exactly if the search passed the end of the list, and it is to be
-- played, and the automatic selection is scheduled in 15 seconds. Or the last round was played, nobody
-- behind the drawer can draw, and the game is over.
pub advance_turn_or_round-GoesOn :
    (env : Env) (s : Session)
    → InGame s.room
    → 2 ≤ active_count s.room
    → GoesOn env s (advance_turn_or_round env s)
unfolding advance_turn_or_round
advance_turn_or_round-GoesOn env s g two =
    let enough : ltb (active_count s.room) 2 ≡ false = ground arith in
    elim (Bool-cases (leb (length s.room.players) (s.room.drawer_index + 1))) [
      | inl end ↦
          rw (enough, end)
            (advance_from-GoesOn env s 0 (s.room.current_round + 1)
              (inr (refl, refl, leb→le _ _ end)) (omega (arith, g.index_in_range)) (omega arith)
              g.round_to_play)
      | inr more ↦
          rw (enough, more)
            (advance_from-GoesOn env s (s.room.drawer_index + 1) s.room.current_round
              (inl (refl, refl)) (ground arith) (omega arith) g.round_to_play)
    ]
