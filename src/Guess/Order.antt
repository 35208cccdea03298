-- ===== src/Guess/Order.antt =====
-- The order of the correct guesses: nobody stands in it twice, and the drawer never.
use mathlib.Core.Path.{subst}
use skribbl_app.Prelude.{
  ℕ, ◌≡◌, ◌≢◌, refl, ap, sym, ◌∙◌, Bool, true, false, not, ◌||◌, Bool-cases, inl, inr, Option, none,
  some, List, [], ◌∷◌, ◌++◌, length, arith, ltb, ◌==◌,
}
use skribbl_app.Text.{Text, text_eq, strip}
use skribbl_app.Models.{Player, TurnState, Room, all_guessed, get_player, modify_player}
use skribbl_app.Session.{Env, Session}
use skribbl_app.EndTurn.{find_player, mem_id, end_turn}
use skribbl_app.EndTurn.Stop.{end_turn-NoTurn}
use skribbl_app.Guess.{
  is_close, all_have_guessed, mark_guessed, correct_guess, wrong_guess, guess_of, guess_by,
  guess_in, active_of, active_turn, handle_guess,
}

abbrev has_settled : Option Player → Bool
has_settled none = true
has_settled (some p) = p.has_guessed

-- No player with this id has a guess left.
abbrev pub settled : ℕ → List Player → Bool
settled id players = has_settled (find_player id players)

abbrev pub Distinct : List ℕ → Type 0
Distinct [] = Unit
Distinct (x ∷ xs) = (mem_id x xs ≡ false) × Distinct xs

-- Everyone in the order is marked as having guessed, stands there once, and is not the drawer.
pub record FairOrder (players : List Player) (turn : TurnState) : Type 0 where
  pub marked : (id : ℕ) → mem_id id turn.guess_order ≡ true → settled id players ≡ true
  pub distinct : Distinct turn.guess_order
  pub not_drawer : mem_id turn.drawer_id turn.guess_order ≡ false

abbrev pub FairTurn : List Player → Option TurnState → Type 0
FairTurn players none = Unit
FairTurn players (some turn) = FairOrder players turn

mem_id-snoc : (id x : ℕ) (xs : List ℕ) → mem_id id (xs ++ x ∷ []) ≡ (mem_id id xs || (x == id))
mem_id-snoc id x [] = ground arith
mem_id-snoc id x (y ∷ xs) = ground (arith, mem_id-snoc id x xs)

Distinct-snoc : (x : ℕ) (xs : List ℕ) → Distinct xs → mem_id x xs ≡ false → Distinct (xs ++ x ∷ [])
Distinct-snoc x [] d h = (refl, tt)
Distinct-snoc x (y ∷ xs) d h =
    (ground (arith, mem_id-snoc y x xs, d.0), Distinct-snoc x xs d.1 (ground arith))

settled-mark :
    (now id j : ℕ) (players : List Player)
    → settled j (modify_player id (mark_guessed now) players) ≡ ((id == j) || settled j players)
unfolding modify_player
settled-mark now id j [] = ground arith
settled-mark now id j (p ∷ players) = ground (arith, settled-mark now id j players)

find_player-id :
    (id : ℕ) (players : List Player) (p : Player) → find_player id players ≡ some p → p.id ≡ id
find_player-id id [] p e = absurd (cc)
find_player-id id (q ∷ players) p e = ground (arith, find_player-id id players p)

module _ (now : ℕ) (players : List Player) (turn : TurnState) (player : Player) where
  -- One more correct guess, of a player who has one left and is not the drawer.
  FairOrder-snoc :
      FairOrder players turn
      → settled player.id players ≡ false
      → player.id ≢ turn.drawer_id
      → FairOrder
          (modify_player player.id (mark_guessed now) players)
          (record turn { guess_order = turn.guess_order ++ player.id ∷ [] })
  FairOrder-snoc f left other =
      let fresh : mem_id player.id turn.guess_order ≡ false = ground (arith, f.marked player.id) in
      record {
        marked = λ id m. ground (
          arith,
          mem_id-snoc id player.id turn.guess_order,
          settled-mark now player.id id players,
          f.marked id,
        );
        distinct = Distinct-snoc player.id turn.guess_order f.distinct fresh;
        not_drawer =
            ground (arith, mem_id-snoc turn.drawer_id player.id turn.guess_order, f.not_drawer);
      }

abbrev IsFair : Session → Type 0
IsFair s = FairTurn s.room.players s.room.turn

no_turn-IsFair : (s : Session) → s.room.turn ≡ none → IsFair s
no_turn-IsFair s e = subst (λ o. FairTurn s.room.players o) (sym e) tt

module _ (env : Env) (player : Player) (turn : TurnState) (text : Text) (s : Session)
    (running : s.room.turn ≡ some turn) (fair : FairOrder s.room.players turn) where
  unchanged : IsFair s
  unchanged = subst (λ o. FairTurn s.room.players o) (sym running) fair

  correct_guess-IsFair :
      settled player.id s.room.players ≡ false
      → player.id ≢ turn.drawer_id
      → IsFair (correct_guess env player turn s)
  correct_guess-IsFair left other =
      elim (Bool-cases (
        all_have_guessed turn.drawer_id
          (modify_player player.id (mark_guessed env.now) s.room.players))) [
            | inl last ↦
                rw last
                  (no_turn-IsFair (end_turn env all_guessed _) (end_turn-NoTurn env all_guessed _))
            | inr more ↦ rw more (FairOrder-snoc env.now s.room.players turn player fair left other)
          ]

  wrong_guess-IsFair : IsFair (wrong_guess env player turn text s)
  wrong_guess-IsFair =
      elim (Bool-cases
        (is_close (env.unicode.lower (strip env.unicode text)) (env.unicode.lower turn.word))) [
          | inl e ↦ rw e unchanged
          | inr e ↦ rw e unchanged
        ]

  guess_of-IsFair :
      find_player player.id s.room.players ≡ some player → IsFair (guess_of env player turn text s)
  guess_of-IsFair at = elim (Bool-cases (player.id == turn.drawer_id)) [
    | inl e ↦ rw e unchanged
    | inr other ↦ elim (Bool-cases player.is_spectator) [
      | inl e ↦ rw (other, e) unchanged
      | inr plays ↦ elim (Bool-cases player.has_guessed) [
        | inl e ↦ rw (other, plays, e) unchanged
        | inr left ↦ elim (Bool-cases (not player.is_connected)) [
          | inl e ↦ rw (other, plays, left, e) unchanged
          | inr there ↦
              elim (Bool-cases (
                text_eq (env.unicode.lower (strip env.unicode text))
                  (env.unicode.lower turn.word))) [
                    | inl right ↦
                        rw (other, plays, left, there, right)
                          (correct_guess-IsFair (ap has_settled at ∙ left) (ground arith))
                    | inr wrong ↦ rw (other, plays, left, there, wrong) wrong_guess-IsFair
                  ]
        ]
      ]
    ]
  ]

active_of-some :
    (r : Room) {turn : TurnState} (o : Option TurnState)
    → active_of r.state o ≡ some turn
    → o ≡ some turn
active_of-some r none e = absurd (cc)
active_of-some r (some turn) e = ground arith

module _ (env : Env) (id : ℕ) (text : Text) (s : Session) (fair : IsFair s) where
  guess_by-IsFair :
      (turn : TurnState) (o : Option Player)
      → s.room.turn ≡ some turn
      → find_player id s.room.players ≡ o
      → IsFair (guess_by env o turn text s)
  guess_by-IsFair turn none running at = fair
  guess_by-IsFair turn (some player) running at =
      guess_of-IsFair env player turn text s running
        (subst (λ o. FairTurn s.room.players o) running fair)
        (ap (λ i. find_player i s.room.players) (find_player-id id s.room.players player at) ∙ at)

  guess_in-IsFair :
      (o : Option TurnState) → active_turn s.room ≡ o → IsFair (guess_in env id text o s)
  guess_in-IsFair none e = fair
  guess_in-IsFair (some turn) e = elim (Bool-cases (ltb 100 (length text))) [
    | inl long ↦ rw long fair
    | inr short ↦ rw short (
        guess_by-IsFair turn (get_player id s.room) (active_of-some s.room s.room.turn e)
          (unfold get_player in refl))
  ]

-- Whatever is guessed by whoever, the order of correct guesses stays fair: everyone in it is marked
-- as having guessed, nobody stands in it twice, and the drawer never does.
pub handle_guess-IsFair :
    (env : Env) (id : ℕ) (text : Text) (s : Session)
    → FairTurn s.room.players s.room.turn
    → FairTurn (handle_guess env id text s).room.players (handle_guess env id text s).room.turn
unfolding handle_guess
handle_guess-IsFair env id text s fair =
    guess_in-IsFair env id text s fair (active_turn s.room) refl
