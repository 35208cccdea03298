-- ===== src/Selection/Shift.antt =====
-- A player who sits before the drawer is removed while the drawer chooses a word.
use skribbl_app.Prelude.{
  ℕ, zero, suc, ◌<◌, ◌≡◌, ◌≢◌, refl, sym, ap, ◌∙◌, inl, inr, Bool, true, false, Bool-cases, not,
  Option, none, some, List, [], ◌∷◌, ◌++◌, arith, ◌==◌, any, keep, length, get_elem?, All,
  All-get_elem?, length-keep-le,
}
use skribbl_app.Text.{Text}
use skribbl_app.Random.{choice, next_draw}
use skribbl_app.Models.{Player, word_selection, state_eq, remove_player}
use skribbl_app.Session.{Env, Session, auto_select, set_room}
use skribbl_app.Selection.{selection_of, handle_word_selection, choose_for, choose_from, run_job}

keep-append : (f : Player → Bool) (xs ys : List Player) → keep f (xs ++ ys) ≡ keep f xs ++ keep f ys
keep-append f [] ys = refl
keep-append f (x ∷ xs) ys = elim (Bool-cases (f x)) [
  | inl e ↦ rw e (ap (λ l. x ∷ l) (keep-append f xs ys))
  | inr e ↦ rw e (keep-append f xs ys)
]

length-keep-lt :
    (id : ℕ) (xs : List Player)
    → any (λ p. p.id == id) xs ≡ true
    → length (keep (λ p. not (p.id == id)) xs) < length xs
length-keep-lt id [] h = absurd (cc)
length-keep-lt id (x ∷ xs) h =
    ground (arith, length-keep-lt id xs, length-keep-le (λ p. not (p.id == id)) xs)

All-keep :
    (P : Player → Type 0) (f : Player → Bool) (xs : List Player) → All P xs → All P (keep f xs)
All-keep P f [] h = tt
All-keep P f (x ∷ xs) h = elim (Bool-cases (f x)) [
  | inl e ↦ rw e (h.0, All-keep P f xs h.1)
  | inr e ↦ rw e (All-keep P f xs h.1)
]

get_elem?-after :
    (P : Player → Type 0) (xs : List Player) (y : Player) (ys : List Player) (n : ℕ) (q : Player)
    → length xs < n
    → All P ys
    → get_elem? (xs ++ y ∷ ys) n ≡ some q
    → P q
get_elem?-after P xs y ys zero q lt all e = absurd (omega arith)
get_elem?-after P [] y ys (suc n) q lt all e = All-get_elem? P ys n all e
get_elem?-after P (x ∷ xs) y ys (suc n) q lt all e =
    get_elem?-after P xs y ys n q (omega arith) all e

-- Who is at the drawer's index after the removal is not the drawer.
shifted :
    (id : ℕ) (front rest : List Player) (drawer q : Player)
    → any (λ p. p.id == id) front ≡ true
    → id ≢ drawer.id
    → All (λ p. p.id ≢ drawer.id) rest
    → get_elem? (keep (λ p. not (p.id == id)) (front ++ drawer ∷ rest)) (length front) ≡ some q
    → q.id ≢ drawer.id
shifted id front rest drawer q before other unique e =
    let stays : not (drawer.id == id) ≡ true = ground arith in
    let split : keep (λ p. not (p.id == id)) (front ++ drawer ∷ rest)
        ≡ keep (λ p. not (p.id == id)) front ++ drawer ∷ keep (λ p. not (p.id == id)) rest =
      keep-append (λ p. not (p.id == id)) front (drawer ∷ rest)
      ∙ ap (λ l. keep (λ p. not (p.id == id)) front ++ l) (rw stays refl) in
    get_elem?-after (λ p. p.id ≢ drawer.id) _ drawer _ (length front) q
      (length-keep-lt id front before)
      (All-keep (λ p. p.id ≢ drawer.id) (λ p. not (p.id == id)) rest unique)
      (sym (ap (λ l. get_elem? l (length front)) split) ∙ e)

refused_by :
    (env : Env) (o : Option Player) (id : ℕ) (word : Text) (s : Session)
    → ((q : Player) → o ≡ some q → q.id ≢ id)
    → (selection_of env o id word s).room ≡ s.room
refused_by env none id word s h = refl
refused_by env (some q) id word s h =
    let not_drawer : (id == q.id) ≡ false = ground (arith, h q refl) in rw not_drawer refl

choose_from-same :
    (env : Env) (id : ℕ) (o : Option (List Text)) (s : Session)
    → ((word : Text) → (handle_word_selection env id word s).room ≡ s.room)
    → (choose_from env id o s).room ≡ s.room
choose_from-same env id none s h = refl
choose_from-same env id (some words) s h = chosen (choice (next_draw env.draws) words)
  where
    chosen : (o : Option Text) → (choose_for env id o s).room ≡ s.room
    chosen none = refl
    chosen (some word) = h word

-- A drawer is at the drawer's index, and no player behind has the same id. Another player, who
-- sits before the drawer, is removed from the room. Then neither a selection by the drawer nor
-- the automatic selection for the drawer changes the room, whether a word is being chosen or
-- not.
pub handle_word_selection-remove_player :
    (env : Env) (id : ℕ) (front rest : List Player) (drawer : Player) (word : Text) (s : Session)
    → s.room.players ≡ front ++ drawer ∷ rest
    → s.room.drawer_index ≡ length front
    → any (λ p. p.id == id) front ≡ true
    → id ≢ drawer.id
    → All (λ p. p.id ≢ drawer.id) rest
    → ((handle_word_selection env drawer.id word (set_room (remove_player id) s)).room
        ≡ remove_player id s.room)
      × ((run_job env (auto_select drawer.id) (set_room (remove_player id) s)).room
          ≡ remove_player id s.room)
unfolding handle_word_selection run_job remove_player
handle_word_selection-remove_player env id front rest drawer word s seated index before other
      unique =
    let t : Session = set_room (remove_player id) s in
    let same : (w : Text) → (handle_word_selection env drawer.id w t).room ≡ t.room = λ w.
      refused_by env _ drawer.id w t (λ q e. shifted id front rest drawer q before other unique (
        sym (ap (get_elem? (keep (λ p. not (p.id == id)) (front ++ drawer ∷ rest))) index)
        ∙ (sym (ap (λ l. get_elem? (keep (λ p. not (p.id == id)) l) s.room.drawer_index) seated)
            ∙ e))) in
    (
      same word,
      elim (Bool-cases (state_eq s.room.state word_selection)) [
        | inl e ↦ rw e (choose_from-same env drawer.id s.room.pending_word_choices t same)
        | inr e ↦ rw e refl
      ],
    )
