-- ===== src/Deletion/Entries.antt =====
-- What popping does to lookups, and to the index of players.
use mathlib.Core.Path.{subst}
use skribbl_app.Prelude.{
  ℕ, ◌≡◌, refl, sym, ◌∙◌, inl, inr, true, false, Bool-cases, Option, none, some, List, [], ◌∷◌,
  arith, any, All, ◌==◌, ==_iff,
}
use skribbl_app.Models.{Player, Room}
use skribbl_app.Registry.{Manager, lookup, seats}
use skribbl_app.Registry.Index.{Keyed, Consistent}
use skribbl_app.Deletion.{pop, unlist, unlist_room, drop_room}

module _ {ℓ} {A : Type ℓ} where
  pub lookup-pop : (key : ℕ) (entries : List (ℕ × A)) → lookup key (pop key entries) ≡ none
  lookup-pop key [] = refl
  lookup-pop key ((k, a) ∷ entries) = elim (Bool-cases (k == key)) [
    | inl e ↦ rw e (lookup-pop key entries)
    | inr e ↦ rw (e, e) (lookup-pop key entries)
  ]

  -- Another key than the popped one has the entry that it had.
  pub lookup-pop_other :
      (key other : ℕ) (entries : List (ℕ × A))
      → (other == key) ≡ false
      → lookup other (pop key entries) ≡ lookup other entries
  lookup-pop_other key other [] ne = refl
  lookup-pop_other key other ((k, a) ∷ entries) ne =
      let ih = lookup-pop_other key other entries ne in
      elim (Bool-cases (k == key)) [
        | inl e ↦ let apart : (k == other) ≡ false = ground (arith, e, ne) in rw (e, apart) ih
        | inr e ↦ rw e (rw ih refl)
      ]

  -- What is found after a pop was there before, under another key.
  pub lookup-popped :
      (key other : ℕ) (entries : List (ℕ × A)) (a : A)
      → lookup other (pop key entries) ≡ some a
      → (lookup other entries ≡ some a) × ((other == key) ≡ false)
  lookup-popped key other entries a e = elim (Bool-cases (other == key)) [
    | inl s ↦
        let same : other ≡ key = (==_iff other key).0 s in
        let gone : lookup other (pop key entries) ≡ none = rw same (lookup-pop key entries) in
        absurd (cc)
    | inr s ↦ (sym (lookup-pop_other key other entries s) ∙ e, s)
  ]

-- An entry of the index that is left names nobody of the room.
lookup-unlist :
    (players : List Player) (index : List (ℕ × ℕ)) (id code : ℕ)
    → lookup id (unlist players index) ≡ some code
    → (lookup id index ≡ some code) × (any (λ p. p.id == id) players ≡ false)
lookup-unlist [] index id code e = (e, refl)
lookup-unlist (p ∷ players) index id code e =
    let (left, others) = lookup-unlist players (pop p.id index) id code e in
    let (was, apart) = lookup-popped p.id id index code left in (was, ground (arith, others, apart))

module _ (code : ℕ) where
  Keyed-pop :
      (all rooms : List (ℕ × Room))
      → Keyed all rooms
      → All (λ e. e.0 ≡ e.1.code) rooms
      → Keyed (pop code all) (pop code rooms)
  Keyed-pop all [] k own = tt
  Keyed-pop all ((c, room) ∷ rooms) k own =
      let ih = Keyed-pop all rooms k.1 own.1 in
      elim (Bool-cases (c == code)) [
        | inl e ↦ rw e ih
        | inr e ↦
            let here : c ≡ room.code = own.0 in
            let apart : (room.code == code) ≡ false = ground (arith, e, here) in
            rw e (lookup-pop_other code room.code all apart ∙ k.0, ih)
      ]

  -- An entry that names another room than the deleted one still has it.
  kept-entry :
      (id c : ℕ) (m : Manager)
      → (c == code) ≡ false
      → (room : Room) × (lookup c m.rooms ≡ some room) × (seats id room ≡ true)
      → (room : Room) × (lookup c (pop code m.rooms) ≡ some room) × (seats id room ≡ true)
  kept-entry id c m apart (room, at, seated) =
      (room, lookup-pop_other code c m.rooms apart ∙ at, seated)

  indexed-drop :
      (found : Option Room) (m : Manager) (id c : ℕ)
      → lookup code m.rooms ≡ found
      → Consistent m
      → lookup id (unlist_room found m.player_to_room) ≡ some c
      → (room : Room) × (lookup c (pop code m.rooms) ≡ some room) × (seats id room ≡ true)
  indexed-drop none m id c none_there ok e =
      let (room, at, seated) = ok.indexed id c e in
      elim (Bool-cases (c == code)) [
        | inl s ↦
            let same : c ≡ code = (==_iff c code).0 s in
            let gone : lookup c m.rooms ≡ none = rw same none_there in absurd (cc)
        | inr s ↦ kept-entry id c m s (room, at, seated)
      ]
  indexed-drop (some r) m id c there ok e =
      let (was, unseated) = lookup-unlist r.players m.player_to_room id c e in
      let (room, at, seated) = ok.indexed id c was in
      elim (Bool-cases (c == code)) [
        | inl s ↦
            let same : c ≡ code = (==_iff c code).0 s in
            let here : lookup c m.rooms ≡ some r = rw same there in
            let is : some r ≡ some room = sym here ∙ at in
            let one : r ≡ room = ground (arith, is) in
            let unseated_there : seats id room ≡ false =
              subst (λ x. seats id x ≡ false) one unseated in
            absurd (cc)
        | inr s ↦ kept-entry id c m s (room, at, seated)
      ]

  pub drop_room-Consistent :
      (m : Manager)
      → All (λ e. e.0 ≡ e.1.code) m.rooms
      → Consistent m
      → Consistent (drop_room code m)
  drop_room-Consistent m own ok = record {
    keyed = Keyed-pop m.rooms m.rooms ok.keyed own;
    indexed = λ id c e. indexed-drop (lookup code m.rooms) m id c refl ok e;
  }
