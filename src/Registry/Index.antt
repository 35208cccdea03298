-- ===== src/Registry/Index.antt =====
-- The index of players agrees with the rooms.
use mathlib.Core.Path.{subst}
use skribbl_app.Prelude.{
  ℕ, ◌≡◌, refl, sym, ap, ◌∙◌, inl, inr, true, false, Bool-cases, Option, none, some, List, [], ◌∷◌,
  arith, All, ◌==◌, ==_iff,
}
use skribbl_app.Models.{Room}
use skribbl_app.Registry.{Manager, lookup, seats, scan, remember, find_by, find_room_by_player}

-- Every room stands under its own code.
abbrev pub Keyed : List (ℕ × Room) → List (ℕ × Room) → Type 0
Keyed all [] = Unit
Keyed all ((code, room) ∷ rooms) = (lookup room.code all ≡ some room) × Keyed all rooms

-- Every player in the index is in the room that it names.
pub record Consistent (m : Manager) : Type 0 where
  pub keyed : Keyed m.rooms m.rooms
  pub indexed :
      (id code : ℕ)
      → lookup id m.player_to_room ≡ some code
      → (room : Room) × (lookup code m.rooms ≡ some room) × (seats id room ≡ true)

-- A room that was found has the player, and where none is found no room has.
abbrev pub Right : ℕ → Manager → Option Room → Type 0
Right id m none = All (λ e. seats id e.1 ≡ false) m.rooms
Right id m (some room) = (seats id room ≡ true) × (lookup room.code m.rooms ≡ some room)

scan_failed :
    (id : ℕ) (rooms : List (ℕ × Room))
    → scan id rooms ≡ none
    → All (λ e. seats id e.1 ≡ false) rooms
scan_failed id [] e = tt
scan_failed id ((code, room) ∷ rooms) e = elim (Bool-cases (seats id room)) [
  | inl s ↦ ground arith
  | inr s ↦ (s, scan_failed id rooms (ground (arith, e)))
]

scan_found :
    (id : ℕ) (all rooms : List (ℕ × Room)) (found : Room)
    → scan id rooms ≡ some found
    → Keyed all rooms
    → (seats id found ≡ true) × (lookup found.code all ≡ some found)
scan_found id all [] found e k = absurd (cc)
scan_found id all ((code, room) ∷ rooms) found e k = elim (Bool-cases (seats id room)) [
  | inl s ↦
      let is : room ≡ found = ground (arith, e) in
      subst (λ r. (seats id r ≡ true) × (lookup r.code all ≡ some r)) is (s, k.0)
  | inr s ↦ scan_found id all rooms found (ground (arith, e)) k.1
]

lookup-Keyed :
    (all rooms : List (ℕ × Room)) (code : ℕ) (room : Room)
    → lookup code rooms ≡ some room
    → Keyed all rooms
    → lookup room.code all ≡ some room
lookup-Keyed all [] code room e k = absurd (cc)
lookup-Keyed all ((c, r) ∷ rooms) code room e k = elim (Bool-cases (c == code)) [
  | inl s ↦ let is : r ≡ room = ground (arith, e) in subst (λ x. lookup x.code all ≡ some x) is k.0
  | inr s ↦ lookup-Keyed all rooms code room (ground (arith, e)) k.1
]

pub remember-Consistent :
    (id : ℕ) (room : Room) (m : Manager)
    → Consistent m
    → seats id room ≡ true
    → lookup room.code m.rooms ≡ some room
    → Consistent (record m { player_to_room = (id, room.code) ∷ m.player_to_room })
remember-Consistent id room m ok seated stands = record {
  keyed = ok.keyed;
  indexed = λ j code e. entry j code e;
}
  where
    entry :
        (j code : ℕ)
        → lookup j ((id, room.code) ∷ m.player_to_room) ≡ some code
        → (r : Room) × (lookup code m.rooms ≡ some r) × (seats j r ≡ true)
    entry j code e = elim (Bool-cases (id == j)) [
      | inl s ↦
          let is : room.code ≡ code = ground (arith, e) in
          let here : id ≡ j = (==_iff id j).0 s in
          (
            room,
            ap (λ c. lookup c m.rooms) (sym is) ∙ stands,
            ap (λ i. seats i room) (sym here) ∙ seated,
          )
      | inr s ↦ ok.indexed j code (ground (arith, e))
    ]

found_by :
    (id : ℕ) (o : Option ℕ) (m : Manager)
    → lookup id m.player_to_room ≡ o
    → Consistent m
    → Right id m (find_by id o m).0 × Consistent (find_by id o m).1
found_by id (some code) m e ok =
    let (room, at, seated) = ok.indexed id code e in
    (subst (Right id m) (sym at) (seated, lookup-Keyed m.rooms m.rooms code room at ok.keyed), ok)
found_by id none m e ok = scanned (scan id m.rooms) refl
  where
    scanned :
        (o : Option Room)
        → scan id m.rooms ≡ o
        → Right id m (remember id o m).0 × Consistent (remember id o m).1
    scanned none s = (scan_failed id m.rooms s, ok)
    scanned (some room) s =
        let (seated, stands) = scan_found id m.rooms m.rooms room s ok.keyed in
        ((seated, stands), remember-Consistent id room m ok seated stands)

-- The search for the room of a player, by the index or through all rooms, finds a room of the manager
-- that has the player, and finds none only if no room has; what it remembers keeps the index right.
pub find_room_by_player-Right :
    (id : ℕ) (m : Manager)
    → Consistent m
    → Right id m (find_room_by_player id m).0 × Consistent (find_room_by_player id m).1
unfolding find_room_by_player
find_room_by_player-Right id m ok = found_by id (lookup id m.player_to_room) m refl ok
