-- ===== src/Turns/Advance.antt =====
-- The search for the next drawer.
use skribbl_app.Prelude.{
  ℕ, zero, suc, ◌+◌, ◌≤◌, ◌<◌, ◌≡◌, ◌≢◌, refl, ◌⊎◌, inl, inr, true, false, Bool-cases, some, List,
  [], ◌∷◌, length, get_elem?, get_elem?_total, count_if, arith, ltb, leb, ◌==◌,
}
use skribbl_app.Models.{Player, is_active}
use skribbl_app.Turns.{Rotation, drawer_at, rounds_complete, nobody, out_of_range, next_drawer}

-- No player who could draw has an index that meets a condition.
abbrev pub NoneActive {ℓ} : List Player → (ℕ → Type ℓ) → Type ℓ
NoneActive players C =
    (j : ℕ) (p : Player) → get_elem? players j ≡ some p → C j → is_active p ≡ false

pub get_elem?-lt {ℓ} :
    {A : Type ℓ} (xs : List A) (i : ℕ) {x : A} → get_elem? xs i ≡ some x → i < length xs
get_elem?-lt [] i e = absurd (cc)
get_elem?-lt (y ∷ xs) zero e = omega arith
get_elem?-lt (y ∷ xs) (suc i) e = omega (arith, get_elem?-lt xs i e)

module _ (num_rounds : ℕ) (players : List Player) where
  -- What the search found, when it began at an index and a round.
  abbrev pub Found : ℕ → ℕ → Rotation → Type 0
  Found index round (drawer_at i r) =
      (p : Player) × (get_elem? players i ≡ some p)
      × (is_active p ≡ true)
      × (r ≤ num_rounds)
      × ((r ≡ round) × (index ≤ i) × NoneActive players (λ j. (index ≤ j) × (j < i))
          ⊎ (r ≡ round + 1) × NoneActive players (λ j. index ≤ j) × NoneActive players (λ j. j < i))
  Found index round (rounds_complete i r) =
      (r ≡ num_rounds + 1)
      × NoneActive players (λ j. index ≤ j)
      × ((round ≡ num_rounds) ⊎ NoneActive players (λ j. 0 ≤ j))
  Found index round (nobody i r) = Unit
  Found index round (out_of_range i r) = ⊥

  module _ (index : ℕ) {p : Player} (at : get_elem? players index ≡ some p)
      (idle : is_active p ≡ false) where
    NoneActive-from : NoneActive players (λ j. index + 1 ≤ j) → NoneActive players (λ j. index ≤ j)
    NoneActive-from h j q e le = elim (Bool-cases (index == j)) [
      | inl same ↦ ground arith
      | inr other ↦ h j q e (ground arith)
    ]

    NoneActive-between :
        (i : ℕ)
        → NoneActive players (λ j. (index + 1 ≤ j) × (j < i))
        → NoneActive players (λ j. (index ≤ j) × (j < i))
    NoneActive-between i h j q e (le, lt) = elim (Bool-cases (index == j)) [
      | inl same ↦ ground arith
      | inr other ↦ h j q e (ground arith, lt)
    ]

    Found-next : (round : ℕ) (rot : Rotation) → Found (index + 1) round rot → Found index round rot
    Found-next round (drawer_at i r) (q, g, a, le, inl (same, lower, none_between)) =
        (q, g, a, le, inl (same, omega arith, NoneActive-between i none_between))
    Found-next round (drawer_at i r) (q, g, a, le, inr (later, none_after, none_before)) =
        (q, g, a, le, inr (later, NoneActive-from none_after, none_before))
    Found-next round (rounds_complete i r) (e, h, o) = (e, NoneActive-from h, o)
    Found-next round (nobody i r) f = f
    Found-next round (out_of_range i r) f = f

    NoneActive-last : length players ≤ index + 1 → NoneActive players (λ j. index ≤ j)
    NoneActive-last end =
        NoneActive-from (λ j q e le. absurd (omega (arith, get_elem?-lt players j e)))

    Found-round :
        (round : ℕ) (rot : Rotation)
        → length players ≤ index + 1
        → Found 0 (round + 1) rot
        → Found index round rot
    Found-round round (drawer_at i r) end (q, g, a, le, inl (same, _, none_between)) = (
      q,
      g,
      a,
      le,
      inr (same, NoneActive-last end, λ j p e lt. none_between j p e (omega arith, lt)),
    )
    Found-round round (drawer_at i r) end (q, g, a, le, inr (later, none_at_all, _)) =
        absurd (let idle_there = none_at_all i q g (omega arith) in cc)
    Found-round round (rounds_complete i r) end (e, h, o) = (e, NoneActive-last end, inr h)
    Found-round round (nobody i r) end f = f
    Found-round round (out_of_range i r) end f = f

  -- From an index in range, in a round that is to be played, the search never leaves the list. The
  -- drawer it finds is connected and no spectator, the round is one to be played, and everyone it
  -- passed over cannot draw; if it completes the rounds, nobody from the index on can draw.
  pub next_drawer-Found :
      (attempts index round : ℕ)
      → index < length players
      → round ≤ num_rounds
      → Found index round (next_drawer attempts num_rounds players index round)
  next_drawer-Found zero index round h le = tt
  next_drawer-Found (suc attempts) index round h le =
      let (p, at) = get_elem?_total players index h in
      step p at (Bool-cases (is_active p)) (next_drawer-Found attempts (index + 1) round)
        (next_drawer-Found attempts 0 (round + 1))
    where
      step :
          (p : Player)
          → get_elem? players index ≡ some p
          → (is_active p ≡ true) ⊎ (is_active p ≡ false)
          → (index + 1 < length players
              → round ≤ num_rounds
              → Found (index + 1) round (next_drawer attempts num_rounds players (index + 1) round))
          → (0 < length players
              → round + 1 ≤ num_rounds
              → Found 0 (round + 1) (next_drawer attempts num_rounds players 0 (round + 1)))
          → Found index round (next_drawer (suc attempts) num_rounds players index round)
      step p at (inl active) ih ih0 =
          rw (at, next_drawer, active)
            (
              p,
              at,
              active,
              le,
              inl (refl, omega arith, λ j q e c. absurd (omega (arith, c.0, c.1))),
            )
      step p at (inr idle) ih ih0 = elim (Bool-cases (leb (length players) (index + 1))) [
        | inl end ↦ elim (Bool-cases (ltb num_rounds (round + 1))) [
          | inl last ↦
              rw (at, next_drawer, idle, end, last)
                (ground arith, NoneActive-last index at idle (ground arith), inl (ground arith))
          | inr more ↦
              rw (at, next_drawer, idle, end, more)
                (Found-round index at idle round _ (ground arith)
                  (ih0 (omega arith) (ground arith)))
        ]
        | inr inside ↦
            rw (at, next_drawer, idle, inside)
              (Found-next index at idle round _ (ih (ground arith) le))
      ]

  -- The players that so many attempts from an index on look at, the list taken as a circle.
  abbrev Seen : ℕ → ℕ → ℕ → Type 0
  Seen attempts index j =
      (index ≤ j) × (j < index + attempts) ⊎ (j + length players < index + attempts)

  nobody-Seen :
      (attempts index round i r : ℕ)
      → index < length players
      → next_drawer attempts num_rounds players index round ≡ nobody i r
      → NoneActive players (Seen attempts index)
  nobody-Seen zero index round i r h e = λ j q g seen. absurd (ground arith)
  nobody-Seen (suc attempts) index round i r h e =
      let (p, at) = get_elem?_total players index h in
      step p at (Bool-cases (is_active p)) (nobody-Seen attempts (index + 1) round i r)
        (nobody-Seen attempts 0 (round + 1) i r)
    where
      step :
          (p : Player)
          → get_elem? players index ≡ some p
          → (is_active p ≡ true) ⊎ (is_active p ≡ false)
          → (index + 1 < length players
              → next_drawer attempts num_rounds players (index + 1) round ≡ nobody i r
              → NoneActive players (Seen attempts (index + 1)))
          → (0 < length players
              → next_drawer attempts num_rounds players 0 (round + 1) ≡ nobody i r
              → NoneActive players (Seen attempts 0))
          → NoneActive players (Seen (suc attempts) index)
      step p at (inl active) ih ih0 = absurd (cc (rw (at, next_drawer, active) at e))
      step p at (inr idle) ih ih0 = elim (Bool-cases (leb (length players) (index + 1))) [
        | inl end ↦ elim (Bool-cases (ltb num_rounds (round + 1))) [
          | inl last ↦ absurd (cc (rw (at, next_drawer, idle, end, last) at e))
          | inr more ↦ λ j q g seen. elim (Bool-cases (index == j)) [
            | inl same ↦ ground arith
            | inr other ↦
                ih0 (omega arith) (rw (at, next_drawer, idle, end, more) at e) j q g
                  (ground (arith, get_elem?-lt players j g))
          ]
        ]
        | inr inside ↦ λ j q g seen. elim (Bool-cases (index == j)) [
          | inl same ↦ ground arith
          | inr other ↦
              ih (ground arith) (rw (at, next_drawer, idle, inside) at e) j q g (ground arith)
        ]
      ]

pub count_if-NoneActive :
    (players : List Player)
    → ((j : ℕ) (p : Player) → get_elem? players j ≡ some p → is_active p ≡ false)
    → count_if is_active players ≡ 0
count_if-NoneActive [] h = refl
count_if-NoneActive (p ∷ players) h =
    ground (arith, h 0 p refl, count_if-NoneActive players (λ j. h (suc j)))

-- With somebody who can draw, the `else` branch of the loop is never reached.
pub next_drawer-ne-nobody :
    (num_rounds : ℕ) (players : List Player) (index round i r : ℕ)
    → index < length players
    → 0 < count_if is_active players
    → next_drawer (length players) num_rounds players index round ≢ nobody i r
next_drawer-ne-nobody num_rounds players index round i r h pos e =
    let none_at_all = count_if-NoneActive players (λ j p g.
      nobody-Seen num_rounds players (length players) index round i r h e j p g
        (ground (arith, get_elem?-lt players j g))) in
    omega arith
