-- ===== src/Random/Choice.antt =====
-- What a random choice and a random sample can be, whatever is drawn.
use native.Mathlib.Nat.{mod-lt}
use skribbl_app.Prelude.{
  ℕ, zero, suc, ◌%◌, ◌≤◌, ◌<◌, ◌≡◌, refl, Option, none, some, List, [], ◌∷◌, length,
  get_elem?_total, All, All-get_elem?, arith,
}
use skribbl_app.Random.{choice, drop_at, next_draw, later_draws, cons_some, sample}

module _ {ℓ} {A : Type ℓ} where
  -- A choice from a list with an element succeeds.
  pub choice_total : (draw : ℕ) (xs : List A) → 0 < length xs → (x : A) × (choice draw xs ≡ some x)
  unfolding choice
  choice_total draw xs h = get_elem?_total xs (draw % length xs) (mod-lt draw h)

  -- A choice has every property that all elements have.
  pub All-choice {κ} :
      (P : A → Type κ) (draw : ℕ) (xs : List A) {x : A} → All P xs → choice draw xs ≡ some x → P x
  unfolding choice
  All-choice P draw xs h e = All-get_elem? P xs (draw % length xs) h e

  pub All-drop_at {κ} : (P : A → Type κ) (xs : List A) (i : ℕ) → All P xs → All P (drop_at xs i)
  All-drop_at P [] i h = h
  All-drop_at P (x ∷ xs) zero h = h.1
  All-drop_at P (x ∷ xs) (suc i) h = (h.0, All-drop_at P xs i h.1)

  length-drop_at : (xs : List A) (i : ℕ) → i < length xs → suc (length (drop_at xs i)) ≡ length xs
  length-drop_at [] i h = elim h [ ]
  length-drop_at (x ∷ xs) zero h = refl
  length-drop_at (x ∷ xs) (suc i) h = omega (arith, length-drop_at xs i (omega arith))

  -- Every element of a sample is one of the list.
  pub All-sample {κ} :
      (P : A → Type κ) (draws : List ℕ) (xs : List A) (k : ℕ) → All P xs → All P (sample draws xs k)
  unfolding sample
  All-sample P draws xs zero h = tt
  All-sample P draws xs (suc k) h =
      add (choice (next_draw draws) xs) refl _
        (All-sample P (later_draws draws) _ k (All-drop_at P xs (next_draw draws % length xs) h))
    where
      add :
          (o : Option A)
          → o ≡ choice (next_draw draws) xs
          → (rest : List A) → All P rest
          → All P (cons_some o rest)
      add none e rest r = r
      add (some x) e rest r = (All-choice P (next_draw draws) xs h (cc), r)

  -- A sample of at most as many as there are has the asked length.
  pub length-sample :
      (draws : List ℕ) (xs : List A) (k : ℕ) → k ≤ length xs → length (sample draws xs k) ≡ k
  unfolding sample
  length-sample draws xs zero h = refl
  length-sample draws xs (suc k) h =
      let d = next_draw draws in
      let (x, e) = choice_total d xs (omega arith) in
      let short = length-drop_at xs (d % length xs) (mod-lt d (omega arith)) in
      rw e (
        omega (
          arith,
          length-sample (later_draws draws) (drop_at xs (d % length xs)) k (omega (arith, short)),
        ))
