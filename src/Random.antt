-- ===== src/Random.antt =====
-- Python's `random`, as far as the backend calls it. A call takes the numbers that it draws as an
-- argument, so that a theorem holds for every outcome.
pub mod Choice
use skribbl_app.Prelude.{ℕ, zero, suc, ◌%◌, Option, none, some, List, [], ◌∷◌, length, get_elem?}

-- `random.choice(xs)`: an element of `xs`, or IndexError (`none`) on an empty list.
unfoldable pub choice {ℓ} : {A : Type ℓ} → ℕ → List A → Option A
choice draw xs = get_elem? xs (draw % length xs)

-- The list without the element at an index.
abbrev pub drop_at {ℓ} : {A : Type ℓ} → List A → ℕ → List A
drop_at [] i = []
drop_at (x ∷ xs) zero = xs
drop_at (x ∷ xs) (suc i) = x ∷ drop_at xs i

-- The head of the draws that are left, and the rest; a script that ends goes on with 0.
abbrev pub next_draw : List ℕ → ℕ
next_draw [] = 0
next_draw (d ∷ ds) = d

abbrev pub later_draws : List ℕ → List ℕ
later_draws [] = []
later_draws (d ∷ ds) = ds

abbrev pub draws_after : ℕ → List ℕ → List ℕ
draws_after zero ds = ds
draws_after (suc k) ds = draws_after k (later_draws ds)

abbrev pub cons_some {ℓ} : {A : Type ℓ} → Option A → List A → List A
cons_some none xs = xs
cons_some (some x) xs = x ∷ xs

-- `random.sample(xs, k)` for `k <= len(xs)`: `k` elements from different places, in any order.
unfoldable pub sample {ℓ} : {A : Type ℓ} → List ℕ → List A → ℕ → List A
unfolding choice
sample draws xs zero = []
sample draws xs (suc k) =
    let d = next_draw draws in
    cons_some (choice d xs) (sample (later_draws draws) (drop_at xs (d % length xs)) k)

-- `random.shuffle(xs)`: all elements, in any order.
unfoldable pub shuffle {ℓ} : {A : Type ℓ} → List ℕ → List A → List A
unfolding sample
shuffle draws xs = sample draws xs (length xs)
