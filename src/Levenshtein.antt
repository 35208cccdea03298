-- ===== src/Levenshtein.antt =====
-- backend/game_engine.py, `_levenshtein_distance`: the row-by-row computation of the edit distance.
pub mod Edit
pub mod Rows
pub mod Scripts
use skribbl_app.Prelude.{ℕ, zero, suc, ◌+◌, min, List, [], ◌∷◌, length, ltb, ◌==◌, if◌then◌else◌}
use skribbl_app.Text.{Text}

-- `prev_row[j] + (c1 != c2)` adds this.
abbrev pub mismatch : ℕ → ℕ → ℕ
mismatch c1 c2 = if c1 == c2 then 0 else 1

-- `list(range(start, start + n))`
pub range_from : ℕ → ℕ → List ℕ
range_from start zero = []
range_from start (suc n) = start ∷ range_from (start + 1) n

-- The inner loop, from index `j` on: the arguments are `c1`, `s2[j:]`, `prev_row[j:]` and
-- `curr_row[j]`, and the result is what the loop appends to `curr_row`. A row has one cell more
-- than the text that is left, so that the last clause is for lengths that do not occur.
pub row_cells : ℕ → Text → List ℕ → ℕ → List ℕ
row_cells c1 [] prev left = []
row_cells c1 (c2 ∷ s2) (diagonal ∷ above ∷ prev) left =
    let cell = min (min (above + 1) (left + 1)) (diagonal + mismatch c1 c2) in
    cell ∷ row_cells c1 s2 (above ∷ prev) cell
row_cells c1 (c2 ∷ s2) _ left = []

-- The outer loop, from index `i` on: the arguments are `i`, `s1[i:]`, `s2` and `prev_row`.
pub all_rows : ℕ → Text → Text → List ℕ → List ℕ
all_rows i [] s2 prev = prev
all_rows i (c1 ∷ s1) s2 prev = all_rows (i + 1) s1 s2 ((i + 1) ∷ row_cells c1 s2 prev (i + 1))

-- `row[-1]`; a row is never empty.
pub last : List ℕ → ℕ
last [] = 0
last (x ∷ []) = x
last (x ∷ y ∷ row) = last (y ∷ row)

-- The body behind the first test.
pub distance_of_longer : Text → Text → ℕ
unfolding range_from row_cells all_rows last
distance_of_longer s1 s2 =
    if length s2 == 0 then length s1 else last (all_rows 0 s1 s2 (range_from 0 (length s2 + 1)))

unfoldable pub levenshtein_distance : Text → Text → ℕ
unfolding distance_of_longer
levenshtein_distance s1 s2 =
    if ltb (length s1) (length s2) then distance_of_longer s2 s1 else distance_of_longer s1 s2
