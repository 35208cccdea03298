-- ===== src/Levenshtein/Rows.antt =====
-- The rows of the table, and the distance that the program reads off its last cell.
use skribbl_app.Prelude.{ℕ, suc, ◌+◌, ◌≡◌, refl, ap, ◌∙◌, false, List, [], ◌∷◌, length, arith, ◌==◌}
use skribbl_app.Text.{Text}
use skribbl_app.Levenshtein.{
  range_from, row_cells, all_rows, last, distance_of_longer, levenshtein_distance,
}
use skribbl_app.Levenshtein.Edit.{edit, edit-nil, edit-cons, edit_symm}

-- The first text in front of the second, reversed.
abbrev pub rev_onto {ℓ} : {A : Type ℓ} → List A → List A → List A
rev_onto [] ys = ys
rev_onto (x ∷ xs) ys = rev_onto xs (x ∷ ys)

pub length-rev_onto {ℓ} :
    {A : Type ℓ} (xs ys : List A) → length (rev_onto xs ys) ≡ length xs + length ys
length-rev_onto [] ys = omega arith
length-rev_onto (x ∷ xs) ys = omega (arith, length-rev_onto xs (x ∷ ys))

-- The cells behind the one of the prefix `q` (reversed) of `s2`, in the row of the prefix `p`.
abbrev cells_after : Text → Text → Text → List ℕ
cells_after p q [] = []
cells_after p q (c ∷ s2) = edit p (c ∷ q) ∷ cells_after p (c ∷ q) s2

range_from-eq-cells : (q s2 : Text) → range_from (length q + 1) (length s2) ≡ cells_after [] q s2
unfolding range_from edit
range_from-eq-cells q [] = refl
range_from-eq-cells q (c ∷ s2) =
    let e : length q + 1 + 1 ≡ length (c ∷ q) + 1 = omega arith in
    let f : length q + 1 ≡ suc (length q) = omega arith in cc (range_from-eq-cells (c ∷ q) s2)

row_cells-eq-cells :
    (c1 : ℕ) (p q s2 : Text)
    → row_cells c1 s2 (edit p q ∷ cells_after p q s2) (edit (c1 ∷ p) q) ≡ cells_after (c1 ∷ p) q s2
unfolding row_cells
row_cells-eq-cells c1 p q [] = refl
row_cells-eq-cells c1 p q (c ∷ s2) =
    rw (← edit-cons c1 c p q)
      (ap (λ l. edit (c1 ∷ p) (c ∷ q) ∷ l) (row_cells-eq-cells c1 p (c ∷ q) s2))

all_rows-eq-cells :
    (i : ℕ) (p s1 s2 : Text)
    → i ≡ length p
    → all_rows i s1 s2 (edit p [] ∷ cells_after p [] s2)
      ≡ edit (rev_onto s1 p) [] ∷ cells_after (rev_onto s1 p) [] s2
unfolding all_rows
all_rows-eq-cells i p [] s2 h = refl
all_rows-eq-cells i p (c1 ∷ s1) s2 h =
    let e : i + 1 ≡ edit (c1 ∷ p) [] = omega (arith, edit-nil (c1 ∷ p)) in
    let k : i + 1 ≡ length (c1 ∷ p) = omega arith in
    ap
      (λ left.
        all_rows (i + 1) s1 s2 (left ∷ row_cells c1 s2 (edit p [] ∷ cells_after p [] s2) left))
      e
    ∙ ap (λ row. all_rows (i + 1) s1 s2 (edit (c1 ∷ p) [] ∷ row)) (row_cells-eq-cells c1 p [] s2)
    ∙ all_rows-eq-cells (i + 1) (c1 ∷ p) s1 s2 k

last-cells : (p q s2 : Text) → last (edit p q ∷ cells_after p q s2) ≡ edit p (rev_onto s2 q)
unfolding last
last-cells p q [] = refl
last-cells p q (c ∷ s2) = last-cells p (c ∷ q) s2

first_row : (s2 : Text) → range_from 0 (length s2 + 1) ≡ edit [] [] ∷ cells_after [] [] s2
unfolding range_from edit
first_row s2 =
    let e : length s2 + 1 ≡ suc (length s2) = omega arith in
    rw e (ap (λ l. 0 ∷ l) (range_from-eq-cells [] s2))

distance_of_longer-eq-edit :
    (s1 s2 : Text) → distance_of_longer s1 s2 ≡ edit (rev_onto s1 []) (rev_onto s2 [])
unfolding distance_of_longer
distance_of_longer-eq-edit s1 [] = omega (arith, edit-nil (rev_onto s1 []), length-rev_onto s1 [])
distance_of_longer-eq-edit s1 (c ∷ s2) =
    let long : (suc (length s2) == 0) ≡ false = ground arith in
    rw long (
      ap (λ row. last (all_rows 0 s1 (c ∷ s2) row)) (first_row (c ∷ s2))
      ∙ ap last (all_rows-eq-cells 0 [] s1 (c ∷ s2) refl)
      ∙ last-cells (rev_onto s1 []) [] (c ∷ s2))

-- The program computes the recursion, at the reversed texts.
pub levenshtein_distance-eq-edit :
    (s1 s2 : Text) → levenshtein_distance s1 s2 ≡ edit (rev_onto s1 []) (rev_onto s2 [])
unfolding levenshtein_distance
levenshtein_distance-eq-edit s1 s2 = ground (
  arith,
  distance_of_longer-eq-edit s1 s2,
  distance_of_longer-eq-edit s2 s1,
  edit_symm (rev_onto s1 []) (rev_onto s2 []),
)
