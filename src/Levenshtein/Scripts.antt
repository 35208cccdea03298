-- ===== src/Levenshtein/Scripts.antt =====
-- The computed distance against all edit scripts.
use mathlib.Core.List.{append-nil}
use skribbl_app.Prelude.{
  ℕ, suc, ◌+◌, ◌≤◌, ◌≡◌, refl, ap, ◌∙◌, List, [], ◌∷◌, ◌++◌, length, arith, Bool-cases, inl, inr,
  leb, ◌==◌, min,
}
use skribbl_app.Text.{Text}
use skribbl_app.Levenshtein.{mismatch, levenshtein_distance}
use skribbl_app.Levenshtein.Edit.{
  Op, copy, substitute, insert, delete, source, target, cost, edit, edit-le-cost,
}
use skribbl_app.Levenshtein.Rows.{rev_onto, levenshtein_distance-eq-edit}

rev_onto-rev_onto {ℓ} :
    {A : Type ℓ} (xs ys zs : List A) → rev_onto (rev_onto xs ys) zs ≡ rev_onto ys (xs ++ zs)
rev_onto-rev_onto [] ys zs = refl
rev_onto-rev_onto (x ∷ xs) ys zs = rev_onto-rev_onto xs (x ∷ ys) zs

rev-rev {ℓ} : {A : Type ℓ} (xs : List A) → rev_onto (rev_onto xs []) [] ≡ xs
rev-rev xs = rev_onto-rev_onto xs [] [] ∙ append-nil xs

-- Reversing a script reverses what it reads and writes, at the same cost.
source-rev_onto :
    (ops acc : List Op) → source (rev_onto ops acc) ≡ rev_onto (source ops) (source acc)
source-rev_onto [] acc = refl
source-rev_onto (copy c ∷ ops) acc = source-rev_onto ops (copy c ∷ acc)
source-rev_onto (substitute a b ∷ ops) acc = source-rev_onto ops (substitute a b ∷ acc)
source-rev_onto (insert b ∷ ops) acc = source-rev_onto ops (insert b ∷ acc)
source-rev_onto (delete a ∷ ops) acc = source-rev_onto ops (delete a ∷ acc)

target-rev_onto :
    (ops acc : List Op) → target (rev_onto ops acc) ≡ rev_onto (target ops) (target acc)
target-rev_onto [] acc = refl
target-rev_onto (copy c ∷ ops) acc = target-rev_onto ops (copy c ∷ acc)
target-rev_onto (substitute a b ∷ ops) acc = target-rev_onto ops (substitute a b ∷ acc)
target-rev_onto (insert b ∷ ops) acc = target-rev_onto ops (insert b ∷ acc)
target-rev_onto (delete a ∷ ops) acc = target-rev_onto ops (delete a ∷ acc)

cost-rev_onto : (ops acc : List Op) → cost (rev_onto ops acc) ≡ cost ops + cost acc
cost-rev_onto [] acc = omega arith
cost-rev_onto (copy c ∷ ops) acc = cost-rev_onto ops (copy c ∷ acc)
cost-rev_onto (substitute a b ∷ ops) acc = omega (arith, cost-rev_onto ops (substitute a b ∷ acc))
cost-rev_onto (insert b ∷ ops) acc = omega (arith, cost-rev_onto ops (insert b ∷ acc))
cost-rev_onto (delete a ∷ ops) acc = omega (arith, cost-rev_onto ops (delete a ∷ acc))

-- Transforming `s` into `t` by some script at cost `n`.
abbrev pub EditsAt : ℕ → Text → Text → Type 0
EditsAt n s t = (ops : List Op) × (source ops ≡ s) × (target ops ≡ t) × (cost ops ≡ n)

edits_nil : (t : Text) → EditsAt (length t) [] t
edits_nil [] = ([], refl, refl, refl)
edits_nil (b ∷ t) =
    let (ops, s, w, c) = edits_nil t in (insert b ∷ ops, s, ap (λ l. b ∷ l) w, ap suc c)

edits_to_nil : (s : Text) → EditsAt (length s) s []
edits_to_nil [] = ([], refl, refl, refl)
edits_to_nil (a ∷ s) =
    let (ops, r, t, c) = edits_to_nil s in (delete a ∷ ops, ap (λ l. a ∷ l) r, t, ap suc c)

edits_min : {m n : ℕ} {s t : Text} → EditsAt m s t → EditsAt n s t → EditsAt (min m n) s t
edits_min {m} {n} (ops, r, w, c) (ops', r', w', c') = elim (Bool-cases (leb m n)) [
  | inl below ↦ (ops, r, w, ground arith)
  | inr above ↦ (ops', r', w', ground arith)
]

edits_delete : {n : ℕ} (a : ℕ) {s t : Text} → EditsAt n s t → EditsAt (n + 1) (a ∷ s) t
edits_delete a (ops, r, w, c) = (delete a ∷ ops, ap (λ l. a ∷ l) r, w, omega arith)

edits_insert : {n : ℕ} (b : ℕ) {s t : Text} → EditsAt n s t → EditsAt (n + 1) s (b ∷ t)
edits_insert b (ops, r, w, c) = (insert b ∷ ops, r, ap (λ l. b ∷ l) w, omega arith)

edits_diagonal :
    {n : ℕ} (a b : ℕ) {s t : Text} → EditsAt n s t → EditsAt (n + mismatch a b) (a ∷ s) (b ∷ t)
edits_diagonal a b (ops, r, w, c) = elim (Bool-cases (a == b)) [
  | inl same ↦ (copy a ∷ ops, ap (λ l. a ∷ l) r, ground arith, ground arith)
  | inr other ↦ (substitute a b ∷ ops, ap (λ l. a ∷ l) r, ap (λ l. b ∷ l) w, rw other (omega arith))
]

edits_best : (s t : Text) → EditsAt (edit s t) s t
unfolding edit
edits_best [] t = edits_nil t
edits_best (a ∷ s) [] = edits_to_nil (a ∷ s)
edits_best (a ∷ s) (b ∷ t) =
    edits_min
      (edits_min (edits_delete a (edits_best s (b ∷ t))) (edits_insert b (edits_best (a ∷ s) t)))
      (edits_diagonal a b (edits_best s t))

-- Some edit script turns the first text into the second at exactly the computed cost.
pub levenshtein_distance_achieved : (s1 s2 : Text) → EditsAt (levenshtein_distance s1 s2) s1 s2
levenshtein_distance_achieved s1 s2 =
    let (ops, r, w, c) = edits_best (rev_onto s1 []) (rev_onto s2 []) in
    (
      rev_onto ops [],
      source-rev_onto ops [] ∙ ap (λ l. rev_onto l []) r ∙ rev-rev s1,
      target-rev_onto ops [] ∙ ap (λ l. rev_onto l []) w ∙ rev-rev s2,
      omega (arith, cost-rev_onto ops [], levenshtein_distance-eq-edit s1 s2),
    )

-- No edit script is cheaper than the computed distance between what it reads and what it writes.
pub levenshtein_distance-le-cost :
    (ops : List Op) → levenshtein_distance (source ops) (target ops) ≤ cost ops
levenshtein_distance-le-cost ops =
    let bound : edit (rev_onto (source ops) []) (rev_onto (target ops) [])
        ≤ cost (rev_onto ops []) =
      rw (← source-rev_onto ops [], ← target-rev_onto ops []) (edit-le-cost (rev_onto ops [])) in
    omega
      (arith, bound, cost-rev_onto ops [], levenshtein_distance-eq-edit (source ops) (target ops))
