-- ===== src/Levenshtein/Edit.antt =====
-- An independent description of the edit distance: edit scripts, and the textbook recursion.
use skribbl_app.Prelude.{ℕ, suc, ◌+◌, ◌≤◌, min, ◌≡◌, refl, List, [], ◌∷◌, length, arith}
use skribbl_app.Text.{Text}
use skribbl_app.Levenshtein.{mismatch}

-- One step of an edit script, read from left to right.
pub data Op : Type 0 where
  copy : ℕ → Op
  substitute : ℕ → ℕ → Op
  insert : ℕ → Op
  delete : ℕ → Op

-- The text that a script reads.
abbrev pub source : List Op → Text
source [] = []
source (copy c ∷ ops) = c ∷ source ops
source (substitute a b ∷ ops) = a ∷ source ops
source (insert b ∷ ops) = source ops
source (delete a ∷ ops) = a ∷ source ops

-- The text that a script writes.
abbrev pub target : List Op → Text
target [] = []
target (copy c ∷ ops) = c ∷ target ops
target (substitute a b ∷ ops) = b ∷ target ops
target (insert b ∷ ops) = b ∷ target ops
target (delete a ∷ ops) = target ops

-- Every step but a copy costs one.
abbrev pub cost : List Op → ℕ
cost [] = 0
cost (copy c ∷ ops) = cost ops
cost (substitute a b ∷ ops) = suc (cost ops)
cost (insert b ∷ ops) = suc (cost ops)
cost (delete a ∷ ops) = suc (cost ops)

unfoldable pub edit : Text → Text → ℕ
edit [] t = length t
edit (a ∷ s) [] = suc (length s)
edit (a ∷ s) (b ∷ t) = min (min (edit s (b ∷ t) + 1) (edit (a ∷ s) t + 1)) (edit s t + mismatch a b)

pub edit-nil : (s : Text) → edit s [] ≡ length s
unfolding edit
edit-nil [] = refl
edit-nil (a ∷ s) = refl

pub edit-cons :
    (a b : ℕ) (s t : Text)
    → edit (a ∷ s) (b ∷ t)
      ≡ min (min (edit s (b ∷ t) + 1) (edit (a ∷ s) t + 1)) (edit s t + mismatch a b)
unfolding edit
edit-cons a b s t = refl

pub edit_symm : (s t : Text) → edit s t ≡ edit t s
unfolding edit
edit_symm [] [] = refl
edit_symm [] (b ∷ t) = refl
edit_symm (a ∷ s) [] = refl
edit_symm (a ∷ s) (b ∷ t) = ground (arith, edit_symm s (b ∷ t), edit_symm (a ∷ s) t, edit_symm s t)

edit-insert-le : (b : ℕ) (s t : Text) → edit s (b ∷ t) ≤ edit s t + 1
unfolding edit
edit-insert-le b [] t = omega arith
edit-insert-le b (a ∷ s) t = omega arith

-- No script is cheaper than the recursion.
pub edit-le-cost : (ops : List Op) → edit (source ops) (target ops) ≤ cost ops
unfolding edit
edit-le-cost [] = omega arith
edit-le-cost (copy c ∷ ops) = ground (arith, edit-le-cost ops)
edit-le-cost (substitute a b ∷ ops) = ground (arith, edit-le-cost ops)
edit-le-cost (insert b ∷ ops) =
    omega (arith, edit-le-cost ops, edit-insert-le b (source ops) (target ops))
edit-le-cost (delete a ∷ ops) = omega (
  arith,
  edit-le-cost ops,
  edit_symm (a ∷ source ops) (target ops),
  edit_symm (source ops) (target ops),
  edit-insert-le a (target ops) (source ops),
)
