-- ===== src/GameOver/Ranking.antt =====
-- The final ranking, and the session wins that it gives.
use mathlib.Core.List.Perm
use mathlib.Core.List.{Perm}
use skribbl_app.Prelude.{ℕ, ◌≤◌, Bool, Bool-cases, inl, inr, List, [], ◌∷◌, map, All, arith}
use skribbl_app.Models.{Player, Room}
use skribbl_app.GameOver.{
  insert_by, sorted_by, by_score, active_players, FinalScore, build_game_over_payload,
}

-- Each score is at least every later one.
abbrev pub Descending : List FinalScore → Type 0
Descending [] = Unit
Descending (f ∷ scores) = All (λ g. g.score ≤ f.score) scores × Descending scores

abbrev pub final : Player → FinalScore
final p = record { id = p.id; name = p.name; score = p.score }

All-insert :
    (n : ℕ) (p : Player) (players : List Player)
    → p.score ≤ n
    → All (λ g. g.score ≤ n) (map final players)
    → All (λ g. g.score ≤ n) (map final (insert_by by_score p players))
All-insert n p [] h all = (h, tt)
All-insert n p (q ∷ players) h all = elim (Bool-cases (by_score p q)) [
  | inl e ↦ rw e (h, all)
  | inr e ↦ rw e (all.0, All-insert n p players h all.1)
]

All-weaken :
    (m n : ℕ) (players : List Player)
    → m ≤ n
    → All (λ g. g.score ≤ m) (map final players)
    → All (λ g. g.score ≤ n) (map final players)
All-weaken m n [] le all = tt
All-weaken m n (p ∷ players) le all = (omega (arith, all.0), All-weaken m n players le all.1)

Descending-insert :
    (p : Player) (players : List Player)
    → Descending (map final players)
    → Descending (map final (insert_by by_score p players))
Descending-insert p [] d = (tt, tt)
Descending-insert p (q ∷ players) d = elim (Bool-cases (by_score p q)) [
  | inl e ↦
      let le : q.score ≤ p.score = ground arith in
      rw e ((le, All-weaken q.score p.score players le d.0), d)
  | inr e ↦ rw e (All-insert q.score p players (ground arith) d.0, Descending-insert p players d.1)
]

Descending-sorted : (players : List Player) → Descending (map final (sorted_by by_score players))
Descending-sorted [] = tt
Descending-sorted (p ∷ players) = Descending-insert p _ (Descending-sorted players)

insert_by-perm :
    (before : Player → Player → Bool) (p : Player) (players : List Player)
    → Perm (map final (insert_by before p players)) (final p ∷ map final players)
insert_by-perm before p [] = Perm.refl _
insert_by-perm before p (q ∷ players) = elim (Bool-cases (before p q)) [
  | inl e ↦ rw e (Perm.refl _)
  | inr e ↦
      rw e (Perm.trans (Perm.cons (final q) (insert_by-perm before p players)) (Perm.swap _ _ _))
]

sorted_by-perm :
    (before : Player → Player → Bool) (players : List Player)
    → Perm (map final (sorted_by before players)) (map final players)
sorted_by-perm before [] = Perm.refl _
sorted_by-perm before (p ∷ players) =
    Perm.trans (insert_by-perm before p _) (Perm.cons (final p) (sorted_by-perm before players))

-- The final scores are those of all players who are no spectators, from the highest to the lowest.
pub build_game_over_payload-Descending :
    (room : Room)
    → Descending (build_game_over_payload room).0.scores
      × Perm (build_game_over_payload room).0.scores (map final (active_players room.players))
unfolding build_game_over_payload
build_game_over_payload-Descending room = (
  Descending-sorted (active_players room.players),
  sorted_by-perm by_score (active_players room.players),
)
