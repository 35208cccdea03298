-- ===== src/GameOver/Wins.antt =====
-- The session wins, games and scores that the end of a game gives.
use skribbl_app.Prelude.{
  ℕ, ◌+◌, ◌≤◌, ◌≡◌, refl, max, Bool, false, not, ◌&&◌, Bool-cases, inl, inr, List, [], ◌∷◌, map,
  all, arith, ltb, leb, if◌then◌else◌,
}
use skribbl_app.Models.{Player, Room}
use skribbl_app.GameOver.{
  insert_by, sorted_by, by_score, active_players, top_score, settle_player, build_game_over_payload,
}

maximum : List Player → ℕ
maximum [] = 0
maximum (p ∷ players) = max p.score (maximum players)

top-insert :
    (p : Player) (players : List Player)
    → top_score (insert_by by_score p players) ≡ max p.score (top_score players)
top-insert p [] = omega arith
top-insert p (q ∷ players) = elim (Bool-cases (by_score p q)) [
  | inl e ↦ rw e (ground arith)
  | inr e ↦ rw e (ground arith)
]

top-sorted : (players : List Player) → top_score (sorted_by by_score players) ≡ maximum players
unfolding maximum
top-sorted [] = refl
top-sorted (p ∷ players) =
    omega (arith, top-insert p (sorted_by by_score players), top-sorted players)

all-maximum :
    (n : ℕ) (players : List Player) → all (λ q. leb q.score n) players ≡ leb (maximum players) n
unfolding maximum
all-maximum n [] = ground arith
all-maximum n (p ∷ players) = ground (arith, all-maximum n players)

-- A player with points whom nobody of the players beats.
abbrev pub is_champion : List Player → Player → Bool
is_champion players p = ltb 0 p.score && all (λ q. leb q.score p.score) players

-- What the end of a game changes of one player.
abbrev pub SettledAs : Bool → Player → Player → Type 0
SettledAs champion p q =
    (q.id ≡ p.id)
    × (q.score ≡ p.score)
    × (q.session_games ≡ (if p.is_spectator then p.session_games else p.session_games + 1))
    × (q.session_score ≡ (if p.is_spectator then p.session_score else p.session_score + p.score))
    × (q.session_wins
        ≡ (if not p.is_spectator && champion then p.session_wins + 1 else p.session_wins))

-- The same for each player of a list and the player at the same place of another.
abbrev pub AllSettled : List Player → List Player → List Player → Type 0
AllSettled active [] [] = Unit
AllSettled active [] (q ∷ after) = ⊥
AllSettled active (p ∷ before) [] = ⊥
AllSettled active (p ∷ before) (q ∷ after) =
    SettledAs (is_champion active p) p q × AllSettled active before after

settle_player-SettledAs :
    (top : ℕ) (active : List Player) (p : Player)
    → top ≡ maximum active
    → (p.is_spectator ≡ false → p.score ≤ top)
    → SettledAs (is_champion active p) p (settle_player top p)
settle_player-SettledAs top active p e le = elim (Bool-cases p.is_spectator) [
  | inl s ↦ rw s (refl, refl, refl, refl, refl)
  | inr s ↦ rw s (refl, refl, refl, refl, ground (arith, all-maximum p.score active, le s))
]

all_settled :
    (top : ℕ) (active players : List Player)
    → top ≡ maximum active
    → maximum (active_players players) ≤ top
    → AllSettled active players (map (settle_player top) players)
unfolding maximum
all_settled top active [] e le = tt
all_settled top active (p ∷ players) e le = (
  settle_player-SettledAs top active p e (λ s. ground arith),
  all_settled top active players e (ground arith),
)

-- At the end of a game everyone who is no spectator has one game more and the score added to the
-- session's, those with points whom nobody beats have one win more, and nothing of this changes for
-- anyone else.
pub build_game_over_payload-AllSettled :
    (room : Room)
    → AllSettled (active_players room.players) room.players (build_game_over_payload room).1.players
unfolding build_game_over_payload
build_game_over_payload-AllSettled room =
    let top = top_score (sorted_by by_score (active_players room.players)) in
    let e : top ≡ maximum (active_players room.players) =
      top-sorted (active_players room.players) in
    all_settled top (active_players room.players) room.players e (omega (arith, e))
