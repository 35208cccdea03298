-- ===== src/Models/Lookup.antt =====
-- What the lookup of a player finds after changes to single players.
use skribbl_app.Prelude.{
  ℕ, ◌≡◌, ◌≢◌, refl, ap, ◌∙◌, inl, inr, true, false, Bool-cases, not, ◌&&◌, some, List, [], ◌∷◌,
  arith, ◌==◌, find, All,
}
use skribbl_app.Text.{Text, text_eq}
use skribbl_app.Models.{Player, modify_player}

module _ (id : ℕ) where
  pub modify-modify :
      (f g : Player → Player) (players : List Player)
      → ((p : Player) → (g p).id ≡ p.id)
      → modify_player id f (modify_player id g players) ≡ modify_player id (λ p. f (g p)) players
  unfolding modify_player
  modify-modify f g [] same = refl
  modify-modify f g (p ∷ players) same = elim (Bool-cases (p.id == id)) [
    | inl e ↦ let e' : ((g p).id == id) ≡ true = ap (λ i. i == id) (same p) ∙ e in rw e (rw e' refl)
    | inr e ↦ rw e (rw e (ap (λ l. p ∷ l) (modify-modify f g players same)))
  ]

  pub find-modify :
      (f : Player → Player) (players : List Player) (p : Player)
      → find (λ q. q.id == id) players ≡ some p
      → ((q : Player) → (f q).id ≡ q.id)
      → find (λ q. q.id == id) (modify_player id f players) ≡ some (f p)
  unfolding modify_player
  find-modify f [] p e same = absurd (cc)
  find-modify f (q ∷ players) p e same = elim (Bool-cases (q.id == id)) [
    | inl here ↦
        let here' : ((f q).id == id) ≡ true = ap (λ i. i == id) (same q) ∙ here in
        let is : q ≡ p = ground (arith, e) in rw here (rw here' (ap (λ x. some (f x)) is))
    | inr other ↦ rw other (rw other (find-modify f players p (ground (arith, e)) same))
  ]

  pub find_other-modify :
      (j : ℕ) (f : Player → Player) (players : List Player)
      → j ≢ id
      → ((q : Player) → (f q).id ≡ q.id)
      → find (λ q. q.id == j) (modify_player id f players) ≡ find (λ q. q.id == j) players
  unfolding modify_player
  find_other-modify j f [] other same = refl
  find_other-modify j f (q ∷ players) other same = elim (Bool-cases (q.id == id)) [
    | inl here ↦
        let not_j : (q.id == j) ≡ false = ground arith in
        let not_j' : ((f q).id == j) ≡ false = ap (λ i. i == j) (same q) ∙ not_j in
        rw here (rw (not_j, not_j') refl)
    | inr e ↦ rw e (elim (Bool-cases (q.id == j)) [
      | inl k ↦ rw k refl
      | inr k ↦ rw k (find_other-modify j f players other same)
    ])
  ]

  -- Nobody else has the name.
  abbrev pub OnlyName : Text → List Player → Type 0
  OnlyName name players = All (λ q. text_eq q.name name ≡ (q.id == id)) players

  pub find_gone :
      (name : Text) (f : Player → Player) (players : List Player) (p : Player)
      → find (λ q. q.id == id) players ≡ some p
      → OnlyName name players
      → ((q : Player) → ((f q).name ≡ q.name) × ((f q).is_connected ≡ false))
      → find (λ q. text_eq q.name name && not q.is_connected) (modify_player id f players)
        ≡ some (f p)
  unfolding modify_player
  find_gone name f [] p e only away = absurd (cc)
  find_gone name f (q ∷ players) p e only away = elim (Bool-cases (q.id == id)) [
    | inl here ↦
        let is : q ≡ p = ground (arith, e) in
        let named : text_eq (f q).name name ≡ true =
          ap (λ n. text_eq n name) (away q).0 ∙ (only.0 ∙ here) in
        let gone : (text_eq (f q).name name && not (f q).is_connected) ≡ true =
          rw named (ap not (away q).1) in
        rw here (rw gone (ap (λ x. some (f x)) is))
    | inr other ↦
        let named : text_eq q.name name ≡ false = only.0 ∙ other in
        rw other (rw named (find_gone name f players p (ground (arith, e)) only.1 away))
  ]
