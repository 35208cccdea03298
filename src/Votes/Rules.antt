-- ===== src/Votes/Rules.antt =====
-- The rules of a vote: its majority, its voters, its timer, and the pause after it has failed.
use skribbl_app.Prelude.{
  ℕ, ◌+◌, ◌*◌, ◌<◌, ◌≡◌, ◌≢◌, ◌↔◌, refl, ◌∙◌, inl, inr, Bool, true, false, Bool-cases, not, Option,
  none, some, List, [], ◌∷◌, ◌++◌, arith, ◌==◌, length, keep, leb, count_if, sym, ap, ==_iff,
  length-keep-eq-count_if, length-append,
}
use skribbl_app.Models.{get_player}
use skribbl_app.Session.{Env}
use skribbl_app.Votes.{
  VoteKick, Timer, Ballot, passed, voter_count, required_votes, has_vote, cast, count_vote,
  voter_connected, cast_on, cast_vote_kick,
}

majority : (n m : ℕ) → (leb (required_votes n) m ≡ true) ↔ (n < 2 * m)
unfolding required_votes
majority n m = ((λ h. ground arith), (λ h. ground arith))

count_vote_passes :
    (env : Env) (id : ℕ) (vote : Bool) (v : VoteKick) (b : Ballot)
    → ((count_vote env id vote v b).0 ≡ passed) ↔ (
        leb
          (required_votes (voter_count v.target_id b.session.room))
          (length (cast id vote v.votes))
        ≡ true)
count_vote_passes env id vote v b =
    elim (Bool-cases (
      leb (required_votes (voter_count v.target_id b.session.room))
        (length (cast id vote v.votes)))) [
          | inl e ↦ ((λ h. e), (λ h. rw e refl))
          | inr e ↦ rw e ((λ h. cc), (λ h. cc))
        ]

-- A list without doubles.
abbrev pub NoDouble : List ℕ → Type 0
NoDouble [] = Unit
NoDouble (j ∷ votes) = (has_vote j votes ≡ false) × NoDouble votes

-- No vote counts twice, and the target has none.
pub record VotesOk (v : VoteKick) : Type 0 where
  pub target_out : has_vote v.target_id v.votes ≡ false
  pub no_double : NoDouble v.votes

-- While a vote runs its timer is the one that is pending for the room, and otherwise none is.
abbrev pub Timed : Option VoteKick → List Timer → Type 0
Timed none timers = timers ≡ []
Timed (some v) timers =
    VotesOk v
    × (due : ℕ) × (timers ≡ record { id = v.timeout_task; target_id = v.target_id; due = due } ∷ [])

abbrev pub BallotOk : Ballot → Type 0
BallotOk b = Timed b.vote_kick b.timers

has_vote-snoc :
    (id j : ℕ) (votes : List ℕ) → j ≢ id → has_vote id (votes ++ j ∷ []) ≡ has_vote id votes
has_vote-snoc id j [] other = ground arith
has_vote-snoc id j (k ∷ votes) other = ground (arith, has_vote-snoc id j votes other)

has_vote-keep :
    (id j : ℕ) (votes : List ℕ)
    → has_vote id votes ≡ false
    → has_vote id (keep (λ k. not (k == j)) votes) ≡ false
has_vote-keep id j [] h = refl
has_vote-keep id j (k ∷ votes) h = ground (arith, has_vote-keep id j votes)

NoDouble-snoc :
    (id : ℕ) (votes : List ℕ)
    → has_vote id votes ≡ false
    → NoDouble votes
    → NoDouble (votes ++ id ∷ [])
NoDouble-snoc id [] h n = (refl, tt)
NoDouble-snoc id (k ∷ votes) h n =
    (has_vote-snoc k id votes (λ e. ground arith) ∙ n.0, NoDouble-snoc id votes (ground arith) n.1)

NoDouble-keep :
    (id : ℕ) (votes : List ℕ) → NoDouble votes → NoDouble (keep (λ k. not (k == id)) votes)
NoDouble-keep id [] n = tt
NoDouble-keep id (k ∷ votes) n = elim (Bool-cases (k == id)) [
  | inl e ↦ rw e (NoDouble-keep id votes n.1)
  | inr e ↦ rw e (has_vote-keep k id votes n.0, NoDouble-keep id votes n.1)
]

pub cast-VotesOk :
    (id : ℕ) (vote : Bool) (v : VoteKick)
    → id ≢ v.target_id
    → VotesOk v
    → VotesOk (record v { votes = cast id vote v.votes })
unfolding cast
cast-VotesOk id false v other ok = record {
  target_out = has_vote-keep v.target_id id v.votes ok.target_out;
  no_double = NoDouble-keep id v.votes ok.no_double;
}
cast-VotesOk id true v other ok = elim (Bool-cases (has_vote id v.votes)) [
  | inl e ↦ rw e (record { target_out = ok.target_out; no_double = ok.no_double })
  | inr e ↦ rw e (record {
    target_out = has_vote-snoc v.target_id id v.votes other ∙ ok.target_out;
    no_double = NoDouble-snoc id v.votes e ok.no_double;
  })
]

-- The others who are in favour.
abbrev pub others : ℕ → List ℕ → ℕ
others id votes = count_if (λ j. not (j == id)) votes

abbrev pub in_favour : Bool → ℕ
in_favour true = 1
in_favour false = 0

-- A connected player votes who is not the target, and those in favour then, each counted once, are
-- more than half of the connected players without the target.
abbrev pub Carries : ℕ → Bool → Ballot → Option VoteKick → Type 0
Carries id vote b none = ⊥
Carries id vote b (some v) =
    (id ≢ v.target_id)
    × (voter_connected (get_player id b.session.room) ≡ true)
    × (voter_count v.target_id b.session.room < 2 * (others id v.votes + in_favour vote))

others-no_vote :
    (id : ℕ) (votes : List ℕ) → has_vote id votes ≡ false → others id votes ≡ length votes
others-no_vote id [] h = refl
others-no_vote id (j ∷ votes) h = ground (arith, others-no_vote id votes (ground (arith, h)))

others-has_vote :
    (id : ℕ) (votes : List ℕ)
    → NoDouble votes
    → has_vote id votes ≡ true
    → others id votes + 1 ≡ length votes
others-has_vote id [] n h = absurd (cc)
others-has_vote id (j ∷ votes) n h = elim (Bool-cases (j == id)) [
  | inl e ↦
      let same : j ≡ id = (==_iff j id).0 e in
      let once : has_vote id votes ≡ false = ap (λ i. has_vote i votes) (sym same) ∙ n.0 in
      rw e (omega (arith, others-no_vote id votes once))
  | inr e ↦ rw e (omega (arith, others-has_vote id votes n.1 (ground (arith, h, e))))
]

-- However a vote of yes or no is cast, it counts once.
length-cast :
    (id : ℕ) (vote : Bool) (votes : List ℕ)
    → NoDouble votes
    → length (cast id vote votes) ≡ others id votes + in_favour vote
unfolding cast
length-cast id false votes n = omega (arith, length-keep-eq-count_if (λ j. not (j == id)) votes)
length-cast id true votes n = elim (Bool-cases (has_vote id votes)) [
  | inl e ↦ rw e (omega (arith, others-has_vote id votes n e))
  | inr e ↦ rw e (omega (arith, others-no_vote id votes e, length-append votes (id ∷ [])))
]

cast_on_passes :
    (env : Env) (id : ℕ) (vote : Bool) (o : Option VoteKick) (b : Ballot)
    → Timed o b.timers
    → ((cast_on env id vote o b).0 ≡ passed) ↔ Carries id vote b o
cast_on_passes env id vote none b ok = ((λ h. cc), (λ h. absurd h))
cast_on_passes env id vote (some v) b ok = elim (Bool-cases (id == v.target_id)) [
  | inl s ↦ rw s ((λ h. cc), (λ h. absurd (h.0 ((==_iff id v.target_id).0 s))))
  | inr s ↦ elim (Bool-cases (voter_connected (get_player id b.session.room))) [
    | inr c ↦ rw (s, c) ((λ h. cc), (λ h. cc))
    | inl c ↦
        let (there, back) = count_vote_passes env id vote v b in
        let (most, enough) =
          majority (voter_count v.target_id b.session.room) (length (cast id vote v.votes)) in
        let once = length-cast id vote v.votes ok.0.no_double in
        rw (s, c)
          (
            (λ h. let m = most (there h) in ((λ e. ground arith), refl, omega (arith, m, once))),
            (λ h. back (enough (omega (arith, h.2, once)))),
          )
  ]
]

-- In a room whose votes are in order, a vote of yes or no makes the kick pass exactly if a vote is
-- running, the voter is connected and not its target, and those in favour are then more than half of
-- the connected players without the target; the voter counts once, whatever he had said before.
pub cast_vote_kick_passes :
    (env : Env) (id : ℕ) (vote : Bool) (b : Ballot)
    → BallotOk b
    → ((cast_vote_kick env id vote b).0 ≡ passed) ↔ Carries id vote b b.vote_kick
unfolding cast_vote_kick
cast_vote_kick_passes env id vote b ok = cast_on_passes env id vote b.vote_kick b ok
