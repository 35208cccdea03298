-- ===== src/Deletion/Sweep.antt =====
-- The requests of a room are closed one by one, by their ids.
use skribbl_app.Prelude.{
  ℕ, ◌≡◌, refl, sym, ap, ◌∙◌, ◌⊎◌, inl, inr, Bool, true, false, not, Bool-cases, Option, none, some,
  List, [], ◌∷◌, arith, any, keep, All, ◌==◌, ==_iff,
}
use skribbl_app.Deletion.{
  Filed, Requests, cancel_task, find_filed, close_filed, close_request, close_all, to_cancel, sweep,
}

-- `x in xs`
abbrev pub has : ℕ → List ℕ → Bool
has x xs = any (λ y. y == x) xs

-- The ids are the keys of a dictionary.
abbrev pub ByIds : List Filed → Type 0
ByIds filed = All (λ r. find_filed r.request_id filed ≡ some r) filed

-- What becomes of a request: one for the room is gone and its task is not pending, another stays.
abbrev pub Fate : Bool → Filed → List Filed → List ℕ → Type 0
Fate true r filed tasks =
    (find_filed r.request_id filed ≡ none) × (has r.timeout_task tasks ≡ false)
Fate false r filed tasks = find_filed r.request_id filed ≡ some r

pub has-cancel_task : (task : ℕ) (tasks : List ℕ) → has task (cancel_task task tasks) ≡ false
has-cancel_task task [] = refl
has-cancel_task task (t ∷ tasks) = ground (arith, has-cancel_task task tasks)

pub has-cancel_other :
    (task other : ℕ) (tasks : List ℕ)
    → has task tasks ≡ false
    → has task (cancel_task other tasks) ≡ false
has-cancel_other task other [] h = refl
has-cancel_other task other (t ∷ tasks) h =
    ground (arith, h, has-cancel_other task other tasks (ground (arith, h)))

abbrev without : ℕ → List Filed → List Filed
without id filed = keep (λ r. not (r.request_id == id)) filed

find-without : (id : ℕ) (filed : List Filed) → find_filed id (without id filed) ≡ none
find-without id [] = refl
find-without id (r ∷ filed) = ground (arith, find-without id filed)

find-without_other :
    (id other : ℕ) (filed : List Filed)
    → (id == other) ≡ false
    → find_filed id (without other filed) ≡ find_filed id filed
find-without_other id other [] ne = refl
find-without_other id other (r ∷ filed) ne =
    let ih = find-without_other id other filed ne in
    elim (Bool-cases (r.request_id == other)) [
      | inl e ↦ let apart : (r.request_id == id) ≡ false = ground (arith, e, ne) in rw (e, apart) ih
      | inr e ↦ rw e (rw ih refl)
    ]

-- A request that is closed is no more in the dictionary, and one that is not there stays out.
close_filed-gone :
    (o : Option Filed) (id : ℕ) (q : Requests)
    → find_filed id q.filed ≡ o
    → find_filed id (close_filed o id q).filed ≡ none
close_filed-gone none id q e = e
close_filed-gone (some req) id q e = find-without id q.filed

close_filed-stays_out :
    (o : Option Filed) (id other : ℕ) (q : Requests)
    → find_filed id q.filed ≡ none
    → find_filed id (close_filed o other q).filed ≡ none
close_filed-stays_out none id other q e = e
close_filed-stays_out (some req) id other q e = elim (Bool-cases (id == other)) [
  | inl s ↦ let same : id ≡ other = (==_iff id other).0 s in rw same (find-without other q.filed)
  | inr s ↦ find-without_other id other q.filed s ∙ e
]

close_all-stays_out :
    (ids : List ℕ) (id : ℕ) (q : Requests)
    → find_filed id q.filed ≡ none
    → find_filed id (close_all ids q).filed ≡ none
close_all-stays_out [] id q e = e
close_all-stays_out (other ∷ ids) id q e =
    close_all-stays_out ids id (close_request other q)
      (close_filed-stays_out (find_filed other q.filed) id other q e)

close_all-gone :
    (ids : List ℕ) (id : ℕ) (q : Requests)
    → has id ids ≡ true
    → find_filed id (close_all ids q).filed ≡ none
close_all-gone [] id q h = absurd (cc)
close_all-gone (other ∷ ids) id q h = elim (Bool-cases (other == id)) [
  | inl s ↦
      let same : other ≡ id = (==_iff other id).0 s in
      close_all-stays_out ids id (close_request other q)
        (rw same (close_filed-gone (find_filed id q.filed) id q refl))
  | inr s ↦ close_all-gone ids id (close_request other q) (ground (arith, h, s))
]

-- A request is in the dictionary, or its task is not pending.
abbrev Tidy : Filed → Requests → Type 0
Tidy r q = (find_filed r.request_id q.filed ≡ some r) ⊎ (has r.timeout_task q.tasks ≡ false)

close_filed-Tidy :
    (r : Filed) (o : Option Filed) (id : ℕ) (q : Requests)
    → find_filed id q.filed ≡ o
    → Tidy r q
    → Tidy r (close_filed o id q)
close_filed-Tidy r none id q e tidy = tidy
close_filed-Tidy r (some req) id q e (inr off) =
    inr (has-cancel_other r.timeout_task req.timeout_task q.tasks off)
close_filed-Tidy r (some req) id q e (inl there) = elim (Bool-cases (r.request_id == id)) [
  | inl s ↦
      let same : r.request_id ≡ id = (==_iff r.request_id id).0 s in
      let is : some req ≡ some r = sym e ∙ ap (λ i. find_filed i q.filed) (sym same) ∙ there in
      let one : req ≡ r = ground (arith, is) in
      inr (rw one (has-cancel_task r.timeout_task q.tasks))
  | inr s ↦ inl (find-without_other r.request_id id q.filed s ∙ there)
]

close_all-Tidy : (ids : List ℕ) (r : Filed) (q : Requests) → Tidy r q → Tidy r (close_all ids q)
close_all-Tidy [] r q tidy = tidy
close_all-Tidy (id ∷ ids) r q tidy =
    close_all-Tidy ids r (close_request id q)
      (close_filed-Tidy r (find_filed id q.filed) id q refl tidy)

close_filed-stays_in :
    (o : Option Filed) (id other : ℕ) (q : Requests)
    → (id == other) ≡ false
    → find_filed id (close_filed o other q).filed ≡ find_filed id q.filed
close_filed-stays_in none id other q ne = refl
close_filed-stays_in (some req) id other q ne = find-without_other id other q.filed ne

close_all-stays_in :
    (ids : List ℕ) (id : ℕ) (q : Requests)
    → has id ids ≡ false
    → find_filed id (close_all ids q).filed ≡ find_filed id q.filed
close_all-stays_in [] id q h = refl
close_all-stays_in (other ∷ ids) id q h =
    close_all-stays_in ids id (close_request other q) (ground (arith, h))
    ∙ close_filed-stays_in (find_filed other q.filed) id other q (ground (arith, h))

module _ (code : ℕ) where
  to_cancel-has :
      (filed : List Filed) (id : ℕ) (r : Filed)
      → find_filed id filed ≡ some r
      → (r.room_code == code) ≡ true
      → has id (to_cancel code filed) ≡ true
  to_cancel-has [] id r e here = absurd (cc)
  to_cancel-has (x ∷ filed) id r e here = elim (Bool-cases (x.request_id == id)) [
    | inl s ↦
        let first : x ≡ r = ground (arith, e, s) in
        let its : (x.room_code == code) ≡ true = rw first here in rw (its, s) refl
    | inr s ↦
        let ih = to_cancel-has filed id r (ground (arith, e, s)) here in
        elim (Bool-cases (x.room_code == code)) [ inl t ↦ rw (t, s) ih | inr t ↦ rw t ih ]
  ]

  to_cancel-has_not :
      (all filed : List Filed) (id : ℕ) (r : Filed)
      → All (λ x. find_filed x.request_id all ≡ some x) filed
      → find_filed id all ≡ some r
      → (r.room_code == code) ≡ false
      → has id (to_cancel code filed) ≡ false
  to_cancel-has_not all [] id r keyed e away = refl
  to_cancel-has_not all (x ∷ filed) id r keyed e away =
      let ih = to_cancel-has_not all filed id r keyed.1 e away in
      elim (Bool-cases (x.room_code == code)) [
        | inl t ↦ elim (Bool-cases (x.request_id == id)) [
          | inl s ↦
              let same : x.request_id ≡ id = (==_iff x.request_id id).0 s in
              let is : some x ≡ some r = sym keyed.0 ∙ ap (λ i. find_filed i all) same ∙ e in
              let one : x ≡ r = ground (arith, is) in
              let its : (r.room_code == code) ≡ true = rw (sym one) t in absurd (cc)
          | inr s ↦ rw (t, s) ih
        ]
        | inr t ↦ rw t ih
      ]

  fate :
      (r : Filed) (q : Requests)
      → ByIds q.filed
      → find_filed r.request_id q.filed ≡ some r
      → Fate (r.room_code == code) r (sweep code q).filed (sweep code q).tasks
  unfolding sweep
  fate r q keyed e = elim (Bool-cases (r.room_code == code)) [
    | inl here ↦
        let ids = to_cancel code q.filed in
        let gone =
          close_all-gone ids r.request_id q (to_cancel-has q.filed r.request_id r e here) in
        rw here (gone, off r (close_all ids q) gone (close_all-Tidy ids r q (inl e)))
    | inr away ↦
        let ids = to_cancel code q.filed in
        rw away (
          close_all-stays_in ids r.request_id q
            (to_cancel-has_not q.filed q.filed r.request_id r keyed e away)
          ∙ e)
  ]
    where
      off :
          (r : Filed) (q : Requests)
          → find_filed r.request_id q.filed ≡ none
          → Tidy r q
          → has r.timeout_task q.tasks ≡ false
      off r q gone (inl there) = absurd (cc)
      off r q gone (inr stopped) = stopped

  fates :
      (filed : List Filed) (q : Requests)
      → ByIds q.filed
      → All (λ r. find_filed r.request_id q.filed ≡ some r) filed
      → All (λ r. Fate (r.room_code == code) r (sweep code q).filed (sweep code q).tasks) filed
  fates [] q keyed each = tt
  fates (r ∷ filed) q keyed each = (fate r q keyed each.0, fates filed q keyed each.1)

  pub sweep-Fate :
      (q : Requests)
      → ByIds q.filed
      → All (λ r. Fate (r.room_code == code) r (sweep code q).filed (sweep code q).tasks) q.filed
  sweep-Fate q keyed = fates q.filed q keyed keyed
