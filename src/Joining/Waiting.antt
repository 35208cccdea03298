-- ===== src/Joining/Waiting.antt =====
-- What it means that the requests at a door are in order, and the single steps that keep it.
use skribbl_app.Prelude.{
  ℕ, ◌+◌, ◌*◌, ◌≤◌, ◌≡◌, refl, sym, ap, ◌∙◌, inl, inr, Bool, false, Bool-cases, not, some, List, [],
  ◌∷◌, ◌++◌, map, arith, All, All-append, any, count_if, find, keep, leb, ◌==◌,
}
use skribbl_app.Models.{Player, RoleRequest, modify_player, add_player}
use skribbl_app.Session.{Env, second, Session}
use skribbl_app.Joining.{
  PendingJoin, Door, Visitor, visitor_request, seat, file_join, start_timer, role_expiry,
}
use skribbl_app.Joining.Requests.{forget_join}
use skribbl_app.Joining.Roles.{forget_role, store_role, file_role, count_request, player_request}
use skribbl_app.Joining.Places.{room-notify_host}

-- A player who has asked to play at most twice.
abbrev pub AskedTwice : Player → Type 0
AskedTwice p = p.become_player_requests_count ≤ 2

abbrev pub requests_of : ℕ → List RoleRequest → ℕ
requests_of player_id requests = count_if (λ q. q.player_id == player_id) requests

pub record DoorOk (d : Door) : Type 0 where
  pub joins : d.session.room.pending_join_requests ≡ map (λ r. r.request) d.joins
  pub roles : d.session.room.pending_role_requests ≡ map (λ r. r.request) d.roles
  pub one_each : (id : ℕ) → requests_of id d.session.room.pending_role_requests ≤ 1
  pub counted : All AskedTwice d.session.room.players

module _ {A B : Type 0} (f : A → B) where
  map-snoc : (xs : List A) (x : A) → map f (xs ++ x ∷ []) ≡ map f xs ++ f x ∷ []
  map-snoc [] x = refl
  map-snoc (y ∷ xs) x = ap (λ l. f y ∷ l) (map-snoc xs x)

  keep-map : (t : B → Bool) (xs : List A) → keep t (map f xs) ≡ map f (keep (λ x. t (f x)) xs)
  keep-map t [] = refl
  keep-map t (x ∷ xs) = ground (arith, keep-map t xs)

module _ {A : Type 0} (t : A → Bool) where
  count_if-keep : (p : A → Bool) (xs : List A) → count_if t (keep p xs) ≤ count_if t xs
  count_if-keep p [] = omega arith
  count_if-keep p (x ∷ xs) = ground (arith, count_if-keep p xs)

  count_if-none : (xs : List A) → any t xs ≡ false → count_if t xs ≡ 0
  count_if-none [] e = refl
  count_if-none (x ∷ xs) e = ground (arith, count_if-none xs)

  count_if-last :
      (xs : List A) (x : A) → count_if t (xs ++ x ∷ []) ≡ count_if t xs + count_if t (x ∷ [])
  count_if-last [] x = omega arith
  count_if-last (y ∷ xs) x = ground (arith, count_if-last xs x)

module _ (P : Player → Type 0) (f : Player → Player) (id : ℕ) where
  pub All-modify :
      (players : List Player)
      → ((p : Player) → P p → P (f p))
      → All P players
      → All P (modify_player id f players)
  unfolding modify_player
  All-modify [] h all = tt
  All-modify (p ∷ players) h all = elim (Bool-cases (p.id == id)) [
    | inl e ↦ rw e (h p all.0, all.1)
    | inr e ↦ rw e (all.0, All-modify players h all.1)
  ]

  -- Only the player who is found changes.
  All-modify_found :
      (players : List Player) (p : Player)
      → find (λ q. q.id == id) players ≡ some p
      → P (f p)
      → All P players
      → All P (modify_player id f players)
  unfolding modify_player
  All-modify_found [] p e h all = absurd (cc)
  All-modify_found (q ∷ players) p e h all = elim (Bool-cases (q.id == id)) [
    | inl here ↦ let is : p ≡ q = ground (arith, e) in rw here (rw⁻¹ is h, all.1)
    | inr other ↦ rw other (all.0, All-modify_found players p (ground (arith, e)) h all.1)
  ]

pub forget_join-DoorOk : (req : PendingJoin) (d : Door) → DoorOk d → DoorOk (forget_join req d)
unfolding forget_join
forget_join-DoorOk req d h = record {
  joins =
      ap (keep (λ q. not (q.request_id == req.request.request_id))) h.joins
      ∙ keep-map (λ r. r.request) _ d.joins;
  roles = h.roles;
  one_each = h.one_each;
  counted = h.counted;
}

pub forget_role-DoorOk : (request_id : ℕ) (d : Door) → DoorOk d → DoorOk (forget_role request_id d)
unfolding forget_role
forget_role-DoorOk request_id d h = record {
  joins = h.joins;
  roles =
      ap (keep (λ q. not (q.request_id == request_id))) h.roles
      ∙ keep-map (λ r. r.request) _ d.roles;
  one_each = λ id. omega (
    arith,
    h.one_each id,
    count_if-keep (λ q. q.player_id == id) (λ q. not (q.request_id == request_id))
        d.session.room.pending_role_requests,
  );
  counted = h.counted;
}

pub seat-DoorOk :
    (p : Player) (websocket : ℕ) (d : Door)
    → p.become_player_requests_count ≡ 0
    → DoorOk d
    → DoorOk (seat p websocket d)
unfolding seat add_player
seat-DoorOk p websocket d new h = record {
  joins = h.joins;
  roles = h.roles;
  one_each = h.one_each;
  counted =
      All-append AskedTwice d.session.room.players (p ∷ []) h.counted (omega (arith, new), tt);
}

pub file_join-DoorOk :
    (env : Env) (v : Visitor) (host : Player) (d : Door)
    → DoorOk d
    → DoorOk (file_join env v host d).1
unfolding file_join
file_join-DoorOk env v host d h = record {
  joins = ap (λ l. l ++ visitor_request v ∷ []) h.joins ∙ sym (map-snoc (λ r. r.request) d.joins _);
  roles = h.roles;
  one_each = h.one_each;
  counted = h.counted;
}

pub same_room :
    (s : Session) (d : Door)
    → s.room ≡ d.session.room
    → DoorOk d
    → DoorOk (record d { session = s })
same_room s d e h = record {
  joins = rw e h.joins;
  roles = rw e h.roles;
  one_each = λ id. rw e (h.one_each id);
  counted = rw e h.counted;
}

-- A spectator who may ask, and the first of the room's players with that id.
pub file_role-DoorOk :
    (env : Env) (request_id : ℕ) (p : Player) (d : Door)
    → find (λ q. q.id == p.id) d.session.room.players ≡ some p
    → leb 2 p.become_player_requests_count ≡ false
    → any (λ q. q.player_id == p.id) d.session.room.pending_role_requests ≡ false
    → DoorOk d
    → DoorOk (file_role env request_id p d).1
unfolding file_role store_role
file_role-DoorOk env request_id p d e few idle h =
    let stored : DoorOk
        (start_timer (env.now + 45 * second) (role_expiry request_id) (store_role request_id p d)) =
      record {
        joins = h.joins;
        roles =
            ap (λ l. l ++ player_request request_id p ∷ []) h.roles
            ∙ sym (map-snoc (λ r. r.request) d.roles _);
        one_each = λ id.
            let more =
              count_if-last (λ q. q.player_id == id) d.session.room.pending_role_requests
                (player_request request_id p) in
            let before = h.one_each id in
            elim (Bool-cases (p.id == id)) [
              | inl same ↦
                  let is : p.id ≡ id = ground arith in
                  let nobody : requests_of id d.session.room.pending_role_requests ≡ 0 =
                    rw⁻¹ is (count_if-none (λ q. q.player_id == p.id) _ idle) in
                  ground arith
              | inr other ↦ ground arith
            ];
        counted =
            All-modify_found AskedTwice count_request p.id d.session.room.players p e (ground arith)
              h.counted;
      } in
    same_room _ _ (room-notify_host request_id p _ _) stored
