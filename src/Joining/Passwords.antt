-- ===== src/Joining/Passwords.antt =====
-- Whom the password of a room lets in.
use skribbl_app.Prelude.{
  ℕ, zero, suc, min, ◌≡◌, ◌≢◌, refl, ap, ◌∙◌, inl, inr, Bool, true, false, Bool-cases, Option, none,
  some, [], ◌∷◌, arith, length, take, leb, if◌then◌else◌,
}
use skribbl_app.Text.{Text, codes, Unicode, strip, text_eq, text_eq_iff}
use skribbl_app.Models.{lobby, state_eq, Player, add_player}
use skribbl_app.Session.{Env}
use skribbl_app.Lobby.{ErrorCode, error, invalid_password}
use skribbl_app.Joining.{
  Door, Visitor, compare_password, password_error, players_full, admit_unless, admit, take_seat,
  join_room_local,
}
use skribbl_app.Joining.Create.{or_none, clean_password, create_config, first_room, room_size}

text_eq-take : (n : ℕ) (t : Text) → text_eq t (take n t) ≡ leb (length t) n
unfolding text_eq
text_eq-take zero [] = refl
text_eq-take zero (c ∷ t) = ground arith
text_eq-take (suc n) [] = ground arith
text_eq-take (suc n) (c ∷ t) = let rest = text_eq-take n t in ground (arith, rest)

compare_password_denied :
    (given password : Text)
    → given ≢ password
    → (code : ErrorCode) × (text : Text) × (compare_password given password ≡ some (code, text))
compare_password_denied [] password wrong = (_, _, refl)
compare_password_denied (c ∷ given) password wrong =
    elim (Bool-cases (text_eq (c ∷ given) password)) [
      | inl e ↦ absurd (wrong ((text_eq_iff (c ∷ given) password).0 e))
      | inr e ↦ rw e (_, _, refl)
    ]

-- A visitor of a private room whose password, without the space around it, is not the room's gets an
-- error, and nothing changes.
pub join_room_local_denied :
    (env : Env) (v : Visitor) (d : Door) (c : ℕ) (password given : Text)
    → d.session.room.config.password ≡ some (c ∷ password)
    → v.password ≡ some given
    → strip env.unicode given ≢ c ∷ password
    → (code : ErrorCode) × (text : Text) × (join_room_local env v d ≡ (error code text, d))
unfolding join_room_local password_error
join_room_local_denied env v d c password given private typed wrong =
    let (code, text, e) = compare_password_denied (strip env.unicode given) (c ∷ password) wrong in
    (code, text, rw (private, typed, e) refl)

-- The error of the password that a room was made with, as the same password is given again.
abbrev too_long : Text → Option (ErrorCode × Text)
too_long text =
    if leb (length text) 64 then none else some (invalid_password, codes "Incorrect room password")

given_again :
    (u : Unicode) (typed password : Text)
    → strip u typed ≡ password
    → password_error u (or_none password) (some typed) ≡ too_long password
unfolding password_error
given_again u typed [] e = refl
given_again u typed (c ∷ password) e =
    rw (e, text_eq-take 64 (c ∷ password))
      (elim (Bool-cases (leb (length password) 63)) [
        | inl short ↦ let h : leb (length (c ∷ password)) 64 ≡ true = ground arith in rw h refl
        | inr long ↦ let h : leb (length (c ∷ password)) 64 ≡ false = ground arith in rw h refl
      ])

room_size_pos : (n : Option ℕ) → leb (min (room_size n) 12) 1 ≡ false
room_size_pos none = refl
room_size_pos (some n) = ground arith

admitted :
    (env : Env) (v : Visitor) (d : Door)
    → state_eq d.session.room.state lobby ≡ true
    → players_full d.session.room ≡ false
    → v.as_spectator ≡ false
    → admit env v d ≡ take_seat env v d
unfolding admit
admitted env v d waits free plays = ground arith

refused_or :
    (long : Bool) (env : Env) (v : Visitor) (d : Door)
    → admit env v d ≡ take_seat env v d
    → admit_unless
        (if long then none else some (invalid_password, codes "Incorrect room password"))
        env
        v
        d
      ≡ (if long
          then take_seat env v d
          else (error invalid_password (codes "Incorrect room password"), d))
refused_or true env v d e = e
refused_or false env v d e = refl

-- A room is as it was made with a password: in its lobby, with nobody in it but the host, who is no
-- spectator, and with its first settings. A visitor who comes as a player with this password takes a
-- seat if the password has at most 64 characters without the space around it; else the visitor is
-- refused as if the password were wrong, and nothing changes.
pub join_room_local-create_config :
    (env : Env) (v : Visitor) (d : Door) (code : ℕ) (host : Player) (password : Text)
    (max_players : Option ℕ)
    → d.session.room ≡ first_room code host (create_config env.unicode (some password) max_players)
    → host.is_spectator ≡ false
    → v.as_spectator ≡ false
    → v.password ≡ some password
    → join_room_local env v d ≡ (
        if leb (length (strip env.unicode password)) 64
        then take_seat env v d
        else (error invalid_password (codes "Incorrect room password"), d))
unfolding join_room_local admit create_config first_room clean_password add_player
join_room_local-create_config env v d code host password max_players made host_plays plays same =
    let again = given_again env.unicode password (strip env.unicode password) refl in
    let free : players_full d.session.room ≡ false =
      ap players_full made ∙ rw host_plays (room_size_pos max_players) in
    let private : d.session.room.config.password ≡ or_none (strip env.unicode password) =
      ap (λ r. r.config.password) made in
    let checked : password_error env.unicode d.session.room.config.password v.password
        ≡ too_long (strip env.unicode password) =
      rw (private, same) again in
    ap (λ problem. admit_unless problem env v d) checked
    ∙ refused_or (leb (length (strip env.unicode password)) 64) env v d
        (admitted env v d (ap (λ r. state_eq r.state lobby) made) free plays)
