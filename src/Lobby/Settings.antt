-- ===== src/Lobby/Settings.antt =====
-- backend/room_manager.py, `update_settings`.
use skribbl_app.Prelude.{
  ℕ, ◌+◌, Bool, true, false, not, ◌&&◌, ◌||◌, Option, none, some, List, [], ◌∷◌, ◌++◌, map, take,
  leb, ◌==◌, if◌then◌else◌,
}
use skribbl_app.Text.{Text, codes, show_nat, Unicode, strip, mem_text}
use skribbl_app.Models.{lobby, state_eq, GameConfig}
use skribbl_app.Payloads.{serialize_config}
use skribbl_app.Session.{Session, settings_updated, broadcast, set_room}
use skribbl_app.Lobby.{Reply, error, told, game_not_active, permission_denied, invalid_settings}

-- A value of JSON, as far as the handler tells values apart: `negative n` is the integer -(n + 1),
-- and `other` is a float, an object, or an array within an array.
pub data Scalar : Type 0 where
  null : Scalar
  boolean : Bool → Scalar
  natural negative : ℕ → Scalar
  str : Text → Scalar
  other : Scalar

pub data Value : Type 0 where
  scalar : Scalar → Value
  array : List Scalar → Value

-- `settings_dict`; a missing key is `none`.
pub record SettingsDict : Type 0 where
  pub num_rounds : Option Value
  pub turn_duration : Option Value
  pub max_players : Option Value
  pub custom_words : Option Value
  pub password : Option Value

-- The integer of a value, where `isinstance(value, int)` holds and it is not negative; a bool is an
-- int.
abbrev pub integer : Value → Option ℕ
integer (scalar (natural n)) = some n
integer (scalar (boolean b)) = some (if b then 1 else 0)
integer _ = none

abbrev pub in_range : ℕ → ℕ → Option ℕ → Bool
in_range lo hi none = false
in_range lo hi (some n) = leb lo n && leb n hi

-- A key that is present has an integer in the range.
abbrev pub valid : ℕ → ℕ → Option Value → Bool
valid lo hi none = true
valid lo hi (some v) = in_range lo hi (integer v)

abbrev pub number_or : ℕ → Option ℕ → ℕ
number_or old none = old
number_or old (some n) = n

-- The number to be set; the value is valid.
abbrev pub setting : ℕ → Option Value → ℕ
setting old none = old
setting old (some v) = number_or old (integer v)

-- `str(w)` for the elements that are strings or integers; the others are left out.
abbrev pub word_of : Scalar → List Text
word_of (str text) = text ∷ []
word_of (natural n) = show_nat n ∷ []
word_of (negative n) = (b'-' ∷ show_nat (n + 1)) ∷ []
word_of (boolean true) = codes "True" ∷ []
word_of (boolean false) = codes "False" ∷ []
word_of _ = []

abbrev pub words_of : List Scalar → List Text
words_of [] = []
words_of (s ∷ scalars) = word_of s ++ words_of scalars

abbrev pub separates : ℕ → Bool
separates c = (c == 10) || (c == b',')

-- `re.split(r"[\n,]+", text)` from a place on: whether a separator is just before it, and the piece
-- that is begun.
abbrev pub split_commas : Bool → Text → Text → List Text
split_commas after piece [] = piece ∷ []
split_commas after piece (c ∷ text) =
    let again = split_commas true [] text in
    let longer = split_commas false (piece ++ c ∷ []) text in
    if separates c then (if after then again else piece ∷ again) else longer

module _ (u : Unicode) where
  -- `raw_list`
  abbrev pub raw_list : Value → List Text
  raw_list (scalar (str text)) = map (strip u) (split_commas false [] text)
  raw_list (array scalars) = map (strip u) (words_of scalars)
  raw_list _ = []

  -- `if w and w.lower() not in seen: ...`, with the words that the rest of the list gives.
  abbrev pub add_word : Text → List Text → List Text → List Text → List Text
  add_word [] seen kept skipped = skipped
  add_word (c ∷ w) seen kept skipped =
      if mem_text (u.lower (c ∷ w)) seen then skipped else (c ∷ w) ∷ kept

  -- The words that the loop keeps, in their order.
  abbrev pub sanitize : List Text → List Text → List Text
  sanitize seen [] = []
  sanitize seen (raw ∷ raws) =
      let w = strip u (take 40 raw) in
      add_word w seen (sanitize (u.lower w ∷ seen) raws) (sanitize seen raws)

  abbrev pub new_words : List Text → Option Value → List Text
  new_words old none = old
  new_words old (some v) = take 500 (sanitize [] (raw_list v))

  abbrev pub password_of : Text → Option Text
  password_of [] = none
  password_of (c ∷ text) = some (take 64 (c ∷ text))

  abbrev pub new_password : Option Text → Option Value → Option Text
  new_password old (some (scalar null)) = none
  new_password old (some (scalar (str text))) = password_of (strip u text)
  new_password old _ = old

  abbrev pub apply_settings : SettingsDict → GameConfig → GameConfig
  apply_settings d config = record {
    num_rounds = setting config.num_rounds d.num_rounds;
    turn_duration = setting config.turn_duration d.turn_duration;
    max_players = setting config.max_players d.max_players;
    custom_words = new_words config.custom_words d.custom_words;
    password = new_password config.password d.password;
  }

  abbrev pub settings_applied : SettingsDict → Session → Reply × Session
  settings_applied d s =
      let changed = set_room (λ r. record r { config = apply_settings d r.config }) s in
      let message = settings_updated (serialize_config changed.room.config) in
      (told message, broadcast message changed)

  unfoldable pub update_settings : ℕ → SettingsDict → Session → Reply × Session
  unfolding strip mem_text
  update_settings id d s =
      if not (s.room.host_id == id)
      then (error permission_denied (codes "Only the host can update settings"), s)
      else if not (state_eq s.room.state lobby)
      then (error game_not_active (codes "Settings can only be changed in the lobby"), s)
      else if not (valid 2 10 d.num_rounds)
      then (error invalid_settings (codes "num_rounds must be between 2 and 10"), s)
      else if not (valid 30 180 d.turn_duration)
      then (error invalid_settings (codes "turn_duration must be between 30 and 180"), s)
      else if not (valid 2 12 d.max_players)
      then (error invalid_settings (codes "max_players must be between 2 and 12"), s)
      else settings_applied d s
