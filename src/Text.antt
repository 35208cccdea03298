-- ===== src/Text.antt =====
-- Python's `str` as its code points, and the methods of `str` that the backend calls.
pub mod Mask
pub mod Pieces
use Prim.Native.Char.{code}
use Prim.Native.String.{String}
use skribbl_app.Prelude.{
  ℕ, zero, suc, ◌-◌, ◌/◌, ◌%◌, ltb, suc, ◌≡◌, ◌↔◌, refl, Bool, true, false, ◌&&◌, ◌||◌, List, [],
  ◌∷◌, ◌++◌, arith, leb, ◌==◌, if◌then◌else◌, ◌+◌, map, length, any,
}

-- A `str` is the list of its code points.
abbrev pub Text : Type 0
Text = List ℕ

-- The text of a literal.
abbrev pub codes : String → Text
codes String.[] = []
codes (String.◌∷◌ c s) = code c ∷ codes s

-- What the backend takes from Python's tables of Unicode: `str.lower`, `str.isspace` and
-- `str.isalnum` of a character, and when `re.IGNORECASE` lets two characters match.
pub record Unicode : Type 0 where
  pub lower : Text → Text
  pub is_space : ℕ → Bool
  pub is_alnum : ℕ → Bool
  pub same_letter : ℕ → ℕ → Bool

-- `==` on `str`
unfoldable pub text_eq : Text → Text → Bool
text_eq [] [] = true
text_eq [] (b ∷ t) = false
text_eq (a ∷ s) [] = false
text_eq (a ∷ s) (b ∷ t) = (a == b) && text_eq s t

pub text_eq_iff : (s t : Text) → (text_eq s t ≡ true) ↔ (s ≡ t)
unfolding text_eq
text_eq_iff [] [] = ((λ _. refl), (λ _. refl))
text_eq_iff [] (b ∷ t) = ((λ h. cc), (λ h. cc))
text_eq_iff (a ∷ s) [] = ((λ h. cc), (λ h. cc))
text_eq_iff (a ∷ s) (b ∷ t) =
    ((λ h. ground (arith, text_eq_iff s t)), (λ h. ground (arith, text_eq_iff s t)))

pub text_eq_refl : (s : Text) → text_eq s s ≡ true
text_eq_refl s = (text_eq_iff s s).1 refl

-- `t in texts`, for a list or a set of texts
unfoldable pub mem_text : Text → List Text → Bool
unfolding text_eq
mem_text t texts = any (λ s. text_eq s t) texts

module _ (u : Unicode) where
  abbrev pub lstrip : Text → Text
  lstrip [] = []
  lstrip (c ∷ s) = let rest = lstrip s in if u.is_space c then rest else c ∷ s

  abbrev pub rstrip : Text → Text
  rstrip [] = []
  rstrip (c ∷ s) = elim (rstrip s) [
    | [] ↦ if u.is_space c then [] else c ∷ []
    | d ∷ rest ↦ c ∷ d ∷ rest
  ]

  -- `s.strip()`
  unfoldable pub strip : Text → Text
  strip s = rstrip (lstrip s)

  -- `word` at the head of a split, or none if the character before was a space.
  abbrev pub close_word : Text → List Text → List Text
  close_word [] words = words
  close_word (c ∷ word) words = (c ∷ word) ∷ words

  -- The pieces of `s.split()` from a place on, the first of them begun by `word`.
  abbrev pub split_from : Text → Text → List Text
  split_from word [] = close_word word []
  split_from word (c ∷ s) =
      let ended = close_word word (split_from [] s) in
      let longer = split_from (word ++ c ∷ []) s in if u.is_space c then ended else longer

  -- `s.split()`
  unfoldable pub split : Text → List Text
  split s = split_from [] s

  -- `re.sub(re.escape(word), "***", text, flags=re.IGNORECASE)`
  abbrev pub matches_at : Text → Text → Bool
  matches_at [] text = true
  matches_at (w ∷ word) [] = false
  matches_at (w ∷ word) (c ∷ text) = u.same_letter w c && matches_at word text

  abbrev pub stars : Text
  stars = codes "***"

  -- The first argument counts the characters of a match that are still to be skipped.
  abbrev pub mask_from : ℕ → Text → Text → Text
  mask_from skip word [] = []
  mask_from (suc skip) word (c ∷ text) = mask_from skip word text
  mask_from zero word (c ∷ text) =
      let masked = stars ++ mask_from (length word - 1) word text in
      let kept = c ∷ mask_from zero word text in if matches_at word (c ∷ text) then masked else kept

  -- An empty pattern matches at every place.
  abbrev pub mask_all : Text → Text
  mask_all [] = stars
  mask_all (c ∷ text) = stars ++ c ∷ mask_all text

  unfoldable pub mask_word : Text → Text → Text
  mask_word [] text = mask_all text
  mask_word (w ∷ word) text = mask_from zero (w ∷ word) text

-- `" ".join(words)`
unfoldable pub join_spaces : List Text → Text
join_spaces [] = []
join_spaces (w ∷ []) = w
join_spaces (w ∷ v ∷ words) = w ++ b' ' ∷ join_spaces (v ∷ words)

-- The digits of a number, `str(n)`, on as many steps as the number has units, and one.
abbrev pub digits : ℕ → ℕ → Text → Text
digits zero n rest = rest
digits (suc fuel) n rest =
    let more = digits fuel (n / 10) ((b'0' + n % 10) ∷ rest) in
    if ltb n 10 then (b'0' + n) ∷ rest else more

abbrev pub show_nat : ℕ → Text
show_nat n = digits (suc n) n []

-- The tables on ASCII, where all test inputs lie.
abbrev pub ascii_lower : ℕ → ℕ
ascii_lower c = if leb b'A' c && leb c b'Z' then c + 32 else c

abbrev pub ascii_is_space : ℕ → Bool
ascii_is_space c = c == b' ' || leb 9 c && leb c 13

abbrev pub ascii_is_alnum : ℕ → Bool
ascii_is_alnum c = leb b'0' c && leb c b'9' || leb b'a' (ascii_lower c) && leb (ascii_lower c) b'z'

abbrev pub ascii : Unicode
ascii = record {
  lower = map ascii_lower;
  is_space = ascii_is_space;
  is_alnum = ascii_is_alnum;
  same_letter = λ a b. ascii_lower a == ascii_lower b;
}
