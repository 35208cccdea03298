-- ===== src/Words.antt =====
-- backend/game_engine.py, `draw_word_choices`, `draw_word_pack_choices` and `select_word`, and the
-- lookup `WORD_TO_PACK` of backend/words.py. The tables WORDS and WORD_PACKS are arguments.
pub mod Offers
use skribbl_app.Prelude.{
  ℕ, zero, suc, ◌+◌, ◌-◌, ◌≡◌, refl, min, Bool, true, false, not, ◌||◌, Option, none, some, List,
  [], ◌∷◌, ◌++◌, length, take, keep, any, map, ltb, leb, ◌==◌, if◌then◌else◌,
}
use skribbl_app.Text.{Text, codes, Unicode, ascii, text_eq, mem_text}
use skribbl_app.Random.{choice, sample, shuffle, draws_after, next_draw, later_draws}
use skribbl_app.Models.{PackInfo, Pack, Room, new_room, default_config}

-- `[w for w in words if w not in used]`
abbrev pub unused : List Text → List Text → List Text
unused used words = keep (λ w. not (mem_text w used)) words

-- `used_words.add(word)`
unfoldable pub select_word : Text → Room → Room
unfolding mem_text
select_word word room = record room {
  used_words = if mem_text word room.used_words then room.used_words else word ∷ room.used_words;
}

-- The pool is reshuffled when fewer than 3 of its words are unused.
unfoldable pub refill_pool : List ℕ → List Text → Room → Room
unfolding mem_text shuffle
refill_pool draws all_words room =
    if ltb (length (unused room.used_words room.word_pool)) 3
    then (if ltb (length (unused room.used_words all_words)) 3
        then record room { used_words = []; word_pool = shuffle draws all_words }
        else record room { word_pool = shuffle draws (unused room.used_words all_words) })
    else room

-- The loop that adds words other than the custom one, up to three choices.
abbrev pub fill_choices : Unicode → Text → List Text → List Text → List Text
fill_choices u custom_choice choices [] = choices
fill_choices u custom_choice choices (w ∷ words) =
    let longer = choices ++ w ∷ [] in
    let go_on = fill_choices u custom_choice longer words in
    let skip = fill_choices u custom_choice choices words in
    if text_eq (u.lower w) (u.lower custom_choice)
    then skip
    else if length longer == 3
    then longer
    else go_on

-- `random.choice(unused_custom) if unused_custom else random.choice(custom_words)`
abbrev pub pick_custom : ℕ → List Text → List Text → Option Text
pick_custom draw [] custom_words = choice draw custom_words
pick_custom draw (w ∷ unused_custom) custom_words = choice draw (w ∷ unused_custom)

abbrev pub choices_from : Unicode → List Text → Option Text → List Text
choices_from u available none = take 3 available
choices_from u available (some custom_choice) =
    fill_choices u custom_choice (custom_choice ∷ []) available

-- The three choices, and the room with its new pool. The first number drawn picks the custom word.
unfoldable pub draw_word_choices : Unicode → List ℕ → List Text → Room → List Text × Room
unfolding mem_text text_eq choice refill_pool
draw_word_choices u draws all_words room =
    let refilled = refill_pool (later_draws draws) all_words room in
    let available = unused refilled.used_words refilled.word_pool in
    let custom_words = room.config.custom_words in
    let custom_choice =
      pick_custom (next_draw draws) (unused refilled.used_words custom_words) custom_words in
    let choices = choices_from u available custom_choice in
    (choices, record refilled { word_pool = unused choices refilled.word_pool })

-- The words of a pack that are offered: unused ones if there are enough, else any.
unfoldable pub offer : List ℕ → ℕ → List Text → List Text → List Text
unfolding mem_text sample
offer draws words_per_pack used words =
    let fresh = unused used words in
    let available = if ltb (length fresh) words_per_pack then words else fresh in
    sample draws available (min words_per_pack (length available))

-- The loop over the sampled packs; each takes at most `words_per_pack` numbers.
abbrev pub offer_packs : List ℕ → ℕ → List Text → List Pack → List Pack
offer_packs draws words_per_pack used [] = []
offer_packs draws words_per_pack used (pack ∷ packs) =
    record pack { words = offer draws words_per_pack used pack.words }
    ∷ offer_packs (draws_after words_per_pack draws) words_per_pack used packs

abbrev pub custom_info : PackInfo
custom_info = record { id = codes "custom"; name = codes "Custom Words"; emoji = codes "✨" }

-- The pack of custom words. With no unused word a sample of none is asked for, or `offer` takes all
-- words too, so that the test `not unused` of the source changes nothing.
abbrev pub custom_pack : List ℕ → ℕ → List Text → List Text → List Pack
custom_pack draws words_per_pack used [] = []
custom_pack draws words_per_pack used (w ∷ custom_words) =
    record { info = custom_info; words = offer draws words_per_pack used (w ∷ custom_words) } ∷ []

-- `selected[0]` of each pack that offers a word
abbrev pub first_words : List Pack → List Text
first_words [] = []
first_words (pack ∷ packs) = elim pack.words [
  | [] ↦ first_words packs
  | w ∷ _ ↦ w ∷ first_words packs
]

unfoldable pub draw_word_pack_choices : List ℕ → List Pack → Room → ℕ → ℕ → List Pack × List Text
unfolding offer sample
draw_word_pack_choices draws word_packs room num_packs words_per_pack =
    let custom = custom_pack draws words_per_pack room.used_words room.config.custom_words in
    let draws' = draws_after words_per_pack draws in
    let remaining_count = min (num_packs - length custom) (length word_packs) in
    let sampled_packs = sample draws' word_packs remaining_count in
    let packs_data =
      custom
      ++ offer_packs (draws_after remaining_count draws') words_per_pack room.used_words
          sampled_packs in
    (packs_data, first_words packs_data)

-- `[w for p in packs for w in p["words"]]`
abbrev pub offered_words : List Pack → List Text
offered_words [] = []
offered_words (pack ∷ packs) = pack.words ++ offered_words packs

-- `WORD_TO_PACK.get(key)`: the pack that was entered last under the key.
unfoldable pub word_to_pack : Unicode → List Pack → Text → Option PackInfo
unfolding text_eq
word_to_pack u [] key = none
word_to_pack u (pack ∷ packs) key = elim (word_to_pack u packs key) [
  | some info ↦ some info
  | none ↦ if any (λ w. text_eq (u.lower w) key) pack.words then some pack.info else none
]

abbrev pub small_packs : List Pack
small_packs =
    record {
      info = record { id = codes "animals"; name = codes "Animals"; emoji = codes "a" };
      words = codes "dog" ∷ codes "cat" ∷ codes "owl" ∷ codes "wolf" ∷ [];
    }
    ∷ record {
      info = record { id = codes "food"; name = codes "Food"; emoji = codes "f" };
      words = codes "apple" ∷ codes "bread" ∷ [];
    }
    ∷ []
