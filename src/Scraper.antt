-- ===== src/Scraper.antt =====
-- frontend/src/lib/recipe-scraper.ts: the texts of a recipe that was found in a page. `lower` is
-- `toLowerCase`. What walks the page (DOM and JSON) is not modelled.
pub mod Parsed
pub mod Durations
pub mod Json
pub mod Reached
pub mod Tags
pub mod Instructions
use lunch_loxs.Prelude.{
  ℕ, zero, suc, ◌+◌, ◌-◌, ◌*◌, Bool, true, false, not, ◌&&◌, ◌||◌, List, [], ◌∷◌, ◌++◌, Option,
  none, some, Text, codes, trim, drop_spaces, join, is_space, is_empty, is_digit, value_after, drop,
  or_default, ◌==◌, cons_head, if◌then◌else◌, leb, split,
}
use lunch_loxs.Prelude.Sets
use lunch_loxs.Prelude.Sets.{TextSet}
use lunch_loxs.Units.{canonical_unit_name}

-- `UNICODE_FRACTIONS`
abbrev pub unicode_fractions : List (ℕ × Text)
unicode_fractions =
    (0xbc, codes "1/4")
    ∷ (0xbd, codes "1/2")
    ∷ (0xbe, codes "3/4")
    ∷ (0x2153, codes "1/3")
    ∷ (0x2154, codes "2/3")
    ∷ (0x215b, codes "1/8")
    ∷ (0x215c, codes "3/8")
    ∷ (0x215d, codes "5/8")
    ∷ (0x215e, codes "7/8")
    ∷ []

unfoldable pub fraction_of : ℕ → List (ℕ × Text) → Text
fraction_of c [] = c ∷ []
fraction_of c ((d, t) ∷ fs) = if c == d then t else fraction_of c fs

unfoldable pub normalize_unicode_fractions : Text → Text
unfolding fraction_of
normalize_unicode_fractions [] = []
normalize_unicode_fractions (c ∷ s) =
    fraction_of c unicode_fractions ++ normalize_unicode_fractions s

-- `\d*` at the start, and what follows.
unfoldable pub read_digits : Text → Text × Text
read_digits [] = ([], [])
read_digits (c ∷ s) =
    let (ds, rest) = read_digits s in if is_digit c then (c ∷ ds, rest) else ([], c ∷ s)

-- A separator and `\d+` at the start.
unfoldable pub read_part : ℕ → Text → Option (Text × Text)
unfolding read_digits
read_part sep [] = none
read_part sep (c ∷ s) =
    let (ds, rest) = read_digits s in
    if c == sep && not (is_empty ds) then some (c ∷ ds, rest) else none

-- `\s*` at the start, and what follows.
unfoldable pub read_spaces : Text → Text × Text
unfolding is_space
read_spaces [] = ([], [])
read_spaces (c ∷ s) =
    let (sp, rest) = read_spaces s in if is_space c then (c ∷ sp, rest) else ([], c ∷ s)

-- `\s+\d+\/\d+` at the start.
unfoldable pub read_mixed : Text → Option (Text × Text)
unfolding read_digits read_part read_spaces
read_mixed s =
    let (sp, s') = read_spaces s in
    let (ds, rest) = read_digits s' in
    if is_empty sp || is_empty ds then none else elim (read_part b'/' rest) [
      | none ↦ none
      | some (fraction, rest') ↦ some (sp ++ (ds ++ fraction), rest')
    ]

-- `QTY_RE`: the quantity and the rest; `none`: no match.
unfoldable pub read_quantity : Text → Option (Text × Text)
unfolding read_digits read_mixed read_part
read_quantity s =
    let (ds, rest) = read_digits s in
    if is_empty ds then none else elim (read_mixed rest) [
      | some (tail, rest') ↦ some (ds ++ tail, rest')
      | none ↦ elim (read_part b'.' rest) [
        | some (tail, rest') ↦ some (ds ++ tail, rest')
        | none ↦ elim (read_part b'/' rest) [
          | some (tail, rest') ↦ some (ds ++ tail, rest')
          | none ↦ some (ds, rest)
        ]
      ]
    ]

-- The words of a text that starts with none of the white space: `s.split(/\s+/)`.
unfoldable pub words_from : Bool → Text → List Text
unfolding cons_head is_space
words_from after_space [] = [] ∷ []
words_from after_space (c ∷ s) =
    let rest = words_from true s in
    let same = words_from false s in
    if is_space c then (if after_space then rest else [] ∷ rest) else cons_head c same

unfoldable pub words : Text → List Text
unfolding words_from
words s = words_from false s

-- `word.replace(/\.$/, "")`
unfoldable pub drop_last_period : Text → Text
drop_last_period [] = []
drop_last_period (c ∷ []) = if c == b'.' then [] else c ∷ []
drop_last_period (c ∷ d ∷ s) = c ∷ drop_last_period (d ∷ s)

-- `s.replace(/^of\s+/i, "")`
unfoldable pub drop_of : Text → Text
unfolding drop_spaces is_space
drop_of (a ∷ b ∷ c ∷ s) =
    if (a == b'o' || a == b'O') && (b == b'f' || b == b'F') && is_space c
    then drop_spaces s
    else a ∷ b ∷ c ∷ s
drop_of s = s

unfoldable pub quantity_of : Text → Text × Text
unfolding read_quantity trim
quantity_of s = elim (read_quantity s) [
  | none ↦ ([], s)
  | some (quantity, rest) ↦ (trim quantity, trim rest)
]

pub record ParsedIngredient : Type 0 where
  pub quantity : Text
  pub unit : Text
  pub item : Text

module _ (lower : Text → Text) where
  -- The unit, and the text behind it.
  unfoldable pub two_word_unit : List Text → Option (Text × Text)
  unfolding canonical_unit_name join trim
  two_word_unit (a ∷ b ∷ ws) = elim (canonical_unit_name lower (a ++ b' ' ∷ b)) [
    | none ↦ none
    | some unit ↦ some (unit, trim (join (b' ' ∷ []) ws))
  ]
  two_word_unit _ = none

  unfoldable pub one_word_unit : List Text → Option (Text × Text)
  unfolding canonical_unit_name join trim drop_last_period
  one_word_unit (a ∷ ws) = elim (canonical_unit_name lower (drop_last_period a)) [
    | none ↦ none
    | some unit ↦ some (unit, trim (join (b' ' ∷ []) ws))
  ]
  one_word_unit _ = none

  unfoldable pub read_unit : Text → Text × Text
  unfolding two_word_unit one_word_unit words
  read_unit s = elim (two_word_unit (words s)) [
    | some found ↦ found
    | none ↦ or_default (one_word_unit (words s)) ([], s)
  ]

  unfoldable pub parse_ingredient_string : Text → ParsedIngredient
  unfolding normalize_unicode_fractions quantity_of read_unit drop_of trim
  parse_ingredient_string raw =
      let (quantity, rest) = quantity_of (trim (normalize_unicode_fractions raw)) in
      let (unit, rest') = read_unit rest in
      let item = trim (drop_of rest') in
      record { quantity = quantity; unit = unit; item = if is_empty item then trim raw else item }

-- `(?:(\d+)X)?`, where the letter is given in both cases.
unfoldable pub read_unit_of_time : ℕ → ℕ → Text → ℕ × Text
unfolding read_digits value_after
read_unit_of_time upper_case lower_case s =
    let (ds, rest) = read_digits s in
    elim rest [
      | [] ↦ (0, s)
      | c ∷ rest' ↦
          if not (is_empty ds) && (c == upper_case || c == lower_case)
          then (value_after 0 ds, rest')
          else (0, s)
    ]

-- The first place where `PT` occurs; the text behind it.
unfoldable pub find_pt : Text → Option Text
find_pt (a ∷ b ∷ s) =
    let later = find_pt (b ∷ s) in
    if (a == b'P' || a == b'p') && (b == b'T' || b == b't') then some s else later
find_pt _ = none

-- The seconds are matched and not used.
unfoldable pub parse_iso8601_duration : Text → ℕ
unfolding find_pt read_unit_of_time
parse_iso8601_duration s = elim (find_pt s) [
  | none ↦ 0
  | some rest ↦
      let (hours, rest') = read_unit_of_time b'H' b'h' rest in
      let (mins, _) = read_unit_of_time b'M' b'm' rest' in hours * 60 + mins
]

-- `s.match(/(\d+)/)`, the yield being given as text
unfoldable pub parse_recipe_yield : Text → ℕ
unfolding read_digits value_after
parse_recipe_yield [] = 4
parse_recipe_yield (c ∷ s) =
    let later = parse_recipe_yield s in
    if is_digit c then value_after 0 (read_digits (c ∷ s)).0 else later
