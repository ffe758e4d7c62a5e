-- ===== src/Densities.antt =====
-- frontend/src/lib/densities.ts: weights of volumes of ingredients. `lower` is `toLowerCase`; the
-- expressions compiled from the keywords have no special character left, and the flag `i` makes no
-- difference on the lower-case ASCII letters of which the keywords consist.
pub mod Table
pub mod Longest
use lunch_loxs.Prelude.{
  ℕ, zero, suc, ◌+◌, ◌*◌, Bool, true, false, not, ◌&&◌, ◌||◌, List, [], ◌∷◌, ◌++◌, Option, none,
  some, Text, codes, text_eq, starts_with, drop, length, ltb, leb, ◌==◌, is_empty, if◌then◌else◌,
}
use lunch_loxs.Densities.Table.{density_table}
use lunch_loxs.Units.Tables.{Dimension, volume, weight}
use lunch_loxs.Units.Fractions.{Fraction, times, over, round_to}

pub record Entry : Type 0 where
  pub keyword : Text
  pub grams_per_cup : ℕ

-- `for (const kw of keywords) list.push({ keyword: kw, gramsPerCup })`
unfoldable pub entries_of : List Text → ℕ → List Entry
entries_of [] grams = []
entries_of (kw ∷ kws) grams = record { keyword = kw; grams_per_cup = grams } ∷ entries_of kws grams

unfoldable pub flatten : List (List Text × ℕ) → List Entry
unfolding entries_of
flatten [] = []
flatten ((kws, grams) ∷ rest) = entries_of kws grams ++ flatten rest

-- The sort is stable, the longest keyword first.
unfoldable pub insert : Entry → List Entry → List Entry
insert e [] = e ∷ []
insert e (f ∷ fs) =
    if ltb (length e.keyword) (length f.keyword) then f ∷ insert e fs else e ∷ f ∷ fs

unfoldable pub sort : List Entry → List Entry
unfolding insert
sort [] = []
sort (e ∷ es) = insert e (sort es)

unfoldable pub candidates : List Entry
unfolding sort flatten
candidates = sort (flatten density_table)

-- `\w`
unfoldable pub is_word : ℕ → Bool
is_word c =
    (leb b'a' c && leb c b'z')
    || (leb b'A' c && leb c b'Z')
    || (leb b'0' c && leb c b'9')
    || c == b'_'

unfoldable pub first_is_word : Text → Bool
unfolding is_word
first_is_word [] = false
first_is_word (c ∷ s) = is_word c

unfoldable pub last_is_word : Text → Bool
unfolding is_word
last_is_word [] = false
last_is_word (c ∷ []) = is_word c
last_is_word (c ∷ d ∷ s) = last_is_word (d ∷ s)

-- `\b` between two texts
unfoldable pub is_boundary : Bool → Bool → Bool
is_boundary true b = not b
is_boundary false b = b

-- `\bkw\b` matches here, where `before` says whether a word character precedes.
unfoldable pub matches_here : Text → Bool → Text → Bool
unfolding is_boundary first_is_word last_is_word
matches_here kw before s =
    is_boundary before (first_is_word s)
    && starts_with s kw
    && is_boundary (if is_empty kw then before else last_is_word kw)
        (first_is_word (drop (length kw) s))

unfoldable pub matches_from : Text → Bool → Text → Bool
unfolding matches_here is_word
matches_from kw before [] = matches_here kw before []
matches_from kw before (c ∷ s) = matches_here kw before (c ∷ s) || matches_from kw (is_word c) s

-- `pattern.test(s)`
unfoldable pub matches : Text → Text → Bool
unfolding matches_from
matches kw s = matches_from kw false s

-- `grams_per_cup / ML_PER_CUP` is kept as its numerator.
pub record DensityMatch : Type 0 where
  pub grams_per_cup : ℕ
  pub matched_as : Text

unfoldable pub find_among : List Entry → Text → Option DensityMatch
unfolding matches
find_among [] s = none
find_among (e ∷ es) s =
    if matches e.keyword s
    then some (record { grams_per_cup = e.grams_per_cup; matched_as = e.keyword })
    else find_among es s

unfoldable pub find_density : (Text → Text) → Text → Option DensityMatch
unfolding find_among candidates
find_density lower item = if is_empty item then none else find_among candidates (lower item)

-- `ML_PER_CUP`, in ten-thousandths
abbrev pub ml_per_cup : ℕ
ml_per_cup = 2365880

abbrev whole : ℕ → ℕ
whole n = n * 10000

unfoldable pub volume_to_weight : Fraction → DensityMatch → Fraction
unfolding times over round_to
volume_to_weight volume_ml density =
    round_to 100 (over (times volume_ml (whole density.grams_per_cup)) ml_per_cup)

unfoldable pub weight_to_volume : Fraction → DensityMatch → Fraction
unfolding times over round_to
weight_to_volume grams density =
    round_to 100 (times (over grams (whole density.grams_per_cup)) ml_per_cup)

abbrev pub weight_units : List (Text × ℕ)
weight_units =
    (codes "g", 10000) ∷ (codes "kg", 10000000) ∷ (codes "oz", 283495) ∷ (codes "lb", 4535920) ∷ []

abbrev pub volume_units : List (Text × ℕ)
volume_units =
    (codes "tsp", 49290)
    ∷ (codes "tbsp", 147870)
    ∷ (codes "cup", 2365880)
    ∷ (codes "ml", 10000)
    ∷ (codes "l", 10000000)
    ∷ []

-- `units.find(([u]) => u === target)?.[1]`
unfoldable pub divisor_of : List (Text × ℕ) → Text → Option ℕ
divisor_of [] target = none
divisor_of ((u, d) ∷ us) target = if text_eq u target then some d else divisor_of us target

pub record DensityConversion : Type 0 where
  pub qty : Fraction
  pub unit : Text

unfoldable pub converted : Fraction → Text → Option ℕ → Option DensityConversion
unfolding over round_to
converted amount target none = none
converted amount target (some zero) = none
converted amount target (some (suc d)) =
    some (record { qty = round_to 10 (over amount (suc d)); unit = codes "~" ++ target })

unfoldable pub convert_via_density :
    Fraction → ℕ → Dimension → Text → DensityMatch → Option DensityConversion
unfolding converted divisor_of volume_to_weight weight_to_volume
convert_via_density qty from_to_base volume target density =
    converted (volume_to_weight (times qty from_to_base) density) target
      (divisor_of weight_units target)
convert_via_density qty from_to_base weight target density =
    converted (weight_to_volume (times qty from_to_base) density) target
      (divisor_of volume_units target)
