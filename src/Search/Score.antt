-- ===== src/Search/Score.antt =====
-- frontend/src/lib/search.ts: the fzf-style score of a pattern in a text. The parameter `lower` is
-- `toLowerCase` on one code unit. The score is a number of JavaScript far inside the safe range; it
-- is kept as what was gained and what was lost, since gaps may push it below zero.
use lunch_loxs.Prelude.{
  ℕ, zero, suc, ◌+◌, ◌-◌, ◌*◌, max, Bool, true, false, ◌&&◌, ◌||◌, not, [], ◌∷◌, Option, none, some,
  Text, codes, text_eq, if◌then◌else◌, ltb, leb, ◌==◌, any, length, take, drop, or_default, is_some,
}
use mathlib.Core.List.{reverse}

abbrev pub score_match : ℕ
score_match = 16

-- The penalties, as amounts.
abbrev pub score_gap_start : ℕ
score_gap_start = 3

abbrev pub score_gap_extension : ℕ
score_gap_extension = 1

abbrev pub bonus_boundary : ℕ
bonus_boundary = 8

abbrev pub bonus_boundary_white : ℕ
bonus_boundary_white = 10

abbrev pub bonus_boundary_delimiter : ℕ
bonus_boundary_delimiter = 9

abbrev pub bonus_camel_123 : ℕ
bonus_camel_123 = 7

abbrev pub bonus_consecutive : ℕ
bonus_consecutive = 4

abbrev pub bonus_non_word : ℕ
bonus_non_word = 8

abbrev pub bonus_first_char_multiplier : ℕ
bonus_first_char_multiplier = 2

abbrev pub max_gap : ℕ
max_gap = 16

pub data CharClass : Type 0 where
  white non_word delim lower_case upper_case number : CharClass

between : ℕ → ℕ → ℕ → Bool
between lo hi c = leb lo c && leb c hi

unfoldable pub char_class : ℕ → CharClass
unfolding between
char_class c =
    if c == b' ' || c == 9 || c == 10 || c == 13
    then white
    else if between b'a' b'z' c
    then lower_case
    else if between b'A' b'Z' c
    then upper_case
    else if between b'0' b'9' c
    then number
    else if any (λ d. c == d) (codes ",;:|/")
    then delim
    else non_word

-- The bonus of a word character, by the class before it.
unfoldable pub word_bonus : CharClass → CharClass → ℕ
word_bonus white cur = bonus_boundary_white
word_bonus delim cur = bonus_boundary_delimiter
word_bonus non_word cur = bonus_boundary
word_bonus lower_case upper_case = bonus_camel_123
word_bonus number number = 0
word_bonus prev number = bonus_camel_123
word_bonus prev cur = 0

unfoldable pub bonus_for : CharClass → CharClass → ℕ
unfolding word_bonus
bonus_for prev white = bonus_boundary_white
bonus_for prev non_word = bonus_non_word
bonus_for prev delim = bonus_non_word
bonus_for prev cur = word_bonus prev cur

-- The variables of the scoring loop; the score is `gained - lost`.
pub record Tally : Type 0 where
  pub gained : ℕ
  pub lost : ℕ
  pub consecutive : ℕ
  pub first_bonus : ℕ
  pub gap_len : ℕ
  pub prev_class : CharClass

-- A character that matches; `first` is `pi === 0`.
unfoldable pub count_match : Bool → CharClass → Tally → Tally
unfolding bonus_for
count_match first cur t =
    let bonus = bonus_for t.prev_class cur in
    let added =
      if first
      then bonus * bonus_first_char_multiplier
      else if ltb 0 t.consecutive
      then max (max bonus bonus_consecutive) t.first_bonus
      else bonus in
    let chunk_bonus = if first || t.consecutive == 0 then bonus else t.first_bonus in
    record {
      gained = t.gained + score_match + added;
      lost = t.lost;
      consecutive = suc t.consecutive;
      first_bonus = if t.consecutive == 0 || ltb chunk_bonus bonus then bonus else chunk_bonus;
      gap_len = 0;
      prev_class = cur;
    }

-- A character between two matches.
unfoldable pub count_gap : CharClass → Tally → Tally
count_gap cur t = record {
  gained = t.gained;
  lost = t.lost + (if ltb 0 t.consecutive then score_gap_start else score_gap_extension);
  consecutive = 0;
  first_bonus = t.first_bonus;
  gap_len = suc t.gap_len;
  prev_class = cur;
}

abbrev pub empty_tally : CharClass → Tally
empty_tally prev = record {
  gained = 0;
  lost = 0;
  consecutive = 0;
  first_bonus = 0;
  gap_len = 0;
  prev_class = prev;
}

-- The class before `startIdx`.
unfoldable pub class_before : Text → ℕ → CharClass
class_before text zero = white
class_before text (suc i) = elim (drop i text) [ [] ↦ non_word | c ∷ _ ↦ char_class c ]

module _ (lower : ℕ → Text) where
  -- `text[ti]!.toLowerCase() === pattern[pi]`
  unfoldable pub same_char : ℕ → ℕ → Bool
  same_char t c = text_eq (lower t) (c ∷ [])

  -- The forward pass, from `ti` on: the first occurrence of each pattern character in turn; the
  -- result is `startIdx` and `endIdx`.
  unfoldable pub forward : Text → Text → ℕ → Option ℕ → Option (ℕ × ℕ)
  forward [] text ti start = some (or_default start 0, ti)
  forward (c ∷ pattern) [] ti start = none
  forward (c ∷ pattern) (t ∷ text) ti start =
      let hit = same_char t c in
      forward (if hit then pattern else c ∷ pattern) text (suc ti)
        (if hit && not (is_some start) then some ti else start)

  -- The backward contraction over the reversed pattern and the reversed span; `ti` is the index of
  -- the head of the span, and `start` what `startIdx` is.
  unfoldable pub contract : Text → Text → ℕ → ℕ → ℕ
  contract [] span ti start = start
  contract (c ∷ pattern) [] ti start = start
  contract (c ∷ pattern) (t ∷ span) ti start =
      let hit = same_char t c in
      contract (if hit then pattern else c ∷ pattern) span (ti - 1)
        (if hit && length pattern == 0 then ti else start)

  -- The scoring loop over the span; `none` is `return 0` at a gap that is too large.
  unfoldable pub tally : Text → Bool → Text → Tally → Option Tally
  unfolding count_match count_gap char_class
  tally [] first span t = some t
  tally (c ∷ pattern) first [] t = some t
  tally (c ∷ pattern) first (s ∷ span) t =
      let cur = char_class s in
      elim (same_char s c) [
        | true ↦
            if not first && ltb max_gap t.gap_len
            then none
            else tally pattern false span (count_match first cur t)
        | false ↦ tally (c ∷ pattern) first span (count_gap cur t)
      ]

  -- The score of the span from `start` to `end`, if it is not too spread out.
  unfoldable pub score_span : Text → Text → ℕ → ℕ → ℕ
  unfolding tally class_before
  score_span pattern text start end =
      if ltb (length pattern * 8) (end - start)
      then 0
      else (elim (tally pattern true (take (end - start) (drop start text))
          (empty_tally (class_before text start))) [ none ↦ 0 | some t ↦ t.gained - t.lost ])

  unfoldable pub fzf_score : Text → Text → ℕ
  unfolding forward contract score_span
  fzf_score [] text = 0
  fzf_score (c ∷ pattern) text =
      if ltb (length text) (length (c ∷ pattern))
      then 0
      else (elim (forward (c ∷ pattern) text 0 none) [
        | none ↦ 0
        | some (start, end) ↦
            score_span (c ∷ pattern) text
              (contract (reverse (c ∷ pattern)) (reverse (take (end - start) (drop start text)))
                (end - 1) start)
              end
      ])
