-- ===== src/Search/Bounds.antt =====
-- frontend/src/lib/search.ts: how large a score can be.
use lunch_loxs.Prelude.{
  ℕ, ◌+◌, ◌*◌, ◌-◌, ◌≤◌, Bool, true, false, [], ◌∷◌, Option, none, some, Text, arith, if◌then◌else◌,
  Option-cases, inl, inr, length, take, drop,
}
use mathlib.Core.List.{reverse}
use lunch_loxs.Search.Score.{
  CharClass, word_bonus, bonus_for, Tally, count_match, count_gap, tally, score_span, fzf_score,
  char_class, empty_tally, class_before, forward, contract,
}

word_bonus-le : (prev cur : CharClass) → word_bonus prev cur ≤ 10
unfolding word_bonus
word_bonus-le prev cur = ground arith

bonus_for-le : (prev cur : CharClass) → bonus_for prev cur ≤ 10
unfolding bonus_for
bonus_for-le prev cur = ground (arith, word_bonus-le prev cur)

-- The bonus that a chunk passes on stays small.
abbrev IsSmall : Tally → Type 0
IsSmall t = t.first_bonus ≤ 10

abbrev extra : Bool → ℕ
extra first = if first then 10 else 0

count_match-le :
    (first : Bool) (cur : CharClass) (t : Tally)
    → IsSmall t
    → IsSmall (count_match first cur t)
      × ((count_match first cur t).gained ≤ t.gained + 26 + extra first)
unfolding count_match
count_match-le first cur t h = ground (arith, bonus_for-le t.prev_class cur)

-- What the tally of a span has gained at the end.
abbrev gain : Option Tally → ℕ
gain none = 0
gain (some t) = t.gained

tally-le :
    (lower : ℕ → Text) (pattern : Text) (first : Bool) (span : Text) (t : Tally)
    → IsSmall t
    → gain (tally lower pattern first span t) ≤ t.gained + 26 * length pattern + extra first
unfolding tally count_gap
tally-le lower [] first span t h = omega arith
tally-le lower (c ∷ pattern) first [] t h = omega arith
tally-le lower (c ∷ pattern) first (s ∷ span) t h =
    let next = count_match first (char_class s) t in
    ground (
      arith,
      count_match-le first (char_class s) t h,
      tally-le lower pattern false span next,
      tally-le lower (c ∷ pattern) first span (count_gap (char_class s) t),
    )

score_span-le :
    (lower : ℕ → Text) (pattern text : Text) (start end : ℕ)
    → score_span lower pattern text start end ≤ 26 * length pattern + 10
unfolding score_span
score_span-le lower pattern text start end =
    let span = take (end - start) (drop start text) in
    let t = empty_tally (class_before text start) in
    elim (Option-cases (tally lower pattern true span t)) [
      | inl e ↦ ground (arith, e)
      | inr (result, e) ↦ ground (arith, e, tally-le lower pattern true span t (omega arith))
    ]

-- A score is at most 26 for each character of the pattern, and 10 more.
pub fzf_score-le :
    (lower : ℕ → Text) (pattern text : Text)
    → fzf_score lower pattern text ≤ 26 * length pattern + 10
unfolding fzf_score
fzf_score-le lower [] text = omega arith
fzf_score-le lower (c ∷ pattern) text =
    elim (Option-cases (forward lower (c ∷ pattern) text 0 none)) [
      | inl e ↦ ground (arith, e)
      | inr ((start, end), e) ↦ ground (
        arith,
        e,
        score_span-le lower (c ∷ pattern) text
            (contract lower (reverse (c ∷ pattern)) (reverse (take (end - start) (drop start text)))
              (end - 1) start)
            end,
      )
    ]
