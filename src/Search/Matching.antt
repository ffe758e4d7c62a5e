-- ===== src/Search/Matching.antt =====
-- frontend/src/lib/search.ts: the forward pass against the subsequence relation.
use lunch_loxs.Prelude.{
  ℕ, suc, ◌<◌, ◌≡◌, ◌↔◌, refl, true, [], ◌∷◌, Option, none, some, Text, arith, if◌then◌else◌,
  Bool-cases, inl, inr, is_some,
}
use lunch_loxs.Search.Score.{same_char, forward, fzf_score}

module _ (lower : ℕ → Text) where
  -- The pattern's characters stand in the text in this order, whatever their case.
  pub data IsSubsequence : Text → Text → Type 0 where
    done : (text : Text) → IsSubsequence [] text
    hit :
        {c t : ℕ} {pattern text : Text}
        → same_char lower t c ≡ true
        → IsSubsequence pattern text
        → IsSubsequence (c ∷ pattern) (t ∷ text)
    skip :
        {t : ℕ} {pattern text : Text}
        → IsSubsequence pattern text
        → IsSubsequence pattern (t ∷ text)

  IsSubsequence-tail :
      {c : ℕ} {pattern text : Text} → IsSubsequence (c ∷ pattern) text → IsSubsequence pattern text
  IsSubsequence-tail (hit e s) = skip s
  IsSubsequence-tail (skip s) = skip (IsSubsequence-tail s)

  forward_sound :
      (pattern text : Text) (ti : ℕ) (start : Option ℕ)
      → is_some (forward lower pattern text ti start) ≡ true
      → IsSubsequence pattern text
  unfolding forward
  forward_sound [] text ti start h = done text
  forward_sound (c ∷ pattern) [] ti start h = cc
  forward_sound (c ∷ pattern) (t ∷ text) ti start h = elim (Bool-cases (same_char lower t c)) [
    | inl e ↦ hit e (forward_sound pattern text (suc ti) _ (rw (e, forward) at h))
    | inr e ↦ skip (forward_sound (c ∷ pattern) text (suc ti) _ (rw (e, forward) at h))
  ]

  forward_complete :
      (pattern text : Text) (ti : ℕ) (start : Option ℕ)
      → IsSubsequence pattern text
      → is_some (forward lower pattern text ti start) ≡ true
  unfolding forward
  forward_complete [] text ti start s = refl
  forward_complete (c ∷ pattern) [] ti start s = elim s [ ]
  forward_complete (c ∷ pattern) (t ∷ text) ti start (hit e s) = ground (
    arith,
    e,
    forward_complete pattern text (suc ti) (if is_some start then start else some ti) s,
  )
  forward_complete (c ∷ pattern) (t ∷ text) ti start (skip s) = ground (
    arith,
    forward_complete pattern text (suc ti) (if is_some start then start else some ti)
        (IsSubsequence-tail s),
    forward_complete (c ∷ pattern) text (suc ti) start s,
  )

-- The forward pass, greedy as it is, finds the pattern exactly if the pattern is a subsequence of
-- the text.
pub forward_iff :
    (lower : ℕ → Text) (pattern text : Text) (ti : ℕ) (start : Option ℕ)
    → (is_some (forward lower pattern text ti start) ≡ true) ↔ IsSubsequence lower pattern text
forward_iff lower pattern text ti start =
    (forward_sound lower pattern text ti start, forward_complete lower pattern text ti start)

-- A text with a positive score contains the pattern as a subsequence.
pub fzf_score_pos :
    (lower : ℕ → Text) (pattern text : Text)
    → 0 < fzf_score lower pattern text
    → IsSubsequence lower pattern text
unfolding fzf_score
fzf_score_pos lower [] text h = done text
fzf_score_pos lower (c ∷ pattern) text h =
    forward_sound lower (c ∷ pattern) text 0 none (ground (arith, h))
