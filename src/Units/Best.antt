-- ===== src/Units/Best.antt =====
-- frontend/src/lib/units.ts: which unit a conversion picks.
use lunch_loxs.Prelude.{
  ◌⊎◌, sym, subst, ◌∙◌, All-at, ◌≡◌, refl, true, false, List, [], ◌∷◌, arith, All, Bool-cases, inl,
  inr,
}
use mathlib.Core.List.{Memᴰ}
use mathlib.Core.List.Memᴰ.{head, tail, cast}
use lunch_loxs.Units.{Candidate, is_enough, prefer, prefer_all, choose}
use lunch_loxs.Units.Fractions.{Fraction, over, is_lt, is_lt_trans}

module _ (base : Fraction) where
  abbrev pub value : Candidate → Fraction
  value c = over base c.to_base

  -- If a candidate is enough, then so is the best one, and it is not larger.
  abbrev pub Beats : Candidate → Candidate → Type 0
  Beats best c =
      is_enough (value c) ≡ true
      → (is_enough (value best) ≡ true) × (is_lt (value c) (value best) ≡ false)

  prefer-Beats : (best new c : Candidate) → Beats best c → Beats (prefer base best new) c
  unfolding prefer
  prefer-Beats best new c h enough =
      let (b, le) = h enough in
      elim (Bool-cases (is_lt (value new) (value best))) [
        | inl less ↦ ground (arith, b, le, is_lt_trans (value new) (value best) (value c) less le)
        | inr more ↦ ground (arith, b, le, more)
      ]

  is_lt_irrefl : (v : Fraction) → is_lt v v ≡ false
  unfolding is_lt
  is_lt_irrefl v = ground arith

  prefer-Beats_new : (best new : Candidate) → Beats (prefer base best new) new
  unfolding prefer
  prefer-Beats_new best new enough = ground (arith, enough, is_lt_irrefl (value new))

  prefer_all-Beats :
      (cs : List Candidate) (best c : Candidate) → Beats best c → Beats (prefer_all base best cs) c
  unfolding prefer_all
  prefer_all-Beats [] best c h = h
  prefer_all-Beats (new ∷ cs) best c h =
      prefer_all-Beats cs (prefer base best new) c (prefer-Beats best new c h)

  prefer_all-All :
      (cs : List Candidate) (best : Candidate) → All (Beats (prefer_all base best cs)) cs
  unfolding prefer_all
  prefer_all-All [] best = tt
  prefer_all-All (new ∷ cs) best = (
    prefer_all-Beats cs (prefer base best new) new (prefer-Beats_new best new),
    prefer_all-All cs (prefer base best new),
  )

  prefer-cases : (best c : Candidate) → (prefer base best c ≡ best) ⊎ (prefer base best c ≡ c)
  unfolding prefer
  prefer-cases best c = ground arith

  prefer_all-mem :
      (best : Candidate) (cs : List Candidate)
      → (prefer_all base best cs ≡ best) ⊎ Memᴰ (prefer_all base best cs) cs
  unfolding prefer_all prefer
  prefer_all-mem best [] = inl refl
  prefer_all-mem best (c ∷ cs) = elim (prefer_all-mem (prefer base best c) cs) [
    | inl e ↦ elim (prefer-cases best c) [
      | inl same ↦ inl (e ∙ same)
      | inr new ↦ inr (head (e ∙ new))
    ]
    | inr m ↦ inr (tail m)
  ]

  Beats-not_enough :
      (best first : Candidate) (cs : List Candidate)
      → is_enough (value best) ≡ false
      → All (Beats best) cs
      → All (Beats first) cs
  Beats-not_enough best first [] n h = tt
  Beats-not_enough best first (c ∷ cs) n (b, h) =
      (λ e. ground (arith, n, b e), Beats-not_enough best first cs n h)

  abbrev best_of : Candidate → List Candidate → Candidate
  best_of first cs = prefer_all base first (first ∷ cs)

  choose_enough :
      (first : Candidate) (cs : List Candidate)
      → is_enough (value (best_of first cs)) ≡ true
      → choose base first cs ≡ best_of first cs
  unfolding choose
  choose_enough first cs e = rw e refl

  choose_not_enough :
      (first : Candidate) (cs : List Candidate)
      → is_enough (value (best_of first cs)) ≡ false
      → choose base first cs ≡ first
  unfolding choose
  choose_not_enough first cs e = rw e refl

  choose-All :
      (first : Candidate) (cs : List Candidate) → All (Beats (choose base first cs)) (first ∷ cs)
  choose-All first cs =
      let beats = prefer_all-All (first ∷ cs) first in
      elim (Bool-cases (is_enough (value (best_of first cs)))) [
        | inl e ↦ subst (λ b. All (Beats b) (first ∷ cs)) (sym (choose_enough first cs e)) beats
        | inr n ↦
            subst (λ b. All (Beats b) (first ∷ cs)) (sym (choose_not_enough first cs n))
              (Beats-not_enough (best_of first cs) first (first ∷ cs) n beats)
      ]

  choose-mem : (first : Candidate) (cs : List Candidate) → Memᴰ (choose base first cs) (first ∷ cs)
  choose-mem first cs = elim (Bool-cases (is_enough (value (best_of first cs)))) [
    | inl e ↦ elim (prefer_all-mem first (first ∷ cs)) [
      | inl same ↦ head (choose_enough first cs e ∙ same)
      | inr m ↦ cast (choose_enough first cs e) m
    ]
    | inr n ↦ head (choose_not_enough first cs n)
  ]

-- When a preferred unit gives a quantity of at least 0.75, then the unit picked gives one too, and
-- it is not larger than that of the preferred unit; the unit picked is a preferred one itself.
pub choose_smallest :
    (base : Fraction) (first c : Candidate) (cs : List Candidate)
    → Memᴰ c (first ∷ cs)
    → is_enough (value base c) ≡ true
    → Memᴰ (choose base first cs) (first ∷ cs)
      × (is_enough (value base (choose base first cs)) ≡ true)
      × (is_lt (value base c) (value base (choose base first cs)) ≡ false)
choose_smallest base first c cs m enough =
    let best = choose base first cs in
    let beats = All-at (Beats base best) c (first ∷ cs) (choose-All base first cs) m enough in
    (choose-mem base first cs, beats.0, beats.1)
