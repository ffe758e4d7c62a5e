-- ===== src/Export/Distinct.antt =====
-- frontend/src/lib/export.ts: the loop that looks for a file name that is not taken.
use lunch_loxs.Prelude.{
  ℕ, zero, suc, ◌+◌, ◌≤◌, ◌<◌, ◌≡◌, refl, sym, ap, ◌∙◌, true, false, List, [], ◌∷◌, ◌++◌, map, none,
  some, arith, Text, text_eq_iff, length, all, All, Bool-cases, Option-cases, inl, inr,
  append-injective, decimal, decimal-injective, all-decimal, is_digit,
}
use lunch_loxs.Prelude.Sets
use lunch_loxs.Prelude.Sets.{TextSet, IsDistinct, has-add, has-remove}
use lunch_loxs.Export.Names.{sanitize_filename, numbered, next_name, unique_name, file_names}

-- `toLowerCase` leaves digits behind a blank as they are.
abbrev pub KeepsDigits : (Text → Text) → Type 0
KeepsDigits lower =
    (s d : Text) → all is_digit d ≡ true → lower (s ++ b' ' ∷ d) ≡ lower (s ++ b' ' ∷ []) ++ d

module _ (lower : Text → Text) (keeps : KeepsDigits lower) where
  numbered-injective :
      (base : Text) (m n : ℕ) → lower (numbered base m) ≡ lower (numbered base n) → m ≡ n
  numbered-injective base m n e =
      let em = keeps base (decimal m) (all-decimal m) in
      let en = keeps base (decimal n) (all-decimal n) in
      decimal-injective m n
        (append-injective (lower (base ++ b' ' ∷ [])) (decimal m) (decimal n) (sym em ∙ e ∙ en))

  length-remove : (k : Text) (s : TextSet) → length (Sets.remove k s) ≤ length s
  unfolding Sets.remove
  length-remove k [] = omega arith
  length-remove k (j ∷ s) = ground (arith, length-remove k s)

  length-remove_lt :
      (k : Text) (s : TextSet) → Sets.has k s ≡ true → length (Sets.remove k s) < length s
  unfolding Sets.remove Sets.has
  length-remove_lt k [] h = ground (arith, h)
  length-remove_lt k (j ∷ s) h = ground (arith, h, length-remove k s, length-remove_lt k s)

  -- A name that is not tried any more may as well not be taken.
  next_name-remove :
      (fuel : ℕ) (base : Text) (c d : ℕ) (used : TextSet)
      → c < d
      → next_name lower fuel base d (Sets.remove (lower (numbered base c)) used)
        ≡ next_name lower fuel base d used
  unfolding next_name
  next_name-remove zero base c d used h = refl
  next_name-remove (suc fuel) base c d used h = ground (
    arith,
    has-remove (lower (numbered base c)) (lower (numbered base d)) used,
    text_eq_iff (lower (numbered base c)) (lower (numbered base d)),
    numbered-injective base c d,
    next_name-remove fuel base c (suc d) used,
  )

  next_name_fuel :
      (fuel : ℕ) (base : Text) (c : ℕ) (used : TextSet)
      → next_name lower fuel base c used ≡ none
      → fuel ≤ length used
  unfolding next_name
  next_name_fuel zero base c used h = omega arith
  next_name_fuel (suc fuel) base c used h =
      let taken = lower (numbered base c) in
      ground (
        arith,
        h,
        length-remove_lt taken used,
        next_name-remove fuel base c (suc c) used,
        next_name_fuel fuel base (suc c) (Sets.remove taken used),
      )

  next_name_free :
      (fuel : ℕ) (base name : Text) (c : ℕ) (used : TextSet)
      → next_name lower fuel base c used ≡ some name
      → Sets.has (lower name) used ≡ false
  unfolding next_name
  next_name_free zero base name c used h = cc
  next_name_free (suc fuel) base name c used h =
      elim (Bool-cases (Sets.has (lower (numbered base c)) used)) [
        | inl t ↦ ground (arith, h, t, next_name_free fuel base name (suc c) used)
        | inr f ↦ ground (arith, h, f)
      ]

  unique_name_free :
      (fuel : ℕ) (base name : Text) (used : TextSet)
      → unique_name lower fuel base used ≡ some name
      → Sets.has (lower name) used ≡ false
  unfolding unique_name
  unique_name_free fuel base name used h = elim (Bool-cases (Sets.has (lower base) used)) [
    | inl t ↦ ground (arith, h, t, next_name_free fuel base name 1 used)
    | inr f ↦ ground (arith, h, f)
  ]

  unique_name_fuel :
      (fuel : ℕ) (base : Text) (used : TextSet)
      → unique_name lower fuel base used ≡ none
      → fuel ≤ length used
  unfolding unique_name
  unique_name_fuel fuel base used h = ground (arith, h, next_name_fuel fuel base 1 used)

  length-add : (k : Text) (s : TextSet) → length (Sets.add k s) ≤ suc (length s)
  unfolding Sets.add
  length-add k [] = omega arith
  length-add k (j ∷ s) = ground (arith, length-add k s)

  -- Names that are free, in lower case, and different from one another.
  abbrev AreFresh : List Text → TextSet → Type 0
  AreFresh names used =
      All (λ n. Sets.has (lower n) used ≡ false) names × IsDistinct (map lower names)

  fresh_tail :
      (k : Text) (names : List Text) (used : TextSet)
      → All (λ n. Sets.has (lower n) (Sets.add k used) ≡ false) names
      → All (λ n. Sets.has (lower n) used ≡ false) names × (Sets.has k (map lower names) ≡ false)
  unfolding Sets.has
  fresh_tail k [] used h = (tt, refl)
  fresh_tail k (n ∷ names) used (h, hs) =
      let (rest, free) = fresh_tail k names used hs in
      (
        (ground (arith, has-add k (lower n) used, h), rest),
        ground (
          arith,
          has-add k (lower n) used,
          h,
          text_eq_iff k (lower n),
          text_eq_iff (lower n) k,
          free,
        ),
      )

  file_names_cons :
      (fuel : ℕ) (title name : Text) (titles names : List Text) (used : TextSet)
      → unique_name lower fuel (sanitize_filename title) used ≡ some name
      → file_names lower fuel titles (Sets.add (lower name) used) ≡ some names
      → file_names lower fuel (title ∷ titles) used ≡ some (name ∷ names)
  unfolding file_names
  file_names_cons fuel title name titles names used e f = rw (file_names, e, f) refl

  file_names-AreFresh :
      (fuel : ℕ) (titles : List Text) (used : TextSet)
      → length used + length titles < fuel
      → (names : List Text) × (file_names lower fuel titles used ≡ some names)
        × (length names ≡ length titles)
        × AreFresh names used
  unfolding file_names
  file_names-AreFresh fuel [] used h = ([], refl, refl, (tt, tt))
  file_names-AreFresh fuel (title ∷ titles) used h =
      elim (Option-cases (unique_name lower fuel (sanitize_filename title) used)) [
        | inl e ↦ absurd (omega (arith, h, unique_name_fuel fuel (sanitize_filename title) used e))
        | inr (name, e) ↦
            let enough : length (Sets.add (lower name) used) + length titles < fuel =
              omega (arith, h, length-add (lower name) used) in
            let (names, f, l, (free, distinct)) =
              file_names-AreFresh fuel titles (Sets.add (lower name) used) enough in
            let (rest, new) = fresh_tail (lower name) names used free in
            (
              name ∷ names,
              file_names_cons fuel title name titles names used e f,
              ap suc l,
              (
                (unique_name_free fuel (sanitize_filename title) name used e, rest),
                (new, distinct),
              ),
            )
      ]

-- The search for free file names ends for every list of titles, when one more round than there are
-- titles is allowed to each; there is a name for each title, and no two names are the same in lower
-- case.
pub file_names_total :
    (lower : Text → Text) (titles : List Text)
    → KeepsDigits lower
    → (names : List Text) × (file_names lower (suc (length titles)) titles [] ≡ some names)
      × (length names ≡ length titles)
      × IsDistinct (map lower names)
file_names_total lower titles keeps =
    let (names, e, l, (_, distinct)) =
      file_names-AreFresh lower keeps (suc (length titles)) titles [] (omega arith) in
    (names, e, l, distinct)
