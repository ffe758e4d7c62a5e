-- ===== src/Scraper/Parsed.antt =====
-- frontend/src/lib/recipe-scraper.ts: what the text of an ingredient is read as.
use lunch_loxs.Prelude.{
  Bool, any, codes, text_eq, ◌≡◌, ◌⊎◌, refl, false, List, [], ◌∷◌, ◌++◌, some, arith, Text, trim,
  is_empty, Option-cases, inl, inr, if◌then◌else◌,
}
use lunch_loxs.Units.{canonical_unit_name}
use lunch_loxs.Units.Names.{FixesPlain, canonical_unit_name_idem}
use lunch_loxs.Scraper.{
  two_word_unit, one_word_unit, words, drop_last_period, read_unit, parse_ingredient_string,
  quantity_of, drop_of, normalize_unicode_fractions,
}

module _ (lower : Text → Text) (fixes : FixesPlain lower) where
  -- A unit is none, or its own canonical name.
  abbrev IsUnit : Text → Type 0
  IsUnit u = (u ≡ []) ⊎ (canonical_unit_name lower u ≡ some u)

  two_word_lem :
      (ws : List Text) (u rest : Text)
      → two_word_unit lower ws ≡ some (u, rest)
      → canonical_unit_name lower u ≡ some u
  unfolding two_word_unit
  two_word_lem [] u rest e = cc
  two_word_lem (a ∷ []) u rest e = cc
  two_word_lem (a ∷ b ∷ ws) u rest e =
      elim (Option-cases (canonical_unit_name lower (a ++ b' ' ∷ b))) [
        | inl f ↦ ground (arith, e, f)
        | inr (c, f) ↦
            ground (arith, e, f, canonical_unit_name_idem lower (a ++ b' ' ∷ b) c fixes f)
      ]

  one_word_lem :
      (ws : List Text) (u rest : Text)
      → one_word_unit lower ws ≡ some (u, rest)
      → canonical_unit_name lower u ≡ some u
  unfolding one_word_unit
  one_word_lem [] u rest e = cc
  one_word_lem (a ∷ ws) u rest e =
      elim (Option-cases (canonical_unit_name lower (drop_last_period a))) [
        | inl f ↦ ground (arith, e, f)
        | inr (c, f) ↦
            ground (arith, e, f, canonical_unit_name_idem lower (drop_last_period a) c fixes f)
      ]

  read_unit-IsUnit : (s : Text) → IsUnit (read_unit lower s).0
  unfolding read_unit
  read_unit-IsUnit s = elim (Option-cases (two_word_unit lower (words s))) [
    | inl e ↦ elim (Option-cases (one_word_unit lower (words s))) [
      | inl f ↦ inl (rw (read_unit, e, f) refl)
      | inr ((u, rest), f) ↦ inr (rw (read_unit, e, f) (one_word_lem (words s) u rest f))
    ]
    | inr ((u, rest), e) ↦ inr (rw (read_unit, e) (two_word_lem (words s) u rest e))
  ]

item_or : (item raw : Text) → (is_empty (if is_empty item then raw else item) ≡ false) ⊎ (raw ≡ [])
item_or [] [] = inr refl
item_or [] (c ∷ s) = inl refl
item_or (c ∷ s) raw = inl refl

-- What every JavaScript object has: as keys of the table of aliases, these are found though the
-- table does not list them.
abbrev object_properties : List Text
object_properties =
    codes "constructor"
    ∷ codes "__proto__"
    ∷ codes "__defineGetter__"
    ∷ codes "__defineSetter__"
    ∷ codes "__lookupGetter__"
    ∷ codes "__lookupSetter__"
    ∷ codes "hasOwnProperty"
    ∷ codes "isPrototypeOf"
    ∷ codes "propertyIsEnumerable"
    ∷ codes "toLocaleString"
    ∷ codes "toString"
    ∷ codes "valueOf"
    ∷ []

-- The keys that are looked up for the words behind the quantity.
abbrev keys_of : (Text → Text) → List Text → List Text
keys_of lower [] = []
keys_of lower (a ∷ []) = lower (trim (drop_last_period a)) ∷ []
keys_of lower (a ∷ b ∷ ws) = lower (trim (a ++ b' ' ∷ b)) ∷ lower (trim (drop_last_period a)) ∷ []

-- One of the words that may be the unit is a property of every object.
unfoldable pub names_property : (Text → Text) → Text → Bool
unfolding words quantity_of trim normalize_unicode_fractions drop_last_period text_eq
names_property lower raw =
    any (λ k. any (text_eq k) object_properties)
      (keys_of lower (words (quantity_of (trim (normalize_unicode_fractions raw))).1))

-- The text of an ingredient in which no word that may be the unit is a property of every JavaScript
-- object is read with a unit that is empty or its own canonical name, and with an item that is not
-- empty unless the text is blank.
pub parse_ingredient_string_lem :
    (lower : Text → Text) (raw : Text)
    → FixesPlain lower
    → names_property lower raw ≡ false
    → ((parse_ingredient_string lower raw).unit ≡ []
        ⊎ (canonical_unit_name lower (parse_ingredient_string lower raw).unit
            ≡ some (parse_ingredient_string lower raw).unit))
      × ((is_empty (parse_ingredient_string lower raw).item ≡ false) ⊎ (trim raw ≡ []))
unfolding parse_ingredient_string
parse_ingredient_string_lem lower raw fixes own = (
  read_unit-IsUnit lower fixes (quantity_of (trim (normalize_unicode_fractions raw))).1,
  item_or
      (trim (drop_of (read_unit lower (quantity_of (trim (normalize_unicode_fractions raw))).1).1))
      (trim raw),
)
