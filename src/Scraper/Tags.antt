-- ===== src/Scraper/Tags.antt =====
-- frontend/src/lib/recipe-scraper.ts: the tags of a recipe.
use lunch_loxs.Prelude.{
  ◌≡◌, false, List, [], ◌∷◌, arith, Text, trim, split, is_empty, All, Bool-cases, inl, inr,
}
use lunch_loxs.Prelude.Sets
use lunch_loxs.Prelude.Sets.{TextSet, IsDistinct, add-IsDistinct}
use lunch_loxs.Scraper.Json.{
  Json, Items, null, boolean, number, text, array, object, nil, cons, add_tags, add_value,
  add_values, parse_tags,
}

-- No tag is empty, and none occurs twice.
abbrev AreTags : TextSet → Type 0
AreTags tags = All (λ t. is_empty t ≡ false) tags × IsDistinct tags

All-add :
    (t : Text) (tags : TextSet)
    → is_empty t ≡ false
    → All (λ u. is_empty u ≡ false) tags
    → All (λ u. is_empty u ≡ false) (Sets.add t tags)
unfolding Sets.add
All-add t [] n h = (n, tt)
All-add t (u ∷ tags) n (m, h) = ground (arith, n, m, h, All-add t tags n h)

module _ (lower : Text → Text) where
  add_tags-AreTags :
      (ts : List Text) (tags : TextSet) → AreTags tags → AreTags (add_tags lower ts tags)
  unfolding add_tags
  add_tags-AreTags [] tags h = h
  add_tags-AreTags (t ∷ ts) tags (h, d) = elim (Bool-cases (is_empty (lower (trim t)))) [
    | inl e ↦ rw e (add_tags-AreTags ts tags (h, d))
    | inr n ↦ rw n (
        add_tags-AreTags ts (Sets.add (lower (trim t)) tags)
          (All-add (lower (trim t)) tags n h, add-IsDistinct (lower (trim t)) tags d))
  ]

  mutual
    unfolding add_value

    value-AreTags : (j : Json) (tags : TextSet) → AreTags tags → AreTags (add_value lower j tags)
    value-AreTags (text s) tags h = add_tags-AreTags (split b',' s) tags h
    value-AreTags (array xs) tags h = values-AreTags xs tags h
    value-AreTags null tags h = h
    value-AreTags (boolean b) tags h = h
    value-AreTags (number n) tags h = h
    value-AreTags (object fs) tags h = h

    values-AreTags :
        (xs : Items) (tags : TextSet) → AreTags tags → AreTags (add_values lower xs tags)
    values-AreTags nil tags h = h
    values-AreTags (cons x xs) tags h =
        values-AreTags xs (add_value lower x tags) (value-AreTags x tags h)

-- Whatever the category and the keywords are, no tag is empty and none occurs twice.
pub parse_tags-AreTags :
    (lower : Text → Text) (category keywords : Json)
    → All (λ t. is_empty t ≡ false) (parse_tags lower category keywords)
      × IsDistinct (parse_tags lower category keywords)
unfolding parse_tags
parse_tags-AreTags lower category keywords =
    value-AreTags lower keywords (add_value lower category [])
      (value-AreTags lower category [] (tt, tt))
