-- ===== src/Scraper/Reached.antt =====
-- frontend/src/lib/recipe-scraper.ts: where the search for a recipe looks.
use lunch_loxs.Prelude.{
  ◌≡◌, ◌⊎◌, refl, ap, subst, true, none, some, arith, text_eq, is_some, Bool-cases, Option-cases,
  inl, inr, if◌then◌else◌,
}
use lunch_loxs.Scraper.Json.{
  Json, text, array, object, Items, nil, cons, Fields, end, field, is_recipe, graph_key,
  find_recipe, find_graph, find_listed, find_items, null, boolean, number, member,
}

mutual
  -- The second value is a recipe that stands in the first: itself, in its graph, or in the array.
  pub data Reaches : Json → Json → Type 0 where
    here : (fs : Fields) → is_recipe fs ≡ true → Reaches (object fs) (object fs)
    in_graph :
        (fs : Fields) (xs : Items) (r : Json)
        → member graph_key fs ≡ array xs
        → ReachesItem xs r
        → Reaches (object fs) r
    in_array : (xs : Items) (r : Json) → ReachesItem xs r → Reaches (array xs) r

  pub data ReachesItem : Items → Json → Type 0 where
    first : (x : Json) (xs : Items) (r : Json) → Reaches x r → ReachesItem (cons x xs) r
    later : (x : Json) (xs : Items) (r : Json) → ReachesItem xs r → ReachesItem (cons x xs) r

find_graph-member : (fs : Fields) → find_graph fs ≡ find_listed (member graph_key fs)
unfolding find_recipe member
find_graph-member end = refl
find_graph-member (field k v fs) = ground (arith, find_graph-member fs)

found_recipe :
    (fs : Fields)
    → find_recipe (object fs)
      ≡ (if is_recipe fs then some (object fs) else find_listed (member graph_key fs))
unfolding find_recipe
found_recipe fs = ground (arith, find_graph-member fs)

found_items :
    (x : Json) (xs : Items)
    → find_items (cons x xs) ≡ elim (find_recipe x) [ some r ↦ some r | none ↦ find_items xs ]
unfolding find_recipe
found_items x xs = refl

mutual
  unfolding find_recipe member

  sound : (j r : Json) → find_recipe j ≡ some r → Reaches j r
  sound (object fs) r e = elim (Bool-cases (is_recipe fs)) [
    | inl h ↦ subst (Reaches (object fs)) (ground (arith, e, h)) (here fs h)
    | inr n ↦ let (xs, f, m) = sound_graph fs r (ground (arith, e, n)) in in_graph fs xs r f m
  ]
  sound (array xs) r e = in_array xs r (sound_items xs r e)
  sound null r e = cc
  sound (boolean b) r e = cc
  sound (number n) r e = cc
  sound (text t) r e = cc

  sound_graph :
      (fs : Fields) (r : Json)
      → find_graph fs ≡ some r
      → (xs : Items) × (member graph_key fs ≡ array xs) × ReachesItem xs r
  sound_graph end r e = cc
  sound_graph (field k v fs) r e = elim (Bool-cases (text_eq k graph_key)) [
    | inl h ↦
        let (xs, f, m) = sound_listed v r (ground (arith, e, h)) in (xs, ground (arith, h, f), m)
    | inr n ↦
        let (xs, f, m) = sound_graph fs r (ground (arith, e, n)) in (xs, ground (arith, n, f), m)
  ]

  sound_listed :
      (v r : Json) → find_listed v ≡ some r → (xs : Items) × (v ≡ array xs) × ReachesItem xs r
  sound_listed (array xs) r e = (xs, refl, sound_items xs r e)
  sound_listed (object fs) r e = cc
  sound_listed null r e = cc
  sound_listed (boolean b) r e = cc
  sound_listed (number n) r e = cc
  sound_listed (text t) r e = cc

  sound_items : (xs : Items) (r : Json) → find_items xs ≡ some r → ReachesItem xs r
  sound_items nil r e = cc
  sound_items (cons x xs) r e = elim (Option-cases (find_recipe x)) [
    | inl n ↦ later x xs r (sound_items xs r (ground (arith, e, n)))
    | inr (s, f) ↦ first x xs r (sound x r (ground (arith, e, f)))
  ]

mutual
  unfolding find_recipe member

  complete : (j r : Json) → Reaches j r → is_some (find_recipe j) ≡ true
  complete (object fs) r (here _ h) = rw (found_recipe fs) (rw h refl)
  complete (object fs) r (in_graph _ xs _ e m) = elim (Bool-cases (is_recipe fs)) [
    | inl h ↦ ground (arith, found_recipe fs, h)
    | inr n ↦ ground (arith, find_graph-member fs, n, ap find_listed e, complete_items xs r m)
  ]
  complete null r m = elim m [ ]
  complete (boolean b) r m = elim m [ ]
  complete (number n) r m = elim m [ ]
  complete (text t) r m = elim m [ ]
  complete (array xs) r (in_array _ _ m) = complete_items xs r m

  complete_items : (xs : Items) (r : Json) → ReachesItem xs r → is_some (find_items xs) ≡ true
  complete_items nil r m = elim m [ ]
  complete_items (cons x xs) r (first _ _ _ m) = ground (arith, complete x r m)
  complete_items (cons x xs) r (later _ _ _ m) = elim (Option-cases (find_recipe x)) [
    | inl n ↦ ground (arith, n, complete_items xs r m)
    | inr (s, f) ↦ ground (arith, f)
  ]

-- The search either finds a recipe that the value has (itself, in its graph, or in the array that it
-- is, at any depth), or it finds nothing and the value has none.
pub find_recipe_cases :
    (j : Json)
    → ((r : Json) × (find_recipe j ≡ some r) × Reaches j r)
      ⊎ ((find_recipe j ≡ none) × (¬ ((r : Json) × Reaches j r)))
find_recipe_cases j = elim (Option-cases (find_recipe j)) [
  | inl n ↦ inr (n, λ (r, m). absurd (ground (arith, n, complete j r m)))
  | inr (r, e) ↦ inl (r, e, sound j r e)
]
