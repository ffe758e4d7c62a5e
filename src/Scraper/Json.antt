-- ===== src/Scraper/Json.antt =====
-- frontend/src/lib/recipe-scraper.ts: what it reads from the JSON-LD of a page. A parsed JSON value
-- is a tree; the keys of an object are different from one another, as JSON.parse leaves them.
-- `to_string` is `String`, `lower` is `toLowerCase`.
use lunch_loxs.Prelude.{
  ℕ, Bool, true, false, not, ◌||◌, List, [], ◌∷◌, Option, none, some, Text, codes, text_eq, trim,
  split, is_empty, if◌then◌else◌,
}
use lunch_loxs.Prelude.Sets
use lunch_loxs.Prelude.Sets.{TextSet}

mutual
  pub data Json : Type 0 where
    null : Json
    boolean : Bool → Json
    number : ℕ → Json
    text : Text → Json
    array : Items → Json
    object : Fields → Json

  pub data Items : Type 0 where
    nil : Items
    cons : Json → Items → Items

  pub data Fields : Type 0 where
    end : Fields
    field : Text → Json → Fields → Fields

-- `data[key]`, where `null` stands for undefined too
unfoldable pub member : Text → Fields → Json
member key end = null
member key (field k v fs) = if text_eq k key then v else member key fs

-- `items.includes(s)`
unfoldable pub includes_text : Text → Items → Bool
includes_text s nil = false
includes_text s (cons (text t) xs) = text_eq t s || includes_text s xs
includes_text s (cons x xs) = includes_text s xs

unfoldable pub is_recipe_type : Json → Bool
unfolding includes_text
is_recipe_type (text t) = text_eq t (codes "Recipe")
is_recipe_type (array xs) = includes_text (codes "Recipe") xs
is_recipe_type _ = false

-- `data["@type"]` is "Recipe", or holds it
unfoldable pub is_recipe : Fields → Bool
unfolding member is_recipe_type
is_recipe fs = is_recipe_type (member (codes "@type") fs)

abbrev pub graph_key : Text
graph_key = codes "@graph"

unfoldable mutual
  unfolding is_recipe text_eq

  pub find_recipe : Json → Option Json
  find_recipe (object fs) =
      let found = find_graph fs in if is_recipe fs then some (object fs) else found
  find_recipe (array xs) = find_items xs
  find_recipe _ = none

  -- The loop over `data["@graph"]`, when that is an array.
  pub find_graph : Fields → Option Json
  find_graph end = none
  find_graph (field k v fs) =
      let rest = find_graph fs in
      let here = find_listed v in if text_eq k graph_key then here else rest

  pub find_listed : Json → Option Json
  find_listed (array xs) = find_items xs
  find_listed _ = none

  -- The loop over an array.
  pub find_items : Items → Option Json
  find_items nil = none
  find_items (cons x xs) =
      let rest = find_items xs in elim (find_recipe x) [ some r ↦ some r | none ↦ rest ]

-- `val.split(/,\s*/)`, up to white space at the ends of the parts, which `trim` takes away
unfoldable pub add_tags : (Text → Text) → List Text → TextSet → TextSet
unfolding trim Sets.add
add_tags lower [] tags = tags
add_tags lower (t ∷ ts) tags =
    let trimmed = lower (trim t) in
    add_tags lower ts (if is_empty trimmed then tags else Sets.add trimmed tags)

unfoldable mutual
  unfolding add_tags split

  pub add_value : (Text → Text) → Json → TextSet → TextSet
  add_value lower (text s) tags = add_tags lower (split b',' s) tags
  add_value lower (array xs) tags = add_values lower xs tags
  add_value lower _ tags = tags

  pub add_values : (Text → Text) → Items → TextSet → TextSet
  add_values lower nil tags = tags
  add_values lower (cons x xs) tags = add_values lower xs (add_value lower x tags)

unfoldable pub parse_tags : (Text → Text) → Json → Json → TextSet
parse_tags lower category keywords = add_value lower keywords (add_value lower category [])

-- Whether a value counts as true.
unfoldable pub is_truthy : Json → Bool
is_truthy null = false
is_truthy (boolean b) = b
is_truthy (number ℕ.zero) = false
is_truthy (number (ℕ.suc n)) = true
is_truthy (text s) = not (is_empty s)
is_truthy _ = true

module _ (to_string : Json → Text) where
  -- `item?.url`, as text
  unfoldable pub url_of : Json → Option Text
  unfolding member is_truthy
  url_of (object fs) =
      let url = member (codes "url") fs in if is_truthy url then some (to_string url) else none
  url_of _ = none

  unfoldable pub first_image : Items → Option Text
  unfolding url_of
  first_image nil = none
  first_image (cons (text s) xs) = some s
  first_image (cons x xs) =
      let rest = first_image xs in elim (url_of x) [ some u ↦ some u | none ↦ rest ]

  -- `none` stands for undefined
  unfoldable pub extract_step_image_url : Json → Option Text
  unfolding first_image url_of
  extract_step_image_url (text s) = if is_empty s then none else some s
  extract_step_image_url (array xs) = first_image xs
  extract_step_image_url (object fs) = url_of (object fs)
  extract_step_image_url _ = none

  unfoldable pub image_list : Items → List Text
  unfolding url_of
  image_list nil = []
  image_list (cons (text s) xs) = s ∷ image_list xs
  image_list (cons x xs) =
      let rest = image_list xs in elim (url_of x) [ some u ↦ u ∷ rest | none ↦ rest ]

  unfoldable pub parse_image_urls : Json → List Text
  unfolding image_list url_of
  parse_image_urls (text s) = if is_empty s then [] else s ∷ []
  parse_image_urls (array xs) = image_list xs
  parse_image_urls (object fs) = elim (url_of (object fs)) [ some u ↦ u ∷ [] | none ↦ [] ]
  parse_image_urls _ = []
