-- ===== src/Tests/Pages.antt =====
-- Concrete runs on JSON-LD.
use lunch_loxs.Prelude.{
  ◌≡◌, ◌⊎◌, refl, false, [], ◌∷◌, none, some, Text, codes, All, is_empty, text_eq, ◌++◌,
  starts_with, join,
}
use lunch_loxs.Prelude.Sets.{IsDistinct}
use lunch_loxs.Scraper.Json.{
  Json, text, array, object, nil, cons, end, field, find_recipe, parse_tags, add_value,
}
use lunch_loxs.Export.Table.{fold_case}
use lunch_loxs.Scraper.Instructions.{strip_html, normalize_instructions}
use lunch_loxs.Scraper.Reached.{Reaches, find_recipe_cases}
use lunch_loxs.Scraper.Tags.{parse_tags-AreTags}
use lunch_loxs.Tests.Lower.{ascii_lower}

abbrev recipe_node : Json
recipe_node = object (field (codes "@type") (text (codes "Recipe")) end)

-- A page whose graph holds an organisation and a recipe.
abbrev page : Json
page = object (
    field (codes "@graph")
      (array (
        cons (object (field (codes "@type") (text (codes "Organization")) end))
          (cons recipe_node nil)))
      end)

page_found : find_recipe page ≡ some recipe_node
unfolding find_recipe text_eq
page_found = refl

find_recipe_cases_example :
    ((r : Json) × (find_recipe page ≡ some r) × Reaches page r)
    ⊎ ((find_recipe page ≡ none) × (¬ ((r : Json) × Reaches page r)))
find_recipe_cases_example = find_recipe_cases page

abbrev category : Json
category = array (cons (text (codes "Soup, vegan")) (cons (text (codes "soup")) nil))

two_tags :
    parse_tags ascii_lower category (text (codes "Vegan,")) ≡ codes "soup" ∷ codes "vegan" ∷ []
unfolding parse_tags text_eq add_value fold_case
two_tags = refl

parse_tags-AreTags_example :
    All (λ t. is_empty t ≡ false) (parse_tags ascii_lower category (text (codes "Vegan,")))
    × IsDistinct (parse_tags ascii_lower category (text (codes "Vegan,")))
parse_tags-AreTags_example = parse_tags-AreTags ascii_lower category (text (codes "Vegan,"))

-- An escaped entity is decoded twice.
decoded_twice :
    strip_html (codes "Mix 1 &amp;lt; 2<br/>cups") ≡ codes "Mix 1 < 2" ++ 10 ∷ codes "cups"
unfolding strip_html starts_with fold_case
decoded_twice = refl

abbrev as_text : Json → Text
as_text (text s) = s
as_text j = []

abbrev how_to : Json
how_to = array (
    cons (text (codes "<p>Chop.</p>")) (
      cons
        (object (
          field (codes "text") (text (codes "Fry."))
            (field (codes "image") (text (codes "u.png")) end)))
        nil))

two_steps : normalize_instructions as_text how_to ≡ (
  join (10 ∷ []) (codes "1. Chop." ∷ codes "2. Fry." ∷ codes "![](u.png)" ∷ []),
  codes "u.png" ∷ [],
)
unfolding normalize_instructions strip_html join text_eq starts_with fold_case
two_steps = refl
