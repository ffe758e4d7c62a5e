-- ===== src/Tests/Written.antt =====
-- Concrete recipes, written as Markdown and read back.
use lunch_loxs.Prelude.{◌≡◌, refl, true, [], ◌∷◌, ◌++◌, none, some, Text, codes, ◌↔◌, lacks}
use lunch_loxs.Export.Table.{newline}
use lunch_loxs.Export.Markdown.{Recipe, quote, title_line, recipe_to_markdown}
use lunch_loxs.Export.FrontMatter.{plus, nothing, read_line}
use lunch_loxs.Export.Sections.{parse_recipe_markdown}
use lunch_loxs.Tests.Lower.{ascii_lower}
use lunch_loxs.Export.Titles.{title_kept_iff}

-- A title with an inch mark.
abbrev pie : Text
pie = codes "9" ++ quote ∷ codes " pie"

title_kept_iff_example :
    ((read_line (λ t. none) 0 (title_line pie) nothing).title ≡ some pie) ↔ (lacks quote pie ≡ true)
title_kept_iff_example = title_kept_iff (λ t. none) 0 pie nothing refl

abbrev sauce : Text
sauce = codes "Cook." ++ newline ∷ (codes "## Sauce" ++ newline ∷ codes "Stir.")

abbrev pub pasta : Recipe
pasta = record {
  title = codes "Pasta";
  tags = codes "quick" ∷ codes "hot" ∷ [];
  servings = 2;
  prep_minutes = 5;
  cook_minutes = 10;
  created_at = 7;
  updated_at = 8;
  description = codes "Good";
  ingredients = [];
  instructions = sauce;
  notes = [];
}

-- What follows a heading in the instructions is lost.
pasta_read :
    parse_recipe_markdown ascii_lower (λ t. some 3) 9 (recipe_to_markdown (λ n. codes "2026") pasta)
    ≡ some (record {
      title = some (codes "Pasta");
      tags = some (codes "quick" ∷ codes "hot" ∷ []);
      servings = some (plus 2);
      prep_minutes = some (plus 5);
      cook_minutes = some (plus 10);
      created_at = some 3;
      updated_at = some 3;
      description = some (codes "Good");
      ingredients = none;
      instructions = some (codes "Cook.");
      notes = none;
    })
unfolding parse_recipe_markdown recipe_to_markdown
pasta_read = refl
