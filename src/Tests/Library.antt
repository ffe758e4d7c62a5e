-- ===== src/Tests/Library.antt =====
-- Concrete runs of the parts that work on texts.
use lunch_loxs.Prelude.{
  ◌≡◌, ◌⊎◌, refl, true, false, List, [], ◌∷◌, some, Text, codes, map, length, all, trim, decimal,
  is_empty, text_eq,
}
use lunch_loxs.Prelude.Maps
use lunch_loxs.Prelude.Sets.{IsDistinct}
use lunch_loxs.Units.{canonical_unit_name, alias_of}
use lunch_loxs.Export.Table.{
  Ingredient, ingredient, fold_case, build_ingredient_table, parse_ingredient_table, is_word,
  is_rule,
}
use lunch_loxs.Export.Cells.{is_tabular}
use lunch_loxs.Export.RoundTrip.{parse-build}
use lunch_loxs.Export.Names.{file_names}
use lunch_loxs.Export.Distinct.{file_names_total}
use lunch_loxs.Scraper.{parse_ingredient_string}
use lunch_loxs.Scraper.Parsed.{names_property, parse_ingredient_string_lem}
use lunch_loxs.Tests.Lower.{ascii_lower, ascii_lower_plain, ascii_lower_keeps}

abbrev rows : List Ingredient
rows =
    ingredient (codes "2 1/4") (codes "cup") (codes "all-purpose flour") false
    ∷ ingredient (codes "3") [] (codes "eggs") false
    ∷ ingredient [] [] (codes "pepper") false
    ∷ ingredient (codes "1") (codes "pinch") (codes "salt") true
    ∷ []

rows_tabular : all is_tabular rows ≡ true
unfolding is_tabular trim is_word is_rule text_eq
rows_tabular = refl

parse-build_example : parse_ingredient_table (build_ingredient_table rows) ≡ rows
parse-build_example = parse-build rows rows_tabular

-- An optional ingredient without a unit is read back with its name as the unit.
abbrev eggs : List Ingredient
eggs = ingredient (codes "2") [] (codes "eggs") true ∷ []

eggs_shifted :
    parse_ingredient_table (build_ingredient_table eggs)
    ≡ ingredient (codes "2") (codes "eggs") (codes "yes") false ∷ []
unfolding parse_ingredient_table build_ingredient_table
eggs_shifted = refl

abbrev soups : List Text
soups = codes "Soup" ∷ codes "soup?" ∷ codes "Soup" ∷ []

file_names_total_example :
    (names : List Text) × (file_names ascii_lower 4 soups [] ≡ some names)
    × (length names ≡ 3)
    × IsDistinct (map ascii_lower names)
file_names_total_example = file_names_total ascii_lower soups ascii_lower_keeps

three_files :
    file_names ascii_lower 4 soups [] ≡ some (codes "Soup" ∷ codes "soup 1" ∷ codes "Soup 2" ∷ [])
unfolding file_names decimal text_eq fold_case
three_files = refl

flour_own : names_property ascii_lower (codes "2 Cups of flour") ≡ false
unfolding names_property fold_case
flour_own = refl

parse_ingredient_string_lem_example :
    ((parse_ingredient_string ascii_lower (codes "2 Cups of flour")).unit ≡ []
      ⊎ (canonical_unit_name ascii_lower
            (parse_ingredient_string ascii_lower (codes "2 Cups of flour")).unit
          ≡ some (parse_ingredient_string ascii_lower (codes "2 Cups of flour")).unit))
    × ((is_empty (parse_ingredient_string ascii_lower (codes "2 Cups of flour")).item ≡ false)
        ⊎ (trim (codes "2 Cups of flour") ≡ []))
parse_ingredient_string_lem_example =
    parse_ingredient_string_lem ascii_lower (codes "2 Cups of flour") ascii_lower_plain flour_own

constructor_named : names_property ascii_lower (codes "1 constructor") ≡ true
unfolding names_property fold_case
constructor_named = refl

-- Two and a half, with the fraction as one character, is read as 21 halves.
two_and_a_half :
    parse_ingredient_string ascii_lower (b'2' ∷ 0xbd ∷ codes " cups flour")
    ≡ record { quantity = codes "21/2"; unit = codes "cup"; item = codes "flour" }
unfolding parse_ingredient_string alias_of Maps.get canonical_unit_name Maps.set text_eq fold_case
two_and_a_half = refl
