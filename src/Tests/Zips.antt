-- ===== src/Tests/Zips.antt =====
-- A book in a ZIP file.
use lunch_loxs.Prelude.{
  ℕ, ◌≡◌, refl, true, false, List, [], ◌∷◌, ◌++◌, some, Text, codes, map, length,
}
use lunch_loxs.Tests.Lower.{ascii_lower}
use lunch_loxs.Tests.Written.{pasta}
use lunch_loxs.Export.Markdown.{quote, recipe_to_markdown}
use lunch_loxs.Export.Yaml.{apostrophe, unescape, book_yaml, parse_yaml_string, parse-book_yaml}
use lunch_loxs.Export.Importing.{Entry, ImportedBook, import_from_zip}
use lunch_loxs.Export.Imported.{weigh_imported, weigh_entries, weigh-import_from_zip}

abbrev best : Text
best = codes "Tom's " ++ quote ∷ (codes "best" ++ quote ∷ [])

abbrev year : ℕ → Text
year n = codes "2026"

parse-book_yaml_example :
    parse_yaml_string (book_yaml year 0 best 1 ((codes "u1", codes "Ann") ∷ [])) (codes "name")
    ≡ some (unescape apostrophe best)
parse-book_yaml_example = parse-book_yaml year 0 best 1 ((codes "u1", codes "Ann") ∷ []) refl

-- Its text holds the name as it was.
best_unescaped : unescape apostrophe best ≡ best
unfolding unescape
best_unescaped = refl

abbrev soups_zip : List Entry
soups_zip =
    record { path = codes "Soups/"; is_dir = true; bytes = [] }
    ∷ record { path = codes "Soups/Soups.yaml"; is_dir = false; bytes = book_yaml year 0 best 1 [] }
    ∷ record {
      path = codes "Soups/Pasta.md";
      is_dir = false;
      bytes = recipe_to_markdown year pasta;
    }
    ∷ record { path = codes "Soups/notes.txt"; is_dir = false; bytes = codes "Salt" }
    ∷ record { path = codes "Soups/assets/ab.png"; is_dir = false; bytes = 137 ∷ [] }
    ∷ []

weigh-import_from_zip_example :
    weigh_imported (λ r. 1) (import_from_zip (λ t. t) ascii_lower (λ t. some 3) 9 soups_zip)
    ≡ weigh_entries (λ r. 1) (λ t. t) ascii_lower (λ t. some 3) 9 soups_zip
weigh-import_from_zip_example =
    weigh-import_from_zip (λ r. 1) (λ t. t) ascii_lower (λ t. some 3) 9 soups_zip

-- One book, under the name that its description gives.
one_book :
    (b : ImportedBook) × (import_from_zip (λ t. t) ascii_lower (λ t. some 3) 9 soups_zip ≡ b ∷ [])
    × (b.name ≡ best)
    × (length b.recipes ≡ 1)
    × (map (λ a. a.mime_type) b.assets ≡ codes "image/png" ∷ [])
unfolding import_from_zip recipe_to_markdown book_yaml
one_book = (_, refl, refl, refl, refl)
