-- ===== src/Export/Importing.antt =====
-- frontend/src/lib/export.ts: importFromZip. The entries are those of `zip.files` in their order,
-- each with its bytes; `decode` is `async("string")`. The other parameters are those of
-- parseRecipeMarkdown.
use lunch_loxs.Prelude.{
  map, ℕ, ◌-◌, Bool, not, ◌&&◌, ◌||◌, List, [], ◌∷◌, ◌++◌, Option, none, some, Text, codes, split,
  join, length, leb, ◌==◌, is_empty, drop, text_eq, or_default, if◌then◌else◌,
}
use lunch_loxs.Prelude.Maps
use lunch_loxs.Export.Table.{all_but_last}
use lunch_loxs.Export.Names.{ext_to_mime}
use lunch_loxs.Export.FrontMatter.{Parsed}
use lunch_loxs.Export.Sections.{parse_recipe_markdown}
use lunch_loxs.Export.Yaml.{parse_yaml_string}

pub record Entry : Type 0 where
  pub path : Text
  pub is_dir : Bool
  pub bytes : List ℕ

pub record ImportedAsset : Type 0 where
  pub checksum : Text
  pub bytes : List ℕ
  pub mime_type : Text
  pub filename : Text

pub record ImportedBook : Type 0 where
  pub name : Text
  pub recipes : List Parsed
  pub assets : List ImportedAsset

abbrev pub Books : Type 0
Books = List (Text × ImportedBook)

-- `s.endsWith(p)`
unfoldable pub ends_with : Text → Text → Bool
unfolding text_eq
ends_with s p = leb (length p) (length s) && text_eq (drop (length s - length p) s) p

abbrev pub last_part : List Text → Text
last_part [] = []
last_part (p ∷ []) = p
last_part (p ∷ q ∷ ps) = last_part (q ∷ ps)

-- The first part of several.
abbrev pub first_part : List Text → Text
first_part [] = []
first_part (p ∷ []) = []
first_part (p ∷ q ∷ ps) = p

abbrev pub slash : ℕ
slash = b'/'

-- The parts before the last one, joined: the empty text where there is one part only.
unfoldable pub folder_of : List Text → Text
unfolding join all_but_last
folder_of parts = join (slash ∷ []) (all_but_last parts)

-- `ensureBook`, and what is done to the book that it returns.
unfoldable pub with_book : Text → Text → (ImportedBook → ImportedBook) → Books → Books
unfolding text_eq
with_book folder name f [] = (folder, f (record { name = name; recipes = []; assets = [] })) ∷ []
with_book folder name f ((j, b) ∷ books) =
    if text_eq j folder then (j, f b) ∷ books else (j, b) ∷ with_book folder name f books

abbrev pub push_recipe : Parsed → ImportedBook → ImportedBook
push_recipe r b = record b { recipes = b.recipes ++ r ∷ [] }

abbrev pub push_asset : ImportedAsset → ImportedBook → ImportedBook
push_asset a b = record b { assets = b.assets ++ a ∷ [] }

-- The parts before the first `assets`, and the one part behind it.
unfoldable pub asset_parts : List Text → Option (List Text × Text)
unfolding text_eq
asset_parts [] = none
asset_parts (p ∷ []) = none
asset_parts (p ∷ q ∷ ps) =
    let rest = asset_parts (q ∷ ps) in
    if text_eq p (codes "assets")
    then if is_empty ps then some ([], q) else none
    else elim rest [ none ↦ none | some (a, f) ↦ some (p ∷ a, f) ]

-- The text before the last `c`, and behind it.
unfoldable pub cut_last : ℕ → Text → Option (Text × Text)
cut_last c [] = none
cut_last c (d ∷ s) = elim (cut_last c s) [
  | some (a, b) ↦ some (d ∷ a, b)
  | none ↦ if d == c then some ([], s) else none
]

-- A file name's checksum and extension.
unfoldable pub checksum_ext : Text → Text × Text
unfolding cut_last
checksum_ext f = elim (cut_last b'.' f) [
  | none ↦ (f, [])
  | some (a, b) ↦ if is_empty a then (f, []) else (a, b)
]

module _ (decode : List ℕ → Text) (lower : Text → Text) (time_of : Text → Option ℕ) (now : ℕ) where
  -- The name that an entry gives to its folder.
  unfoldable pub folder_name : Entry → Option Text
  unfolding ends_with split parse_yaml_string
  folder_name e =
      let parts = split slash e.path in
      if not e.is_dir && ends_with (last_part parts) (codes ".yaml") && leb 2 (length parts)
      then elim (parse_yaml_string (decode e.bytes) (codes "name")) [
        | none ↦ none
        | some n ↦ if is_empty n then none else some n
      ]
      else none

  unfoldable pub read_names : List Entry → List (Text × Text) → List (Text × Text)
  unfolding folder_name folder_of split Maps.set
  read_names [] names = names
  read_names (e ∷ es) names = elim (folder_name e) [
    | none ↦ read_names es names
    | some n ↦ read_names es (Maps.set (folder_of (split slash e.path)) n names)
  ]

  unfoldable pub recipe_of : Entry → Option Parsed
  unfolding ends_with parse_recipe_markdown
  recipe_of e =
      if e.is_dir || not (ends_with e.path (codes ".md"))
      then none
      else parse_recipe_markdown lower time_of now (decode e.bytes)

  unfoldable pub read_recipes : List (Text × Text) → List Entry → Books → Books
  unfolding recipe_of folder_of split with_book Maps.get
  read_recipes names [] books = books
  read_recipes names (e ∷ es) books = elim (recipe_of e) [
    | none ↦ read_recipes names es books
    | some r ↦
        let parts = split slash e.path in
        let folder = folder_of parts in
        read_recipes names es (
          with_book folder (or_default (Maps.get folder names) (first_part parts)) (push_recipe r)
            books)
  ]

  -- The folder of the book that an attachment belongs to, and the attachment.
  unfoldable pub asset_of : Entry → Option (Text × ImportedAsset)
  unfolding asset_parts split join checksum_ext ext_to_mime
  asset_of e = if e.is_dir then none else elim (asset_parts (split slash e.path)) [
    | none ↦ none
    | some (above, f) ↦ some (
      join (slash ∷ []) above,
      record {
        checksum = (checksum_ext f).0;
        bytes = e.bytes;
        mime_type = ext_to_mime lower (checksum_ext f).1;
        filename = f;
      },
    )
  ]

  unfoldable pub read_assets : List Entry → Books → Books
  unfolding asset_of with_book
  read_assets [] books = books
  read_assets (e ∷ es) books = elim (asset_of e) [
    | none ↦ read_assets es books
    | some (folder, a) ↦ read_assets es (with_book folder [] (push_asset a) books)
  ]

  unfoldable pub read_books : List Entry → Books
  unfolding read_assets read_recipes read_names
  read_books es = read_assets es (read_recipes (read_names es []) es [])

  unfoldable pub import_from_zip : List Entry → List ImportedBook
  unfolding read_books
  import_from_zip es = map (λ b. b.1) (read_books es)
