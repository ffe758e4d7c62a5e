-- ===== src/Export/Imported.antt =====
-- frontend/src/lib/export.ts: which recipes and attachments importFromZip returns.
use lunch_loxs.Prelude.{
  map, ℕ, ◌+◌, ◌≡◌, refl, List, [], ◌∷◌, ◌++◌, Option, none, some, arith, Text, split, or_default,
  Option-cases, inl, inr,
}
use lunch_loxs.Prelude.Maps
use lunch_loxs.Export.FrontMatter.{Parsed}
use lunch_loxs.Export.Importing.{
  Entry, ImportedAsset, ImportedBook, Books, slash, folder_of, with_book, push_recipe, push_asset,
  asset_of, recipe_of, first_part, read_names, read_recipes, read_assets, import_from_zip,
}

module _ (f : Parsed → ℕ) where
  pub weigh : List Parsed → ℕ
  weigh [] = 0
  weigh (r ∷ rs) = f r + weigh rs

  weigh_books : Books → ℕ
  unfolding weigh
  weigh_books [] = 0
  weigh_books ((j, b) ∷ books) = weigh b.recipes + weigh_books books

  pub weigh_imported : List ImportedBook → ℕ
  unfolding weigh
  weigh_imported [] = 0
  weigh_imported (b ∷ bs) = weigh b.recipes + weigh_imported bs

  weigh-values : (books : Books) → weigh_imported (map (λ b. b.1) books) ≡ weigh_books books
  unfolding weigh_imported weigh_books
  weigh-values [] = refl
  weigh-values ((j, b) ∷ books) = ground (arith, weigh-values books)

  weigh-snoc : (rs : List Parsed) (r : Parsed) → weigh (rs ++ r ∷ []) ≡ f r + weigh rs
  unfolding weigh
  weigh-snoc [] r = omega arith
  weigh-snoc (q ∷ rs) r = ground (arith, weigh-snoc rs r)

  weigh-push_recipe :
      (folder name : Text) (r : Parsed) (books : Books)
      → weigh_books (with_book folder name (push_recipe r) books) ≡ f r + weigh_books books
  unfolding weigh_books with_book weigh
  weigh-push_recipe folder name r [] = omega arith
  weigh-push_recipe folder name r ((j, b) ∷ books) =
      ground (arith, weigh-snoc b.recipes r, weigh-push_recipe folder name r books)

  weigh-push_asset :
      (folder name : Text) (a : ImportedAsset) (books : Books)
      → weigh_books (with_book folder name (push_asset a) books) ≡ weigh_books books
  unfolding weigh_books with_book weigh
  weigh-push_asset folder name a [] = refl
  weigh-push_asset folder name a ((j, b) ∷ books) =
      ground (arith, weigh-push_asset folder name a books)

  module _ (decode : List ℕ → Text) (lower : Text → Text) (time_of : Text → Option ℕ)
      (now : ℕ) where
    -- The recipes among the entries.
    pub weigh_entries : List Entry → ℕ
    unfolding recipe_of
    weigh_entries [] = 0
    weigh_entries (e ∷ es) = elim (recipe_of decode lower time_of now e) [
      | none ↦ weigh_entries es
      | some r ↦ f r + weigh_entries es
    ]

    weigh-read_assets :
        (es : List Entry) (books : Books)
        → weigh_books (read_assets decode lower time_of now es books) ≡ weigh_books books
    unfolding read_assets
    weigh-read_assets [] books = refl
    weigh-read_assets (e ∷ es) books = elim (Option-cases (asset_of decode lower time_of now e)) [
      | inl n ↦ ground (arith, n, weigh-read_assets es books)
      | inr ((folder, a), n) ↦
          let rest = with_book folder [] (push_asset a) books in
          ground (arith, n, weigh-read_assets es rest, weigh-push_asset folder [] a books)
    ]

    weigh-read_recipes :
        (names : List (Text × Text)) (es : List Entry) (books : Books)
        → weigh_books (read_recipes decode lower time_of now names es books)
          ≡ weigh_entries es + weigh_books books
    unfolding read_recipes weigh_entries
    weigh-read_recipes names [] books = omega arith
    weigh-read_recipes names (e ∷ es) books =
        elim (Option-cases (recipe_of decode lower time_of now e)) [
          | inl n ↦ ground (arith, n, weigh-read_recipes names es books)
          | inr (r, n) ↦
              let folder = folder_of (split slash e.path) in
              let name = or_default (Maps.get folder names) (first_part (split slash e.path)) in
              ground (
                arith,
                n,
                weigh-read_recipes names es (with_book folder name (push_recipe r) books),
                weigh-push_recipe folder name r books,
              )
        ]

    -- Under any weight of recipes, the books that are imported weigh what the recipe files of the
    -- ZIP do that can be read: no recipe is lost, doubled or changed.
    pub weigh-import_from_zip :
        (es : List Entry)
        → weigh_imported (import_from_zip decode lower time_of now es) ≡ weigh_entries es
    unfolding import_from_zip weigh_books weigh_entries
    weigh-import_from_zip es =
        let books =
          read_recipes decode lower time_of now (read_names decode lower time_of now es []) es [] in
        omega (
          arith,
          weigh-values (read_assets decode lower time_of now es books),
          weigh-read_assets es books,
          weigh-read_recipes (read_names decode lower time_of now es []) es [],
        )
