-- ===== src/Export/Markdown.antt =====
-- frontend/src/lib/export.ts: recipeToMarkdown. `iso` is `toISOString` of a time. A recipe has all
-- its fields, and its numbers are whole.
use lunch_loxs.Prelude.{
  ℕ, List, [], ◌∷◌, ◌++◌, map, Text, codes, join, trim, decimal, ◌==◌, is_empty, if◌then◌else◌,
}
use lunch_loxs.Export.Table.{Ingredient, newline, build_ingredient_table}

pub record Recipe : Type 0 where
  pub title : Text
  pub tags : List Text
  pub servings : ℕ
  pub prep_minutes : ℕ
  pub cook_minutes : ℕ
  pub created_at : ℕ
  pub updated_at : ℕ
  pub description : Text
  pub ingredients : List Ingredient
  pub instructions : Text
  pub notes : Text

abbrev pub quote : ℕ
quote = 34

abbrev pub backslash : ℕ
backslash = 92

-- `s.replace(/"/g, '\\"')`
unfoldable pub escape_quotes : Text → Text
escape_quotes [] = []
escape_quotes (c ∷ s) =
    let rest = escape_quotes s in if c == quote then backslash ∷ quote ∷ rest else c ∷ rest

unfoldable pub quoted : Text → Text
unfolding escape_quotes
quoted s = quote ∷ (escape_quotes s ++ quote ∷ [])

unfoldable pub title_line : Text → Text
unfolding quoted
title_line t = codes "title: " ++ quoted t

unfoldable pub frontmatter : (ℕ → Text) → Recipe → Text
unfolding title_line quoted decimal join
frontmatter iso r = join (newline ∷ []) (
    codes "---"
    ∷ title_line r.title
    ∷ (codes "tags: [" ++ join (codes ", ") (map quoted r.tags) ++ codes "]")
    ∷ (codes "servings: " ++ decimal r.servings)
    ∷ (codes "prepMinutes: " ++ decimal r.prep_minutes)
    ∷ (codes "cookMinutes: " ++ decimal r.cook_minutes)
    ∷ (codes "createdAt: " ++ iso r.created_at)
    ∷ (codes "updatedAt: " ++ iso r.updated_at)
    ∷ codes "---"
    ∷ [])

-- A section that is left out when its text is empty.
unfoldable pub text_section : Text → Text → List Text
text_section heading t = if is_empty t then [] else heading ∷ [] ∷ t ∷ [] ∷ []

unfoldable pub recipe_to_markdown : (ℕ → Text) → Recipe → Text
unfolding frontmatter text_section build_ingredient_table trim join
recipe_to_markdown iso r = join (newline ∷ []) (
    (frontmatter iso r ∷ [] ∷ [])
    ++ ((if is_empty r.description then [] else r.description ∷ [] ∷ [])
        ++ ((if is_empty r.ingredients
              then []
              else codes "## Ingredients" ∷ [] ∷ build_ingredient_table r.ingredients ∷ [] ∷ [])
            ++ (text_section (codes "## Instructions") (trim r.instructions)
                ++ text_section (codes "## Notes") (trim r.notes)))))
