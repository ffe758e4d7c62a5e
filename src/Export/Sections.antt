-- ===== src/Export/Sections.antt =====
-- frontend/src/lib/export.ts: the sections in parseRecipeMarkdown, and the whole. `lower` is
-- `toLowerCase`, `time_of` is `new Date(…).getTime()` (`none` is NaN), `now` is `Date.now()`.
use lunch_loxs.Prelude.{
  ℕ, zero, suc, Bool, true, false, ◌&&◌, List, [], ◌∷◌, Option, none, some, Text, codes, split,
  trim, is_empty, starts_with, includes, drop, if◌then◌else◌, text_eq,
}
use lunch_loxs.Export.Table.{Ingredient, ingredient, newline, parse_ingredient_table}
use lunch_loxs.Export.FrontMatter.{
  Parsed, nothing, is_line_end, unix_lines, cut_at, cut_frontmatter, read_lines,
}

abbrev pub push_char : ℕ → List Text → List Text
push_char c [] = (c ∷ []) ∷ []
push_char c (s ∷ ss) = (c ∷ s) ∷ ss

-- `body.split(/^## /m)`; `skip`: the characters of a heading's mark that are left.
unfoldable pub split_sections : ℕ → Bool → Text → List Text
unfolding starts_with
split_sections skip at_start [] = [] ∷ []
split_sections (suc n) at_start (c ∷ s) = split_sections n false s
split_sections zero at_start (c ∷ s) =
    let next = split_sections zero (is_line_end c) s in
    let marked = split_sections 2 false s in
    if at_start && starts_with (c ∷ s) (codes "## ") then [] ∷ marked else push_char c next

unfoldable pub list_items : List Text → List Ingredient
unfolding starts_with trim
list_items [] = []
list_items (l ∷ ls) =
    if starts_with l (codes "- ")
    then ingredient [] [] (trim (drop 2 l)) false ∷ list_items ls
    else list_items ls

module _ (lower : Text → Text) where
  unfoldable pub read_section : Text → Parsed → Parsed
  unfolding cut_at trim text_eq includes parse_ingredient_table list_items split
  read_section section m = elim (cut_at (newline ∷ []) section) [
    | none ↦ m
    | some (first, rest) ↦
        let heading = lower (trim first) in
        let body = trim rest in
        if text_eq heading (codes "ingredients")
        then record m {
          ingredients = some (
              if includes body (b'|' ∷ [])
              then parse_ingredient_table body
              else list_items (split newline body));
        }
        else if text_eq heading (codes "instructions")
        then record m { instructions = some body }
        else if text_eq heading (codes "notes")
        then record m { notes = some body }
        else m
  ]

  unfoldable pub read_sections : List Text → Parsed → Parsed
  unfolding read_section
  read_sections [] m = m
  read_sections (s ∷ ss) m = read_sections ss (read_section s m)

  -- The text before the first heading is the description.
  unfoldable pub read_body : List Text → Parsed → Parsed
  unfolding read_sections trim
  read_body [] m = m
  read_body (s ∷ ss) m =
      let t = trim s in
      read_sections ss (if is_empty t then m else record m { description = some t })

  unfoldable pub parse_recipe_markdown : (Text → Option ℕ) → ℕ → Text → Option Parsed
  unfolding unix_lines cut_frontmatter read_lines read_body split_sections split
  parse_recipe_markdown time_of now md = elim (cut_frontmatter (unix_lines md)) [
    | none ↦ none
    | some (front, body) ↦ some (
        read_body (split_sections zero true body)
          (read_lines time_of now (split newline front) nothing))
  ]
