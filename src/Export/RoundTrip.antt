-- ===== src/Export/RoundTrip.antt =====
-- frontend/src/lib/export.ts: reading back a table of ingredients.
use lunch_loxs.Prelude.{
  ◌≡◌, refl, ◌∙◌, ap, Bool, true, false, List, [], ◌∷◌, map, arith, Text, codes, split, split-join,
  join, trim, lacks, any, all, All, Bool-cases, inl, inr,
}
use lunch_loxs.Export.Table.{
  Ingredient, Widths, newline, row_of, header, separator, widths, build_ingredient_table,
  parse_ingredient_table, has_column, nonempty, trim_all, ingredients_of_lines,
}
use lunch_loxs.Export.Cells.{is_tabular, plain_line, optional_line}
use lunch_loxs.Export.Header.{
  IsLine, row_of-IsLine, header-IsLine, header_optional, header_line, separator-IsLine,
  separator_line,
}

lines_lem : (ts : List Text) → All IsLine ts → nonempty (trim_all ts) ≡ ts
unfolding nonempty trim_all
lines_lem [] h = refl
lines_lem (t ∷ ts) ((l, e, n), hs) = ground (arith, e, n, lines_lem ts hs)

All-lacks : (ts : List Text) → All IsLine ts → All (λ t. lacks newline t ≡ true) ts
All-lacks [] h = tt
All-lacks (t ∷ ts) (h, hs) = (h.0, All-lacks ts hs)

-- Reading lines that were joined.
parse-join :
    (t : Text) (ts : List Text)
    → All IsLine (t ∷ ts)
    → parse_ingredient_table (join (newline ∷ []) (t ∷ ts))
      ≡ ingredients_of_lines (any (has_column (codes "optional")) (t ∷ ts)) (t ∷ ts)
unfolding parse_ingredient_table
parse-join t ts h =
    ap (λ lines. ingredients_of_lines (any (has_column (codes "optional")) lines) lines)
      (ap (λ parts. nonempty (trim_all parts)) (split-join newline t ts (All-lacks (t ∷ ts) h))
        ∙ lines_lem (t ∷ ts) h)

rows-IsLine :
    (opt : Bool) (w : Widths) (is : List Ingredient)
    → all is_tabular is ≡ true
    → All IsLine (map (row_of opt w) is)
rows-IsLine opt w [] h = tt
rows-IsLine opt w (i ∷ is) h =
    (row_of-IsLine opt w i (ground (arith, h)), rows-IsLine opt w is (ground (arith, h)))

plain_lines :
    (o : Bool) (w : Widths) (is : List Ingredient)
    → all is_tabular is ≡ true
    → any (λ i. i.optional) is ≡ false
    → ingredients_of_lines o (map (row_of false w) is) ≡ is
unfolding ingredients_of_lines
plain_lines o w [] h n = refl
plain_lines o w (i ∷ is) h n =
    rw (plain_line o w i (ground (arith, h)) (ground (arith, n)))
      (ap (λ js. i ∷ js) (plain_lines o w is (ground (arith, h)) (ground (arith, n))))

optional_lines :
    (w : Widths) (is : List Ingredient)
    → all is_tabular is ≡ true
    → ingredients_of_lines true (map (row_of true w) is) ≡ is
unfolding ingredients_of_lines
optional_lines w [] h = refl
optional_lines w (i ∷ is) h =
    rw (optional_line w i (ground (arith, h)))
      (ap (λ js. i ∷ js) (optional_lines w is (ground (arith, h))))

abbrev table : Bool → List Ingredient → List Text
table opt is = let w = widths is in header opt w ∷ separator opt w ∷ map (row_of opt w) is

table-IsLine :
    (opt : Bool) (is : List Ingredient) → all is_tabular is ≡ true → All IsLine (table opt is)
table-IsLine opt is h =
    let w = widths is in (header-IsLine opt w, (separator-IsLine opt w, rows-IsLine opt w is h))

parse-table :
    (opt o : Bool) (is : List Ingredient)
    → ingredients_of_lines o (table opt is)
      ≡ ingredients_of_lines o (map (row_of opt (widths is)) is)
unfolding ingredients_of_lines
parse-table opt o is = rw (header_line o opt (widths is), separator_line o opt (widths is)) refl

build_table :
    (i : Ingredient) (is : List Ingredient) (opt : Bool)
    → any (λ j. j.optional) (i ∷ is) ≡ opt
    → build_ingredient_table (i ∷ is) ≡ join (newline ∷ []) (table opt (i ∷ is))
unfolding build_ingredient_table
build_table i is opt e = ap (λ b. join (newline ∷ []) (table b (i ∷ is))) e

-- What reading a table comes to.
reads :
    (opt : Bool) (i : Ingredient) (is : List Ingredient)
    → all is_tabular (i ∷ is) ≡ true
    → any (λ j. j.optional) (i ∷ is) ≡ opt
    → parse_ingredient_table (build_ingredient_table (i ∷ is))
      ≡ ingredients_of_lines
          (any (has_column (codes "optional")) (table opt (i ∷ is)))
          (map (row_of opt (widths (i ∷ is))) (i ∷ is))
reads opt i is h e =
    let w = widths (i ∷ is) in
    let rest = separator opt w ∷ map (row_of opt w) (i ∷ is) in
    ap parse_ingredient_table (build_table i is opt e)
    ∙ parse-join (header opt w) rest (table-IsLine opt (i ∷ is) h)
    ∙ parse-table opt (any (has_column (codes "optional")) (table opt (i ∷ is))) (i ∷ is)

has_optional : (is : List Ingredient) → any (has_column (codes "optional")) (table true is) ≡ true
has_optional is = rw (header_optional (widths is)) refl

-- A table that is written and read back gives the ingredients again, the marks of the optional ones
-- included, when no cell has white space at its ends, a bar or a line break or is the word of the
-- first column, no name is all of dashes, blanks and bars (so none is empty), an ingredient without
-- a quantity has no unit, and an optional one has both.
pub parse-build :
    (is : List Ingredient)
    → all is_tabular is ≡ true
    → parse_ingredient_table (build_ingredient_table is) ≡ is
unfolding build_ingredient_table parse_ingredient_table split trim_all nonempty trim
parse-build [] h = refl
parse-build (i ∷ is) h =
    let w = widths (i ∷ is) in
    elim (Bool-cases (any (λ j. j.optional) (i ∷ is))) [
      | inl e ↦
          reads true i is h e
          ∙ ap (λ o. ingredients_of_lines o (map (row_of true w) (i ∷ is))) (has_optional (i ∷ is))
          ∙ optional_lines w (i ∷ is) h
      | inr e ↦
          reads false i is h e
          ∙ plain_lines (any (has_column (codes "optional")) (table false (i ∷ is))) w (i ∷ is) h e
    ]
