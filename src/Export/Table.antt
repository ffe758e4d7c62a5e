-- ===== src/Export/Table.antt =====
-- frontend/src/lib/export.ts: buildIngredientTable and parseIngredientTable. An ingredient whose
-- field `optional` is absent is one where it is false.
use lunch_loxs.Prelude.{
  ℕ, zero, suc, ◌+◌, ◌-◌, max, Bool, true, false, not, ◌&&◌, ◌||◌, List, [], ◌∷◌, ◌++◌, map, Text,
  codes, split, join, trim, spaces, length, any, all, leb, ◌==◌, is_empty, is_space, starts_with,
  if◌then◌else◌,
}

pub record Ingredient : Type 0 where
  pub quantity : Text
  pub unit : Text
  pub item : Text
  pub optional : Bool

abbrev pub bar : ℕ
bar = b'|'

abbrev pub newline : ℕ
newline = 10

-- `s + " ".repeat(Math.max(0, w - s.length))`
unfoldable pub pad : Text → ℕ → Text
pad s w = s ++ spaces (w - length s)

-- `Math.max(least, ...ingredients.map((i) => f(i).length))`
unfoldable pub width : ℕ → (Ingredient → Text) → List Ingredient → ℕ
width least f [] = least
width least f (i ∷ is) = max (length (f i)) (width least f is)

abbrev pub dashes : ℕ → Text
dashes zero = []
dashes (suc n) = b'-' ∷ dashes n

-- `| a | b | c |`: each cell between blanks and bars.
unfoldable pub cells_text : List Text → Text
cells_text [] = []
cells_text (c ∷ cs) = b' ' ∷ (c ++ b' ' ∷ bar ∷ cells_text cs)

unfoldable pub row : List Text → Text
unfolding cells_text
row cs = bar ∷ cells_text cs

-- The three widths.
pub record Widths : Type 0 where
  pub qw : ℕ
  pub uw : ℕ
  pub iw : ℕ

unfoldable pub widths : List Ingredient → Widths
unfolding width
widths is = record {
  qw = width 3 (λ i. i.quantity) is;
  uw = width 4 (λ i. i.unit) is;
  iw = width 10 (λ i. i.item) is;
}

unfoldable pub plain_row : Widths → Text → Text → Text → Text
unfolding row pad
plain_row w q u i = row (pad q w.qw ∷ pad u w.uw ∷ pad i w.iw ∷ [])

unfoldable pub optional_row : Widths → Text → Text → Text → Text → Text
unfolding row pad
optional_row w q u i o = row (pad q w.qw ∷ pad u w.uw ∷ pad i w.iw ∷ pad o 8 ∷ [])

unfoldable pub row_of : Bool → Widths → Ingredient → Text
unfolding plain_row optional_row
row_of true w i = optional_row w i.quantity i.unit i.item (if i.optional then codes "yes" else [])
row_of false w i = plain_row w i.quantity i.unit i.item

unfoldable pub header : Bool → Widths → Text
unfolding plain_row optional_row
header true w = optional_row w (codes "Qty") (codes "Unit") (codes "Ingredient") (codes "Optional")
header false w = plain_row w (codes "Qty") (codes "Unit") (codes "Ingredient")

unfoldable pub separator : Bool → Widths → Text
unfolding row
separator true w = row (dashes w.qw ∷ dashes w.uw ∷ dashes w.iw ∷ dashes 8 ∷ [])
separator false w = row (dashes w.qw ∷ dashes w.uw ∷ dashes w.iw ∷ [])

unfoldable pub build_ingredient_table : List Ingredient → Text
unfolding row_of header separator widths join
build_ingredient_table [] = []
build_ingredient_table (i ∷ is) =
    let w = widths (i ∷ is) in
    let opt = any (λ j. j.optional) (i ∷ is) in
    join (newline ∷ []) (header opt w ∷ separator opt w ∷ map (row_of opt w) (i ∷ is))

-- An ASCII letter in lower case.
unfoldable pub fold_case : ℕ → ℕ
fold_case c = if leb b'A' c && leb c b'Z' then c + 32 else c

-- `/^word$/i`, for a word in lower case
unfoldable pub is_word : Text → Text → Bool
unfolding fold_case
is_word [] [] = true
is_word (a ∷ w) (c ∷ s) = a == fold_case c && is_word w s
is_word _ _ = false

-- All parts but the last.
unfoldable pub all_but_last : List Text → List Text
all_but_last [] = []
all_but_last (p ∷ []) = []
all_but_last (p ∷ q ∷ ps) = p ∷ all_but_last (q ∷ ps)

-- The parts of a line that stand between two bars.
unfoldable pub between_bars : Text → List Text
unfolding split all_but_last
between_bars line = elim (split bar line) [ [] ↦ [] | p ∷ ps ↦ all_but_last ps ]

-- `/\|\s*word\s*\|/i.test(line)`: a part between two bars is the word, up to white space
unfoldable pub has_column : Text → Text → Bool
unfolding between_bars trim is_word
has_column word line = any (λ part. is_word word (trim part)) (between_bars line)

-- `[\s-|]`
unfoldable pub is_rule : ℕ → Bool
unfolding is_space
is_rule c = is_space c || c == b'-' || c == bar

unfoldable pub ends_with_bar : Text → Bool
ends_with_bar [] = false
ends_with_bar (c ∷ []) = c == bar
ends_with_bar (c ∷ d ∷ s) = ends_with_bar (d ∷ s)

-- `/^\|[\s-|]+\|$/.test(line)`
unfoldable pub is_separator : Text → Bool
unfolding is_rule ends_with_bar
is_separator [] = false
is_separator (c ∷ s) = c == bar && all is_rule s && ends_with_bar s && leb 2 (length s)

unfoldable pub nonempty : List Text → List Text
nonempty [] = []
nonempty (s ∷ ss) = let rest = nonempty ss in if is_empty s then rest else s ∷ rest

unfoldable pub trim_all : List Text → List Text
unfolding trim
trim_all [] = []
trim_all (s ∷ ss) = trim s ∷ trim_all ss

-- `line.split("|").map((c) => c.trim()).filter(Boolean)`
unfoldable pub cells_of : Text → List Text
unfolding split trim_all nonempty
cells_of line = nonempty (trim_all (split bar line))

abbrev pub ingredient : Text → Text → Text → Bool → Ingredient
ingredient quantity unit item optional = record {
  quantity = quantity;
  unit = unit;
  item = item;
  optional = optional;
}

unfoldable pub is_yes : Text → Bool
unfolding is_word
is_yes s = is_word (codes "yes") s || is_word (codes "true") s || is_word (codes "optional") s

unfoldable pub ingredients_of_cells : Bool → List Text → List Ingredient
unfolding is_yes
ingredients_of_cells opt [] = []
ingredients_of_cells opt (i ∷ []) = ingredient [] [] i false ∷ []
ingredients_of_cells opt (q ∷ i ∷ []) = ingredient q [] i false ∷ []
ingredients_of_cells opt (q ∷ u ∷ i ∷ []) = ingredient q u i false ∷ []
ingredients_of_cells opt (q ∷ u ∷ i ∷ o ∷ cs) = ingredient q u i (opt && is_yes o) ∷ []

-- One round of the loop over the lines: the ingredients that it adds.
unfoldable pub ingredients_of_line : Bool → Text → List Ingredient
unfolding is_separator has_column cells_of ingredients_of_cells starts_with
ingredients_of_line opt line =
    if not (starts_with line (bar ∷ []))
    then []
    else if is_separator line
    then []
    else if has_column (codes "qty") line
    then []
    else ingredients_of_cells opt (cells_of line)

unfoldable pub ingredients_of_lines : Bool → List Text → List Ingredient
unfolding ingredients_of_line
ingredients_of_lines opt [] = []
ingredients_of_lines opt (l ∷ ls) = ingredients_of_line opt l ++ ingredients_of_lines opt ls

unfoldable pub parse_ingredient_table : Text → List Ingredient
unfolding split trim_all nonempty has_column ingredients_of_lines
parse_ingredient_table text =
    let lines = nonempty (trim_all (split newline text)) in
    let opt = any (has_column (codes "optional")) lines in ingredients_of_lines opt lines
