-- ===== src/Export/Header.antt =====
-- frontend/src/lib/export.ts: the lines above the rows of the table.
use lunch_loxs.Prelude.{
  ℕ, zero, suc, ◌≡◌, refl, sym, subst, ◌∙◌, ap, Bool, true, false, List, [], ◌∷◌, arith, Text,
  codes, trim, trim_end, drop_spaces, lacks, all, All, is_empty, is_space, ◌==◌,
}
use lunch_loxs.Export.Table.{
  Ingredient, Widths, bar, newline, pad, dashes, row, row_of, header, separator, is_word,
  has_column, is_rule, is_separator, ingredients_of_line, plain_row, optional_row, fold_case,
}
use lunch_loxs.Export.Rows.{
  LackBar, has_column-row, all_cells, all-cells, ends_with_bar-cells, trim-row, lacks-row,
  row_nonempty, length-cells,
}
use lunch_loxs.Export.Cells.{trim-pad, lacks-pad, is_tabular, IsCell, is_tabular→, mark, mark_facts}

-- A line that reading the table finds again.
abbrev pub IsLine : Text → Type 0
IsLine t = (lacks newline t ≡ true) × (trim t ≡ t) × (is_empty t ≡ false)

pub row-IsLine : (cs : List Text) → All (λ c. lacks newline c ≡ true) cs → IsLine (row cs)
row-IsLine cs h = (lacks-row newline cs refl refl h, trim-row cs, row_nonempty cs)

pub newline_cell : (s : Text) (w : ℕ) → IsCell s → lacks newline (pad s w) ≡ true
newline_cell s w h = lacks-pad newline s w refl h.2

pub row_of-IsLine :
    (opt : Bool) (w : Widths) (i : Ingredient) → is_tabular i ≡ true → IsLine (row_of opt w i)
unfolding row_of plain_row optional_row
row_of-IsLine true w i h =
    let (q, u, t, _, _) = is_tabular→ i h in
    row-IsLine
      (pad i.quantity w.qw ∷ pad i.unit w.uw ∷ pad i.item w.iw ∷ pad (mark i.optional) 8 ∷ [])
      (
        newline_cell i.quantity w.qw q,
        (
          newline_cell i.unit w.uw u,
          (
            newline_cell i.item w.iw t,
            (lacks-pad newline (mark i.optional) 8 refl (mark_facts i.optional).2, tt),
          ),
        ),
      )
row_of-IsLine false w i h =
    let (q, u, t, _, _) = is_tabular→ i h in
    row-IsLine (pad i.quantity w.qw ∷ pad i.unit w.uw ∷ pad i.item w.iw ∷ []) (
      newline_cell i.quantity w.qw q,
      (newline_cell i.unit w.uw u, (newline_cell i.item w.iw t, tt)),
    )

-- The two lines above the rows.
abbrev pub titles : Bool → Widths → List Text
titles true w =
    pad (codes "Qty") w.qw
    ∷ pad (codes "Unit") w.uw
    ∷ pad (codes "Ingredient") w.iw
    ∷ pad (codes "Optional") 8
    ∷ []
titles false w =
    pad (codes "Qty") w.qw ∷ pad (codes "Unit") w.uw ∷ pad (codes "Ingredient") w.iw ∷ []

pub lacks-titles :
    (x : ℕ) (opt : Bool) (w : Widths)
    → (b' ' == x) ≡ false
    → (lacks x (codes "Qty") ≡ true)
      × (lacks x (codes "Unit") ≡ true)
      × (lacks x (codes "Ingredient") ≡ true)
      × (lacks x (codes "Optional") ≡ true)
    → All (λ c. lacks x c ≡ true) (titles opt w)
lacks-titles x true w e (q, u, i, o) = (
  lacks-pad x (codes "Qty") w.qw e q,
  (
    lacks-pad x (codes "Unit") w.uw e u,
    (lacks-pad x (codes "Ingredient") w.iw e i, (lacks-pad x (codes "Optional") 8 e o, tt)),
  ),
)
lacks-titles x false w e (q, u, i, o) = (
  lacks-pad x (codes "Qty") w.qw e q,
  (lacks-pad x (codes "Unit") w.uw e u, (lacks-pad x (codes "Ingredient") w.iw e i, tt)),
)

pub bar-titles : (opt : Bool) (w : Widths) → LackBar (titles opt w)
bar-titles opt w = lacks-titles bar opt w refl (refl, refl, refl, refl)

pub header-row : (opt : Bool) (w : Widths) → header opt w ≡ row (titles opt w)
unfolding header plain_row optional_row
header-row true w = refl
header-row false w = refl

pub rules : Bool → Widths → List Text
rules true w = dashes w.qw ∷ dashes w.uw ∷ dashes w.iw ∷ dashes 8 ∷ []
rules false w = dashes w.qw ∷ dashes w.uw ∷ dashes w.iw ∷ []

pub separator-row : (opt : Bool) (w : Widths) → separator opt w ≡ row (rules opt w)
unfolding separator rules
separator-row true w = refl
separator-row false w = refl

pub header-IsLine : (opt : Bool) (w : Widths) → IsLine (header opt w)
header-IsLine opt w =
    subst IsLine (sym (header-row opt w))
      (row-IsLine (titles opt w) (lacks-titles newline opt w refl (refl, refl, refl, refl)))

pub header_qty : (opt : Bool) (w : Widths) → has_column (codes "qty") (header opt w) ≡ true
unfolding trim trim_end drop_spaces is_space is_word fold_case
header_qty true w =
    ap (has_column (codes "qty")) (header-row true w)
    ∙ has_column-row (codes "qty") (titles true w) (bar-titles true w)
    ∙ rw (trim-pad (codes "Qty") w.qw) refl
header_qty false w =
    ap (has_column (codes "qty")) (header-row false w)
    ∙ has_column-row (codes "qty") (titles false w) (bar-titles false w)
    ∙ rw (trim-pad (codes "Qty") w.qw) refl

pub header_optional : (w : Widths) → has_column (codes "optional") (header true w) ≡ true
unfolding trim trim_end drop_spaces is_space is_word fold_case
header_optional w =
    ap (has_column (codes "optional")) (header-row true w)
    ∙ has_column-row (codes "optional") (titles true w) (bar-titles true w)
    ∙ rw
        (
          trim-pad (codes "Qty") w.qw,
          trim-pad (codes "Unit") w.uw,
          trim-pad (codes "Ingredient") w.iw,
          trim-pad (codes "Optional") 8,
        )
        refl

pub header_line : (o opt : Bool) (w : Widths) → ingredients_of_line o (header opt w) ≡ []
unfolding ingredients_of_line
header_line o opt w = ground (arith, header_qty opt w)

pub lacks-dashes : (n : ℕ) → lacks newline (dashes n) ≡ true
lacks-dashes zero = refl
lacks-dashes (suc n) = ground (arith, lacks-dashes n)

pub all-dashes : (n : ℕ) → all is_rule (dashes n) ≡ true
unfolding is_rule is_space
all-dashes zero = refl
all-dashes (suc n) = ground (arith, all-dashes n)

pub separator-IsLine : (opt : Bool) (w : Widths) → IsLine (separator opt w)
unfolding rules
separator-IsLine true w = subst IsLine (sym (separator-row true w)) (
    row-IsLine (rules true w)
      (lacks-dashes w.qw, (lacks-dashes w.uw, (lacks-dashes w.iw, (lacks-dashes 8, tt)))))
separator-IsLine false w =
    subst IsLine (sym (separator-row false w))
      (row-IsLine (rules false w) (lacks-dashes w.qw, (lacks-dashes w.uw, (lacks-dashes w.iw, tt))))

pub all_cells-rules : (opt : Bool) (w : Widths) → all_cells (rules opt w) ≡ true
unfolding all_cells rules
all_cells-rules true w =
    ground (arith, all-dashes w.qw, all-dashes w.uw, all-dashes w.iw, all-dashes 8)
all_cells-rules false w = ground (arith, all-dashes w.qw, all-dashes w.uw, all-dashes w.iw)

pub is_separator-rules :
    (c : Text) (cs : List Text) → all_cells (c ∷ cs) ≡ true → is_separator (row (c ∷ cs)) ≡ true
unfolding is_separator row
is_separator-rules c cs h =
    ground (arith, all-cells (c ∷ cs), h, ends_with_bar-cells c cs, length-cells c cs)

pub separator_is : (opt : Bool) (w : Widths) → is_separator (separator opt w) ≡ true
unfolding rules separator
separator_is true w =
    is_separator-rules (dashes w.qw) (dashes w.uw ∷ dashes w.iw ∷ dashes 8 ∷ [])
      (all_cells-rules true w)
separator_is false w =
    is_separator-rules (dashes w.qw) (dashes w.uw ∷ dashes w.iw ∷ []) (all_cells-rules false w)

pub separator_line : (o opt : Bool) (w : Widths) → ingredients_of_line o (separator opt w) ≡ []
unfolding ingredients_of_line
separator_line o opt w = ground (arith, separator_is opt w)
