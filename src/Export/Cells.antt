-- ===== src/Export/Cells.antt =====
-- frontend/src/lib/export.ts: cells, and what a row of the table gives when it is read.
use lunch_loxs.Prelude.{
  subst, ℕ, zero, suc, ◌≡◌, refl, sym, ◌∙◌, ap, Bool, true, false, not, ◌&&◌, ◌||◌, List, [], ◌∷◌,
  ◌++◌, map, arith, Text, text_eq, text_eq_iff, starts_with, codes, trim, trim_end, trim_padded,
  drop_spaces, spaces, lacks, any, all, all-append, is_empty, is_space, ◌==◌, if◌then◌else◌, ◌-◌,
  length,
}
use lunch_loxs.Export.Table.{
  Ingredient, Widths, bar, newline, pad, row, row_of, is_word, has_column, is_rule, nonempty,
  trim_all, ingredients_of_cells, ingredients_of_line, plain_row, optional_row, is_yes, ingredient,
  fold_case,
}
use lunch_loxs.Export.Rows.{
  padded, append_assoc, LackBar, cells_of-row, has_column-row, all_cells, is_separator-row,
}

pub spaces_snoc : (n : ℕ) → spaces n ++ b' ' ∷ [] ≡ spaces (suc n)
spaces_snoc zero = refl
spaces_snoc (suc n) = ap (λ t. b' ' ∷ t) (spaces_snoc n)

pub trim-pad : (s : Text) (w : ℕ) → trim (padded (pad s w)) ≡ trim s
unfolding pad
trim-pad s w =
    let n = w - length s in
    ap (λ t. trim (b' ' ∷ t))
      (append_assoc s (spaces n) (b' ' ∷ []) ∙ ap (λ t. s ++ t) (spaces_snoc n))
    ∙ trim_padded s (suc n)

pub lacks-spaces : (x n : ℕ) → (b' ' == x) ≡ false → lacks x (spaces n) ≡ true
lacks-spaces x zero e = refl
lacks-spaces x (suc n) e = ground (arith, e, lacks-spaces x n e)

pub lacks-pad :
    (x : ℕ) (s : Text) (w : ℕ) → (b' ' == x) ≡ false → lacks x s ≡ true → lacks x (pad s w) ≡ true
unfolding pad
lacks-pad x s w e h =
    let n = w - length s in
    ground (arith, all-append (λ d. not (d == x)) s (spaces n), h, lacks-spaces x n e)

pub all-pad : (s : Text) (w : ℕ) → all is_rule s ≡ false → all is_rule (pad s w) ≡ false
unfolding pad
all-pad s w h = ground (arith, all-append is_rule s (spaces (w - length s)), h)

-- A cell that is read back as it was.
unfoldable pub is_cell : Text → Bool
is_cell s = text_eq (trim s) s && lacks bar s && lacks newline s && not (is_word (codes "qty") s)

-- Reading drops empty cells. An ingredient that is optional has a quantity and a unit; one that is
-- not may lack the unit, and then the quantity too.
unfoldable pub has_shape : Bool → Text → Text → Bool
has_shape optional quantity unit =
    if optional
    then not (is_empty quantity) && not (is_empty unit)
    else not (is_empty quantity) || is_empty unit

-- An ingredient whose row is read back: three such cells, of which the name is not all of dashes.
unfoldable pub is_tabular : Ingredient → Bool
unfolding is_cell has_shape
is_tabular i =
    is_cell i.quantity
    && is_cell i.unit
    && is_cell i.item
    && not (all is_rule i.item)
    && has_shape i.optional i.quantity i.unit

abbrev pub IsCell : Text → Type 0
IsCell s =
    (trim s ≡ s)
    × (lacks bar s ≡ true)
    × (lacks newline s ≡ true)
    × (is_word (codes "qty") s ≡ false)

pub is_cell→IsCell : (s : Text) → is_cell s ≡ true → IsCell s
unfolding is_cell
is_cell→IsCell s h = ground (arith, text_eq_iff (trim s) s, h)

pub is_tabular→ :
    (i : Ingredient)
    → is_tabular i ≡ true
    → IsCell i.quantity
      × IsCell i.unit
      × IsCell i.item
      × (all is_rule i.item ≡ false)
      × (has_shape i.optional i.quantity i.unit ≡ true)
unfolding is_tabular
is_tabular→ i h =
    ground (arith, is_cell→IsCell i.quantity, is_cell→IsCell i.unit, is_cell→IsCell i.item, h)

pub any-trim_all :
    (word : Text) (xs : List Text)
    → any (λ part. is_word word (trim part)) xs ≡ any (is_word word) (trim_all xs)
unfolding trim_all
any-trim_all word [] = refl
any-trim_all word (x ∷ xs) = ap (λ b. is_word word (trim x) || b) (any-trim_all word xs)

-- What a row gives, by its trimmed cells.
pub line_of :
    (o : Bool) (cs ts : List Text)
    → LackBar cs
    → all_cells cs ≡ false
    → trim_all (map padded cs) ≡ ts
    → any (is_word (codes "qty")) ts ≡ false
    → ingredients_of_line o (row cs) ≡ ingredients_of_cells o (nonempty ts)
unfolding ingredients_of_line starts_with row
line_of o cs ts h n e q =
    let word = codes "qty" in
    let no_qty : has_column word (row cs) ≡ false =
      has_column-row word cs h
      ∙ any-trim_all word (map padded cs)
      ∙ ap (any (is_word word)) e
      ∙ q in
    rw (ingredients_of_line, is_separator-row cs n, no_qty)
      (ap (ingredients_of_cells o) (cells_of-row cs h ∙ ap nonempty e))

pub trim_cell : (s : Text) (w : ℕ) → IsCell s → trim (padded (pad s w)) ≡ s
trim_cell s w h = trim-pad s w ∙ h.0

pub bar_cell : (s : Text) (w : ℕ) → IsCell s → lacks bar (pad s w) ≡ true
bar_cell s w h = lacks-pad bar s w refl h.1

pub all_cells-item :
    (q u i : Text) (cs : List Text) → all is_rule i ≡ false → all_cells (q ∷ u ∷ i ∷ cs) ≡ false
unfolding all_cells
all_cells-item q u i cs h = ground (arith, h)

-- The cells that are left when the empty ones are dropped.
plain_cells :
    (o : Bool) (q u i : Text)
    → all is_rule i ≡ false
    → has_shape false q u ≡ true
    → ingredients_of_cells o (nonempty (q ∷ u ∷ i ∷ [])) ≡ ingredient q u i false ∷ []
unfolding nonempty ingredients_of_cells has_shape
plain_cells o q u [] r h = ground (arith, r)
plain_cells o [] [] (c ∷ i) r h = refl
plain_cells o [] (d ∷ u) (c ∷ i) r h = ground (arith, h)
plain_cells o (b ∷ q) [] (c ∷ i) r h = refl
plain_cells o (b ∷ q) (d ∷ u) (c ∷ i) r h = refl

pub plain_line :
    (o : Bool) (w : Widths) (i : Ingredient)
    → is_tabular i ≡ true
    → i.optional ≡ false
    → ingredients_of_line o (row_of false w i) ≡ i ∷ []
unfolding row_of plain_row nonempty trim_all ingredients_of_cells
plain_line o w i h n =
    let (q, u, t, r, shape) = is_tabular→ i h in
    line_of o (pad i.quantity w.qw ∷ pad i.unit w.uw ∷ pad i.item w.iw ∷ [])
      (i.quantity ∷ i.unit ∷ i.item ∷ [])
      (bar_cell i.quantity w.qw q, (bar_cell i.unit w.uw u, (bar_cell i.item w.iw t, tt)))
      (all_cells-item (pad i.quantity w.qw) (pad i.unit w.uw) (pad i.item w.iw) []
        (all-pad i.item w.iw r))
      (rw (trim_cell i.quantity w.qw q, trim_cell i.unit w.uw u, trim_cell i.item w.iw t) refl)
      (ground (arith, q.3, u.3, t.3))
    ∙ plain_cells o i.quantity i.unit i.item r
        (subst (λ b. has_shape b i.quantity i.unit ≡ true) n shape)
    ∙ ap (λ b. ingredient i.quantity i.unit i.item b ∷ []) (sym n)

abbrev pub mark : Bool → Text
mark b = if b then codes "yes" else []

drop_last :
    (q u i : Text)
    → ingredients_of_cells true (nonempty (q ∷ u ∷ i ∷ [] ∷ []))
      ≡ ingredients_of_cells true (nonempty (q ∷ u ∷ i ∷ []))
unfolding nonempty
drop_last q u i = refl

-- The cell of the last column is read as it was written.
mark_lem :
    (q u i : Text) (b : Bool)
    → all is_rule i ≡ false
    → has_shape b q u ≡ true
    → ingredients_of_cells true (nonempty (q ∷ u ∷ i ∷ mark b ∷ [])) ≡ ingredient q u i b ∷ []
unfolding nonempty ingredients_of_cells is_yes is_word fold_case has_shape
mark_lem q u i false r h = drop_last q u i ∙ plain_cells true q u i r h
mark_lem q u [] true r h = ground (arith, r)
mark_lem [] u (c ∷ i) true r h = ground (arith, h)
mark_lem (a ∷ q) [] (c ∷ i) true r h = ground (arith, h)
mark_lem (a ∷ q) (d ∷ u) (c ∷ i) true r h = refl

pub mark_facts :
    (b : Bool)
    → (trim (mark b) ≡ mark b)
      × (lacks bar (mark b) ≡ true)
      × (lacks newline (mark b) ≡ true)
      × (is_word (codes "qty") (mark b) ≡ false)
unfolding trim trim_end drop_spaces is_space is_word fold_case
mark_facts true = (refl, refl, refl, refl)
mark_facts false = (refl, refl, refl, refl)

pub optional_line :
    (w : Widths) (i : Ingredient)
    → is_tabular i ≡ true
    → ingredients_of_line true (row_of true w i) ≡ i ∷ []
unfolding row_of optional_row trim_all
optional_line w i h =
    let (q, u, t, r, shape) = is_tabular→ i h in
    let (mt, mb, mn, mq) = mark_facts i.optional in
    let last = pad (mark i.optional) 8 ∷ [] in
    line_of true (pad i.quantity w.qw ∷ pad i.unit w.uw ∷ pad i.item w.iw ∷ last)
      (i.quantity ∷ i.unit ∷ i.item ∷ mark i.optional ∷ [])
      (
        bar_cell i.quantity w.qw q,
        (
          bar_cell i.unit w.uw u,
          (bar_cell i.item w.iw t, (lacks-pad bar (mark i.optional) 8 refl mb, tt)),
        ),
      )
      (all_cells-item (pad i.quantity w.qw) (pad i.unit w.uw) (pad i.item w.iw) last
        (all-pad i.item w.iw r))
      (rw
        (
          trim_cell i.quantity w.qw q,
          trim_cell i.unit w.uw u,
          trim_cell i.item w.iw t,
          trim-pad (mark i.optional) 8 ∙ mt,
        )
        refl)
      (ground (arith, q.3, u.3, t.3, mq))
    ∙ mark_lem i.quantity i.unit i.item i.optional r shape
