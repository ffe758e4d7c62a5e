-- ===== src/Export/Rows.antt =====
-- frontend/src/lib/export.ts: rows of the table, and what splitting and testing them gives.
use lunch_loxs.Prelude.{
  ℕ, ◌≡◌, refl, sym, subst, ◌∙◌, ap, Bool, true, false, not, ◌&&◌, List, [], ◌∷◌, ◌++◌, map, arith,
  Text, leb, length-append, split, split_at, trim, trim_end, drop_spaces, lacks, any, all,
  all-append, All, is_empty, is_space, ◌==◌, length,
}
use lunch_loxs.Export.Table.{
  bar, cells_text, row, is_word, all_but_last, between_bars, has_column, is_rule, ends_with_bar,
  is_separator, nonempty, trim_all, cells_of,
}

-- A cell with its padding.
abbrev pub padded : Text → Text
padded c = b' ' ∷ (c ++ b' ' ∷ [])

pub append_assoc : (a b c : Text) → (a ++ b) ++ c ≡ a ++ (b ++ c)
append_assoc [] b c = refl
append_assoc (x ∷ a) b c = ap (λ t. x ∷ t) (append_assoc a b c)

pub lacks-padded :
    (x : ℕ) (c : Text) → lacks x c ≡ true → (b' ' == x) ≡ false → lacks x (padded c) ≡ true
lacks-padded x c h e = ground (arith, all-append (λ d. not (d == x)) c (b' ' ∷ []), h, e)

abbrev pub LackBar : List Text → Type 0
LackBar cs = All (λ c. lacks bar c ≡ true) cs

pub split-cells :
    (cs : List Text) → LackBar cs → split bar (cells_text cs) ≡ map padded cs ++ [] ∷ []
unfolding cells_text split
split-cells [] h = refl
split-cells (c ∷ cs) (h, hs) =
    let moved = append_assoc c (b' ' ∷ []) (bar ∷ cells_text cs) in
    ap (λ t. split bar (b' ' ∷ t)) (sym moved)
    ∙ split_at bar (padded c) (cells_text cs) (lacks-padded bar c h refl)
    ∙ ap (λ t. padded c ∷ t) (split-cells cs hs)

pub split-row : (cs : List Text) → LackBar cs → split bar (row cs) ≡ [] ∷ (map padded cs ++ [] ∷ [])
unfolding row split
split-row cs h = ap (λ t. [] ∷ t) (split-cells cs h)

pub nonempty_snoc : (xs : List Text) → nonempty (trim_all (xs ++ [] ∷ [])) ≡ nonempty (trim_all xs)
unfolding nonempty trim_all trim
nonempty_snoc [] = refl
nonempty_snoc (x ∷ xs) = ground (arith, nonempty_snoc xs)

pub cells_of-row :
    (cs : List Text) → LackBar cs → cells_of (row cs) ≡ nonempty (trim_all (map padded cs))
unfolding cells_of nonempty trim_all trim
cells_of-row cs h = ap (λ t. nonempty (trim_all t)) (split-row cs h) ∙ nonempty_snoc (map padded cs)

pub all_but_last_snoc : (xs : List Text) → all_but_last (xs ++ [] ∷ []) ≡ xs
unfolding all_but_last
all_but_last_snoc [] = refl
all_but_last_snoc (x ∷ []) = refl
all_but_last_snoc (x ∷ y ∷ xs) = ap (λ t. x ∷ t) (all_but_last_snoc (y ∷ xs))

pub between_bars-row : (cs : List Text) → LackBar cs → between_bars (row cs) ≡ map padded cs
unfolding between_bars
between_bars-row cs h = rw (between_bars, split-row cs h) (all_but_last_snoc (map padded cs))

pub has_column-row :
    (word : Text) (cs : List Text)
    → LackBar cs
    → has_column word (row cs) ≡ any (λ part. is_word word (trim part)) (map padded cs)
unfolding has_column
has_column-row word cs h = ap (any (λ part. is_word word (trim part))) (between_bars-row cs h)

unfoldable pub all_cells : List Text → Bool
all_cells [] = true
all_cells (c ∷ cs) = all is_rule c && all_cells cs

pub all-cells : (cs : List Text) → all is_rule (cells_text cs) ≡ all_cells cs
unfolding cells_text all_cells is_rule is_space
all-cells [] = refl
all-cells (c ∷ cs) = ground (arith, all-append is_rule c (b' ' ∷ bar ∷ cells_text cs), all-cells cs)

pub is_separator-row : (cs : List Text) → all_cells cs ≡ false → is_separator (row cs) ≡ false
unfolding is_separator row
is_separator-row cs h = ground (arith, all-cells cs, h)

pub ends_with_bar_skip :
    (s : Text) (c : ℕ) (t : Text) → ends_with_bar (s ++ c ∷ t) ≡ ends_with_bar (c ∷ t)
unfolding ends_with_bar
ends_with_bar_skip [] c t = refl
ends_with_bar_skip (x ∷ []) c t = refl
ends_with_bar_skip (x ∷ y ∷ s) c t = ends_with_bar_skip (y ∷ s) c t

pub ends_with_bar-cells : (c : Text) (cs : List Text) → ends_with_bar (cells_text (c ∷ cs)) ≡ true
unfolding cells_text ends_with_bar
ends_with_bar-cells c [] = ends_with_bar_skip (b' ' ∷ c) (b' ') (bar ∷ [])
ends_with_bar-cells c (d ∷ cs) =
    ends_with_bar_skip (b' ' ∷ c) (b' ') (bar ∷ cells_text (d ∷ cs)) ∙ ends_with_bar-cells d cs

-- Trimming leaves a row as it is.
pub trim_end_after : (s t : Text) → trim_end t ≡ t → is_empty t ≡ false → trim_end (s ++ t) ≡ s ++ t
unfolding trim_end
trim_end_after [] t h e = h
trim_end_after (c ∷ []) [] h e = ground (arith, e)
trim_end_after (c ∷ []) (d ∷ t) h e = ground (arith, h)
trim_end_after (c ∷ d ∷ s) t h e = ground (arith, trim_end_after (d ∷ s) t h e)

pub trim_end-cells : (cs : List Text) → trim_end (bar ∷ cells_text cs) ≡ bar ∷ cells_text cs
unfolding trim_end cells_text is_space
trim_end-cells [] = refl
trim_end-cells (c ∷ cs) =
    let moved = append_assoc c (b' ' ∷ []) (bar ∷ cells_text cs) in
    subst (λ t. trim_end t ≡ t) (ap (λ t. bar ∷ b' ' ∷ t) moved)
      (trim_end_after (bar ∷ padded c) (bar ∷ cells_text cs) (trim_end-cells cs) refl)

pub trim-row : (cs : List Text) → trim (row cs) ≡ row cs
unfolding trim row drop_spaces is_space
trim-row cs = rw (trim_end-cells cs) refl

pub lacks-row :
    (x : ℕ) (cs : List Text)
    → (b' ' == x) ≡ false
    → (bar == x) ≡ false
    → All (λ c. lacks x c ≡ true) cs
    → lacks x (row cs) ≡ true
unfolding row cells_text
lacks-row x [] e f h = ground (arith, e, f)
lacks-row x (c ∷ cs) e f (h, hs) = ground (
  arith,
  all-append (λ d. not (d == x)) c (b' ' ∷ bar ∷ cells_text cs),
  h,
  e,
  f,
  lacks-row x cs e f hs,
)

pub row_nonempty : (cs : List Text) → is_empty (row cs) ≡ false
unfolding row
row_nonempty cs = refl

pub length-cells : (c : Text) (cs : List Text) → leb 2 (length (cells_text (c ∷ cs))) ≡ true
unfolding cells_text
length-cells c cs = ground (arith, length-append c (b' ' ∷ bar ∷ cells_text cs))
