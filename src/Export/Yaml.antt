-- ===== src/Export/Yaml.antt =====
-- frontend/src/lib/export.ts: the description of a book in an exported ZIP file, and
-- parseYamlString. `iso` is `toISOString` of a time.
use lunch_loxs.Prelude.{
  ℕ, ◌+◌, ◌≡◌, refl, ap, ◌∙◌, Bool, true, false, ◌&&◌, ◌||◌, List, [], ◌∷◌, ◌++◌, map, Option, none,
  some, Text, codes, split, join, trim, trim_end, drop_spaces, decimal, length, lacks, arith, ◌==◌,
  is_empty, starts_with, drop, split_at, if◌then◌else◌,
}
use lunch_loxs.Export.Table.{newline}
use lunch_loxs.Export.Rows.{trim_end_after}
use lunch_loxs.Export.Markdown.{quote, backslash, escape_quotes, quoted}
use lunch_loxs.Export.FrontMatter.{without_last}
use lunch_loxs.Export.Titles.{without_last-snoc}

abbrev pub apostrophe : ℕ
apostrophe = 39

unfoldable pub name_line : Text → Text
unfolding quoted
name_line name = codes "name: " ++ quoted name

abbrev pub member_line : Text × Text → Text
unfolding quoted
member_line (user_id, display_name) = codes "  " ++ (user_id ++ (codes ": " ++ quoted display_name))

-- The members are those of the catalog, none where it has no list.
unfoldable pub book_yaml : (ℕ → Text) → ℕ → Text → ℕ → List (Text × Text) → Text
unfolding name_line quoted decimal join
book_yaml iso now name count members = join (newline ∷ []) (
    name_line name
    ∷ (codes "exportedAt: " ++ quote ∷ (iso now ++ quote ∷ []))
    ∷ (codes "format: " ++ quote ∷ (codes "recipepwa-v2" ++ quote ∷ []))
    ∷ (codes "recipeCount: " ++ decimal count)
    ∷ (if is_empty members then [] else codes "members:" ∷ map member_line members))

-- `s.replace(/\\q/g, q)` for a quote q
unfoldable pub unescape : ℕ → Text → Text
unescape q [] = []
unescape q (c ∷ []) = c ∷ []
unescape q (c ∷ d ∷ s) =
    let rest = unescape q (d ∷ s) in if c == backslash && d == q then rest else c ∷ rest

abbrev pub ends_with_char : ℕ → Text → Bool
ends_with_char q [] = false
ends_with_char q (c ∷ []) = c == q
ends_with_char q (c ∷ s) = ends_with_char q s

unfoldable pub yaml_value : Text → Text
unfolding unescape without_last
yaml_value [] = []
yaml_value (c ∷ s) =
    if (c == quote && ends_with_char quote (c ∷ s))
      || (c == apostrophe && ends_with_char apostrophe (c ∷ s))
    then unescape apostrophe (unescape quote (without_last s))
    else c ∷ s

unfoldable pub find_yaml : Text → List Text → Option Text
unfolding trim starts_with yaml_value
find_yaml key [] = none
find_yaml key (l ∷ ls) =
    let rest = find_yaml key ls in
    let t = trim l in
    if starts_with t (key ++ b':' ∷ [])
    then some (yaml_value (trim (drop (length key + 1) t)))
    else rest

unfoldable pub parse_yaml_string : Text → Text → Option Text
unfolding find_yaml split
parse_yaml_string yaml key = find_yaml key (split newline yaml)

unescape-cons :
    (q c : ℕ) (s : Text) → starts_with s (q ∷ []) ≡ false → unescape q (c ∷ s) ≡ c ∷ unescape q s
unfolding unescape starts_with
unescape-cons q c [] h = refl
unescape-cons q c (d ∷ s) h = ground (arith, h)

unescape-cons_quote : (q : ℕ) (s : Text) → unescape q (quote ∷ s) ≡ quote ∷ unescape q s
unfolding unescape
unescape-cons_quote q [] = refl
unescape-cons_quote q (d ∷ s) = refl

escape_quotes_start : (t : Text) → starts_with (escape_quotes t) (quote ∷ []) ≡ false
unfolding starts_with escape_quotes
escape_quotes_start [] = refl
escape_quotes_start (c ∷ t) = ground arith

unescape-escape_quotes : (t : Text) → unescape quote (escape_quotes t) ≡ t
unfolding escape_quotes unescape
unescape-escape_quotes [] = refl
unescape-escape_quotes (c ∷ t) = ground (
  arith,
  unescape-escape_quotes t,
  unescape-cons_quote quote (escape_quotes t),
  unescape-cons quote c (escape_quotes t) (escape_quotes_start t),
)

lacks-escape_quotes :
    (t : Text) → lacks newline t ≡ true → lacks newline (escape_quotes t ++ quote ∷ []) ≡ true
unfolding escape_quotes
lacks-escape_quotes [] h = refl
lacks-escape_quotes (c ∷ t) h = ground (arith, h, lacks-escape_quotes t)

lacks-name_line : (t : Text) → lacks newline t ≡ true → lacks newline (name_line t) ≡ true
unfolding name_line quoted
lacks-name_line t h = lacks-escape_quotes t h

ends_with_char-snoc : (q : ℕ) (s : Text) → ends_with_char q (s ++ q ∷ []) ≡ true
ends_with_char-snoc q [] = ground arith
ends_with_char-snoc q (a ∷ []) = ground arith
ends_with_char-snoc q (a ∷ b ∷ s) = ends_with_char-snoc q (b ∷ s)

trim_end-quoted : (t : Text) → trim_end (quoted t) ≡ quoted t
unfolding quoted trim_end
trim_end-quoted t = trim_end_after (quote ∷ escape_quotes t) (quote ∷ []) refl refl

quoted-not_empty : (t : Text) → is_empty (quoted t) ≡ false
unfolding quoted
quoted-not_empty t = refl

trim-name_line : (t : Text) → trim (name_line t) ≡ name_line t
unfolding trim name_line drop_spaces
trim-name_line t =
    ap drop_spaces
      (trim_end_after (codes "name: ") (quoted t) (trim_end-quoted t) (quoted-not_empty t))

trim-quoted : (t : Text) → trim (b' ' ∷ quoted t) ≡ quoted t
unfolding trim drop_spaces quoted
trim-quoted t =
    ap drop_spaces (trim_end_after (codes " ") (quoted t) (trim_end-quoted t) (quoted-not_empty t))

yaml_value-quoted : (t : Text) → yaml_value (quoted t) ≡ unescape apostrophe t
unfolding yaml_value quoted
yaml_value-quoted t = ground (
  arith,
  ends_with_char-snoc quote (quote ∷ escape_quotes t),
  without_last-snoc (escape_quotes t) quote,
  unescape-escape_quotes t,
)

find-name_line :
    (t : Text) (ls : List Text)
    → find_yaml (codes "name") (name_line t ∷ ls) ≡ some (unescape apostrophe t)
unfolding find_yaml
find-name_line t ls = rw (trim-name_line t) (
    unfold name_line in
    unfold starts_with in ap some (ap yaml_value (trim-quoted t) ∙ yaml_value-quoted t))

parse-name_line :
    (t s : Text)
    → lacks newline t ≡ true
    → parse_yaml_string (name_line t ++ newline ∷ s) (codes "name") ≡ some (unescape apostrophe t)
unfolding parse_yaml_string
parse-name_line t s h =
    ap (find_yaml (codes "name")) (split_at newline (name_line t) s (lacks-name_line t h))
    ∙ find-name_line t (split newline s)

-- The name of a book without a line break is read back from the book's description, with each
-- backslash before an apostrophe left out.
pub parse-book_yaml :
    (iso : ℕ → Text) (now : ℕ) (name : Text) (count : ℕ) (members : List (Text × Text))
    → lacks newline name ≡ true
    → parse_yaml_string (book_yaml iso now name count members) (codes "name")
      ≡ some (unescape apostrophe name)
unfolding book_yaml join
parse-book_yaml iso now name count members h = parse-name_line name _ h
