-- ===== src/Export/FrontMatter.antt =====
-- frontend/src/lib/export.ts: the front matter in parseRecipeMarkdown. `time_of` is
-- `new Date(…).getTime()` (`none` is NaN), `now` is `Date.now()`.
use lunch_loxs.Prelude.{
  ◌++◌, ℕ, ◌+◌, ◌-◌, ◌*◌, Bool, false, not, ◌&&◌, ◌||◌, List, [], ◌∷◌, map, Option, none, some,
  Text, codes, split, trim, drop_spaces, is_digit, length, any, leb, ltb, ◌==◌, is_empty,
  starts_with, drop, if◌then◌else◌, text_eq,
}
use lunch_loxs.Export.Table.{Ingredient, newline}
use lunch_loxs.Export.Markdown.{quote}

-- What a text says, where it says it; a number may have a minus sign.
pub data Signed : Type 0 where
  plus minus : ℕ → Signed

pub record Parsed : Type 0 where
  pub title : Option Text
  pub tags : Option (List Text)
  pub servings : Option Signed
  pub prep_minutes : Option Signed
  pub cook_minutes : Option Signed
  pub created_at : Option ℕ
  pub updated_at : Option ℕ
  pub description : Option Text
  pub ingredients : Option (List Ingredient)
  pub instructions : Option Text
  pub notes : Option Text

abbrev pub nothing : Parsed
nothing = record {
  title = none;
  tags = none;
  servings = none;
  prep_minutes = none;
  cook_minutes = none;
  created_at = none;
  updated_at = none;
  description = none;
  ingredients = none;
  instructions = none;
  notes = none;
}

-- A line terminator, which `.` does not match and behind which `^` does with the flag m.
abbrev pub is_line_end : ℕ → Bool
is_line_end c = c == 10 || c == 13 || c == 0x2028 || c == 0x2029

-- `md.replace(/\r\n/g, "\n")`
unfoldable pub unix_lines : Text → Text
unix_lines [] = []
unix_lines (c ∷ []) = c ∷ []
unix_lines (c ∷ d ∷ s) =
    let rest = unix_lines (d ∷ s) in if c == 13 && d == 10 then rest else c ∷ rest

-- The text before the first occurrence of `p`, and behind it.
unfoldable pub cut_at : Text → Text → Option (Text × Text)
unfolding starts_with
cut_at p [] = if is_empty p then some ([], []) else none
cut_at p (c ∷ s) =
    let rest = cut_at p s in
    if starts_with (c ∷ s) p
    then some ([], drop (length p) (c ∷ s))
    else elim rest [ none ↦ none | some (a, b) ↦ some (c ∷ a, b) ]

abbrev pub drop_newline : Text → Text
drop_newline [] = []
drop_newline (c ∷ s) = if c == 10 then s else c ∷ s

-- The front matter and the body.
unfoldable pub cut_frontmatter : Text → Option (Text × Text)
unfolding cut_at starts_with
cut_frontmatter t =
    if starts_with t (codes "---" ++ newline ∷ [])
    then elim (cut_at (newline ∷ codes "---") (drop 4 t)) [
      | none ↦ none
      | some (front, body) ↦ some (front, drop_newline body)
    ]
    else none

-- `\w`
unfoldable pub is_word_char : ℕ → Bool
is_word_char c = is_digit c || (leb b'a' c && leb c b'z') || (leb b'A' c && leb c b'Z') || c == b'_'

-- `^(\w+):`, and what follows
unfoldable pub cut_key : Text → Option (Text × Text)
unfolding is_word_char
cut_key [] = none
cut_key (c ∷ s) =
    let rest = cut_key s in
    if is_word_char c
    then elim s [
      | [] ↦ none
      | d ∷ r ↦
          if d == b':'
          then some (c ∷ [], r)
          else elim rest [ none ↦ none | some (k, v) ↦ some (c ∷ k, v) ]
    ]
    else none

abbrev pub last_of : Text → Text
last_of [] = []
last_of (c ∷ []) = c ∷ []
last_of (c ∷ s) = last_of s

-- `\s*(.+)$`: of white space alone, `.+` keeps the last character.
unfoldable pub read_raw : Text → Option Text
unfolding drop_spaces
read_raw t =
    let s = drop_spaces t in
    let v = if is_empty s then last_of t else s in
    if is_empty v || any is_line_end v then none else some v

unfoldable pub without_last : Text → Text
without_last [] = []
without_last (c ∷ []) = []
without_last (c ∷ s) = c ∷ without_last s

abbrev pub ends_with_quote : Text → Bool
ends_with_quote [] = false
ends_with_quote (c ∷ []) = c == quote
ends_with_quote (c ∷ s) = ends_with_quote s

-- `v.replace(/^"(.*)"$/, "$1")`
unfoldable pub unquote : Text → Text
unfolding without_last
unquote [] = []
unquote (c ∷ s) =
    if c == quote && ends_with_quote s && not (any is_line_end s) then without_last s else c ∷ s

abbrev pub hex_digit_of : ℕ → Option ℕ
hex_digit_of c =
    if is_digit c
    then some (c - b'0')
    else if leb b'a' c && leb c b'f'
    then some (c - b'a' + 10)
    else if leb b'A' c && leb c b'F'
    then some (c - b'A' + 10)
    else none

-- The digits at the start, to the base 10 or 16; `none` where there is none.
unfoldable pub read_base : ℕ → Option ℕ → Text → Option ℕ
read_base base acc [] = acc
read_base base acc (c ∷ s) = elim (hex_digit_of c) [
  | none ↦ acc
  | some d ↦
      if ltb d base
      then read_base base (some (elim acc [ none ↦ d | some n ↦ n * base + d ])) s
      else acc
]

unfoldable pub read_magnitude : Text → Option ℕ
unfolding read_base starts_with
read_magnitude s =
    if starts_with s (codes "0x") || starts_with s (codes "0X")
    then read_base 16 none (drop 2 s)
    else read_base 10 none s

-- `parseInt(val) || d`
unfoldable pub parse_int_or : ℕ → Text → Signed
unfolding read_magnitude drop_spaces
parse_int_or d t =
    let s = drop_spaces t in
    let negative = starts_with s (b'-' ∷ []) in
    let signed = negative || starts_with s (b'+' ∷ []) in
    elim (read_magnitude (if signed then drop 1 s else s)) [
      | none ↦ plus d
      | some n ↦ if n == 0 then plus d else if negative then minus n else plus n
    ]

-- `new Date(val).getTime() || Date.now()`
abbrev pub time_or : ℕ → Option ℕ → ℕ
time_or now none = now
time_or now (some t) = if t == 0 then now else t

unfoldable pub nonempty_texts : List Text → List Text
nonempty_texts [] = []
nonempty_texts (t ∷ ts) = if is_empty t then nonempty_texts ts else t ∷ nonempty_texts ts

-- `[…]` of the raw value, split at commas
unfoldable pub read_tags : Text → Option (List Text)
unfolding cut_at split trim unquote nonempty_texts
read_tags raw = elim (cut_at (b'[' ∷ []) raw) [
  | none ↦ none
  | some (a, r) ↦ elim (cut_at (b']' ∷ []) r) [
    | none ↦ none
    | some (inner, b) ↦ some (nonempty_texts (map (λ t. unquote (trim t)) (split b',' inner)))
  ]
]

module _ (time_of : Text → Option ℕ) (now : ℕ) where
  unfoldable pub read_field : Text → Text → Parsed → Parsed
  unfolding unquote parse_int_or read_tags text_eq
  read_field key raw m =
      let val = unquote raw in
      if text_eq key (codes "title")
      then record m { title = some val }
      else if text_eq key (codes "servings")
      then record m { servings = some (parse_int_or 4 val) }
      else if text_eq key (codes "prepMinutes")
      then record m { prep_minutes = some (parse_int_or 0 val) }
      else if text_eq key (codes "cookMinutes")
      then record m { cook_minutes = some (parse_int_or 0 val) }
      else if text_eq key (codes "tags")
      then elim (read_tags raw) [ none ↦ m | some ts ↦ record m { tags = some ts } ]
      else if text_eq key (codes "createdAt")
      then record m { created_at = some (time_or now (time_of val)) }
      else if text_eq key (codes "updatedAt")
      then record m { updated_at = some (time_or now (time_of val)) }
      else m

  unfoldable pub read_line : Text → Parsed → Parsed
  unfolding cut_key read_raw read_field
  read_line line m = elim (cut_key line) [
    | none ↦ m
    | some (key, rest) ↦ elim (read_raw rest) [ none ↦ m | some raw ↦ read_field key raw m ]
  ]

  unfoldable pub read_lines : List Text → Parsed → Parsed
  unfolding read_line
  read_lines [] m = m
  read_lines (l ∷ ls) m = read_lines ls (read_line l m)
