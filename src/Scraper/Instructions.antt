-- ===== src/Scraper/Instructions.antt =====
-- frontend/src/lib/recipe-scraper.ts: HTML as plain text, and the steps of the instructions.
-- `to_string` is `String`.
use lunch_loxs.Prelude.{
  ℕ, zero, suc, ◌-◌, Bool, true, false, not, ◌&&◌, ◌||◌, List, [], ◌∷◌, ◌++◌, Option, none, some,
  Text, codes, trim, drop_spaces, join, is_empty, starts_with, length, drop, leb, ◌==◌, decimal,
  if◌then◌else◌,
}
use lunch_loxs.Export.Table.{fold_case}
use lunch_loxs.Scraper.Json.{
  Json, Items, Fields, text, array, object, nil, cons, member, is_truthy, extract_step_image_url,
}

-- `s.replace(re, r)` with the flag `g`. The first argument says how many characters are matched at a
-- place, less one; the second how many characters are still to be skipped.
unfoldable pub replace_all : (Text → Option ℕ) → Text → ℕ → Text → Text
replace_all match r skip [] = []
replace_all match r (suc n) (c ∷ s) = replace_all match r n s
replace_all match r zero (c ∷ s) = elim (match (c ∷ s)) [
  | none ↦ c ∷ replace_all match r zero s
  | some n ↦ r ++ replace_all match r n s
]

-- A word in lower case at the start, in either case of the text; the text behind it.
unfoldable pub after_word : Text → Text → Option Text
unfolding fold_case
after_word [] s = some s
after_word (a ∷ w) [] = none
after_word (a ∷ w) (c ∷ s) = let rest = after_word w s in if a == fold_case c then rest else none

-- The match that ends where the second text starts.
unfoldable pub match_to : Text → Text → Option ℕ
match_to s rest = some (length s - length rest - 1)

abbrev after_slash : Text → Text
after_slash [] = []
after_slash (c ∷ s) = if c == b'/' then s else c ∷ s

-- `/<br\s*\/?>/i`
unfoldable pub match_break : Text → Option ℕ
unfolding after_word match_to drop_spaces starts_with
match_break s = elim (after_word (codes "<br") s) [
  | none ↦ none
  | some rest ↦
      let close = after_slash (drop_spaces rest) in
      if starts_with close (codes ">") then match_to s (drop 1 close) else none
]

-- The first word of the list that is at the start.
unfoldable pub match_words : List Text → Text → Option ℕ
unfolding after_word match_to
match_words [] s = none
match_words (w ∷ ws) s =
    let later = match_words ws s in
    elim (after_word w s) [ some rest ↦ match_to s rest | none ↦ later ]

-- `/<\/(?:p|div|li|h[1-6])>/i`
unfoldable pub match_block_end : Text → Option ℕ
unfolding match_words
match_block_end s =
    match_words
      (codes "</p>"
        ∷ codes "</div>"
        ∷ codes "</li>"
        ∷ codes "</h1>"
        ∷ codes "</h2>"
        ∷ codes "</h3>"
        ∷ codes "</h4>"
        ∷ codes "</h5>"
        ∷ codes "</h6>"
        ∷ [])
      s

-- The distance to the next closing bracket.
unfoldable pub to_bracket : Text → Option ℕ
to_bracket [] = none
to_bracket (c ∷ s) =
    let later = to_bracket s in
    if c == b'>' then some 0 else elim later [ none ↦ none | some n ↦ some (suc n) ]

-- `/<[^>]+>/`
unfoldable pub match_tag : Text → Option ℕ
unfolding to_bracket
match_tag [] = none
match_tag (c ∷ s) =
    if c == b'<' then elim (to_bracket s) [ some (suc n) ↦ some (suc (suc n)) | _ ↦ none ] else none

-- `s.replace(/literal/g, r)`
unfoldable pub replace_text : Text → Text → Text → Text
unfolding replace_all starts_with
replace_text literal r s =
    replace_all (λ t. if starts_with t literal then some (length literal - 1) else none) r 0 s

unfoldable pub decode_entities : Text → Text
unfolding replace_text
decode_entities s =
    let s₁ = replace_text (codes "&amp;") (codes "&") s in
    let s₂ = replace_text (codes "&gt;") (codes ">") (replace_text (codes "&lt;") (codes "<") s₁) in
    let s₃ = replace_text (codes "&quot;") (b'"' ∷ []) s₂ in
    replace_text (codes "&nbsp;") (codes " ") (replace_text (codes "&#39;") (codes "'") s₃)

-- `s.replace(/[ \t]+/g, " ")`; the flag says that a blank was just written.
unfoldable pub collapse_blanks : Bool → Text → Text
collapse_blanks after [] = []
collapse_blanks after (c ∷ s) =
    let more = collapse_blanks true s in
    let other = collapse_blanks false s in
    if c == b' ' || c == 9 then (if after then more else b' ' ∷ more) else c ∷ other

-- `s.replace(/\n{3,}/g, "\n\n")`: of a run of line breaks, at most two are kept.
unfoldable pub collapse_lines : ℕ → Text → Text
collapse_lines run [] = []
collapse_lines run (c ∷ s) =
    let more = collapse_lines (suc run) s in
    let other = collapse_lines 0 s in
    if c == 10 then (if leb 2 run then more else 10 ∷ more) else c ∷ other

unfoldable pub strip_html : Text → Text
unfolding replace_all match_break match_block_end match_tag decode_entities collapse_blanks
    collapse_lines trim
strip_html html =
    let s₁ = replace_all match_block_end (10 ∷ []) 0 (replace_all match_break (10 ∷ []) 0 html) in
    let s₂ = decode_entities (replace_all match_tag [] 0 s₁) in
    trim (collapse_lines 0 (collapse_blanks false s₂))

-- What the loop over the steps has written.
pub record Steps : Type 0 where
  pub lines : List Text
  pub image_urls : List Text
  pub step_num : ℕ

unfoldable pub no_steps : Steps
no_steps = record { lines = []; image_urls = []; step_num = 1 }

unfoldable pub add_step : Text → Option Text → Steps → Steps
unfolding decimal
add_step t image st =
    let line = decimal st.step_num ++ codes ". " ++ t in
    let next = record st { lines = st.lines ++ line ∷ []; step_num = suc st.step_num } in
    elim image [
      | none ↦ next
      | some url ↦ if is_empty url then next else record next {
        lines = next.lines ++ (codes "![](" ++ url ++ codes ")") ∷ [];
        image_urls = next.image_urls ++ url ∷ [];
      }
    ]

module _ (to_string : Json → Text) where
  -- A step whose text is in the field with this name.
  unfoldable pub add_field : Text → Fields → Steps → Steps
  unfolding add_step strip_html extract_step_image_url member
  add_field name fs st =
      add_step (strip_html (to_string (member name fs)))
        (extract_step_image_url to_string (member (codes "image") fs)) st

  -- The loop over the steps of a section.
  unfoldable pub add_section : Items → Steps → Steps
  unfolding add_field add_step strip_html member is_truthy
  add_section nil st = st
  add_section (cons (text s) xs) st = add_section xs (add_step (strip_html s) none st)
  add_section (cons (object fs) xs) st =
      add_section xs
        (if is_truthy (member (codes "text") fs) then add_field (codes "text") fs st else st)
  add_section (cons x xs) st = add_section xs st

  unfoldable pub add_how_to : Fields → Steps → Steps
  unfolding add_field add_section member is_truthy
  add_how_to fs st =
      let elements = member (codes "itemListElement") fs in
      let st₁ =
        if is_truthy (member (codes "text") fs)
        then add_field (codes "text") fs st
        else if is_truthy (member (codes "name") fs) && not (is_truthy elements)
        then add_field (codes "name") fs st
        else st in
      elim elements [ array xs ↦ add_section xs st₁ | _ ↦ st₁ ]

  unfoldable pub add_items : Items → Steps → Steps
  unfolding add_how_to add_step strip_html
  add_items nil st = st
  add_items (cons (text s) xs) st = add_items xs (add_step (strip_html s) none st)
  add_items (cons (object fs) xs) st = add_items xs (add_how_to fs st)
  add_items (cons x xs) st = add_items xs st

  -- The text, and the addresses of the images of the steps.
  unfoldable pub normalize_instructions : Json → Text × List Text
  unfolding add_items no_steps strip_html join
  normalize_instructions (text s) = (if is_empty s then [] else strip_html s, [])
  normalize_instructions (array xs) =
      let st = add_items xs no_steps in (join (10 ∷ []) st.lines, st.image_urls)
  normalize_instructions _ = ([], [])
