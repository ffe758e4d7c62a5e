-- ===== src/Search/Index.antt =====
-- frontend/src/lib/search.ts: the index of recipes, the score of an entry and the search. `lower` is
-- `toLowerCase` on one code unit, and `lower_all` on a text. The hybrid search, which asks the
-- embedding worker first, is not modelled.
use lunch_loxs.Prelude.{
  is_space, is_empty, ℕ, ◌+◌, ◌*◌, ◌&&◌, not, List, [], ◌∷◌, ◌++◌, Option, none, some, Text, codes,
  if◌then◌else◌, ltb, length, take, keep_if, starts_with,
}
use lunch_loxs.Prelude.Maps
use lunch_loxs.Search.Score.{fzf_score}

pub record SearchEntry : Type 0 where
  pub recipe_id : Text
  pub vault_id : Text
  pub book_name : Text
  pub title : Text
  pub tags : List Text

pub data MatchField : Type 0 where
  title_field tag_field book_field : MatchField

pub record SearchResult : Type 0 where
  pub entry : SearchEntry
  pub score : ℕ
  pub match_field : MatchField
  pub match_tag : Option Text

-- The index is a map from `vaultId/recipeId`.
abbrev pub Index : Type 0
Index = List (Text × SearchEntry)

abbrev pub entry_key : SearchEntry → Text
entry_key e = e.vault_id ++ (codes "/" ++ e.recipe_id)

unfoldable pub index_recipe : SearchEntry → Index → Index
index_recipe e index = Maps.set (entry_key e) e index

unfoldable pub remove_book_from_index : Text → Index → Index
remove_book_from_index v index = keep_if (λ kv. not (starts_with kv.0 (v ++ codes "/"))) index

unfoldable pub get_index_size : Index → ℕ
get_index_size index = length index

abbrev pub values : Index → List SearchEntry
values [] = []
values ((k, e) ∷ index) = e ∷ values index

-- The best weighted score of one token, with its field.
pub record TokenScore : Type 0 where
  pub score : ℕ
  pub field : MatchField
  pub tag : Option Text

-- `if (s > best) { … }`
unfoldable pub better : TokenScore → TokenScore → TokenScore
better best new = if ltb best.score new.score then new else best

-- `s.split(/\s+/).filter(Boolean)`, with the token that is being read
unfoldable pub split_words : Text → Text → List Text
unfolding is_space
split_words cur [] = if is_empty cur then [] else cur ∷ []
split_words cur (c ∷ s) =
    let gap = is_space c in
    let rest = split_words (if gap then [] else cur ++ c ∷ []) s in
    if gap && not (is_empty cur) then cur ∷ rest else rest

-- `tokens.join(" ")`
unfoldable pub join_words : List Text → Text
join_words [] = []
join_words (t ∷ []) = t
join_words (t ∷ ts) = t ++ (codes " " ++ join_words ts)

-- `results.sort((a, b) => b.score - a.score)`: the sort is stable.
unfoldable pub insert_result : SearchResult → List SearchResult → List SearchResult
insert_result r [] = r ∷ []
insert_result r (s ∷ rs) = if ltb s.score r.score then r ∷ s ∷ rs else s ∷ insert_result r rs

unfoldable pub sort_from : List SearchResult → List SearchResult → List SearchResult
unfolding insert_result
sort_from sorted [] = sorted
sort_from sorted (r ∷ rs) = sort_from (insert_result r sorted) rs

-- The variables of the loop over the tokens.
pub record EntryScore : Type 0 where
  pub total : ℕ
  pub best_field : MatchField
  pub best_field_score : ℕ
  pub match_tag : Option Text

module _ (lower : ℕ → Text) where
  unfoldable pub score_tags : Text → List Text → TokenScore → TokenScore
  unfolding better fzf_score
  score_tags token [] best = best
  score_tags token (t ∷ tags) best = score_tags token tags (
      better best (record { score = fzf_score lower token t * 3; field = tag_field; tag = some t }))

  unfoldable pub score_token : Text → SearchEntry → TokenScore
  unfolding score_tags better fzf_score
  score_token token e =
      let start : TokenScore = record { score = 0; field = title_field; tag = none } in
      let of_title =
        better start
          (record { score = fzf_score lower token e.title * 4; field = title_field; tag = none }) in
      let of_tags = score_tags token e.tags of_title in
      if ltb of_tags.score (fzf_score lower token e.book_name)
      then record {
        score = fzf_score lower token e.book_name;
        field = book_field;
        tag = of_tags.tag;
      }
      else of_tags

  unfoldable pub score_tokens : List Text → SearchEntry → EntryScore → EntryScore
  unfolding score_token
  score_tokens [] e s = s
  score_tokens (t ∷ tokens) e s =
      let ts = score_token t e in
      score_tokens tokens e (
        if ltb s.best_field_score ts.score
        then record {
          total = s.total + ts.score;
          best_field = ts.field;
          best_field_score = ts.score;
          match_tag = ts.tag;
        }
        else record s { total = s.total + ts.score })

  -- The bonus of a query of several words that matches one field as a phrase.
  unfoldable pub phrase_bonus : List Text → SearchEntry → EntryScore → EntryScore
  unfolding score_token join_words
  phrase_bonus tokens e s =
      let phrase = score_token (join_words tokens) e in
      if ltb 1 (length tokens) && ltb 0 s.total && ltb 0 phrase.score
      then record s {
        total = s.total + phrase.score;
        best_field = phrase.field;
        match_tag = phrase.tag;
      }
      else s

  unfoldable pub score_entry : List Text → SearchEntry → EntryScore
  unfolding score_tokens phrase_bonus
  score_entry tokens e = phrase_bonus tokens e (
      score_tokens tokens e
        (record { total = 0; best_field = title_field; best_field_score = 0; match_tag = none }))

  unfoldable pub matches : List Text → List SearchEntry → List SearchResult
  unfolding score_entry
  matches tokens [] = []
  matches tokens (e ∷ es) =
      let s = score_entry tokens e in
      let rest = matches tokens es in
      if ltb 0 s.total
      then record {
        entry = e;
        score = s.total;
        match_field = s.best_field;
        match_tag = s.match_tag;
      }
        ∷ rest
      else rest

  unfoldable pub search_index : (Text → Text) → Index → Text → ℕ → List SearchResult
  unfolding matches sort_from split_words
  search_index lower_all index query limit =
      let tokens = split_words [] (lower_all query) in
      if is_empty tokens then [] else take limit (sort_from [] (matches tokens (values index)))
