-- ===== src/Tests/Searches.antt =====
-- Searches over a small index, and instances of the theorems about them.
use mathlib.Core.List.{Memᴰ}
use lunch_loxs.Prelude.{
  ◌<◌, ℕ, ◌≤◌, ◌≡◌, ◌↔◌, refl, true, [], ◌∷◌, none, Text, codes, text_eq, is_some, length, All,
}
use lunch_loxs.Search.Score.{same_char, forward, fzf_score}
use lunch_loxs.Search.Index.{
  SearchEntry, Index, entry_key, search_index, score_entry, split_words, values,
}
use lunch_loxs.Search.Matching.{IsSubsequence, forward_iff}
use lunch_loxs.Search.Bounds.{fzf_score-le}
use lunch_loxs.Search.Ranking.{IsRanked, IsMatch, IsFound, search_index_lem}

-- Letters as they are.
abbrev same : ℕ → Text
same c = c ∷ []

abbrev soup : SearchEntry
soup = record {
  recipe_id = codes "r1";
  vault_id = codes "v1";
  book_name = codes "family";
  title = codes "tomato soup";
  tags = codes "vegan" ∷ [];
}

abbrev small_index : Index
small_index = (entry_key soup, soup) ∷ []

forward_iff_example :
    (is_some (forward same (codes "ts") (codes "tomato soup") 0 none) ≡ true)
    ↔ IsSubsequence same (codes "ts") (codes "tomato soup")
forward_iff_example = forward_iff same (codes "ts") (codes "tomato soup") 0 none

fzf_score-le_example : fzf_score same (codes "ts") (codes "tomato soup") ≤ 62
fzf_score-le_example = fzf_score-le same (codes "ts") (codes "tomato soup")

search_index_lem_example :
    let found = search_index same (λ t. t) small_index (codes "soup") 10 in
    let tokens = split_words [] (codes "soup") in
    (length found ≤ 10)
    × IsRanked found
    × All (IsMatch same tokens (values small_index)) found
    × ((e : SearchEntry)
        → Memᴰ e (values small_index)
        → 0 < (score_entry same tokens e).total
        → IsFound same (score_entry same tokens e).total 10 e found)
search_index_lem_example = search_index_lem same (λ t. t) small_index (codes "soup") 10

search_finds_soup : length (search_index same (λ t. t) small_index (codes "soup") 10) ≡ 1
unfolding search_index same_char text_eq
search_finds_soup = refl
