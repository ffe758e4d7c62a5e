-- ===== src/Search/Ranking.antt =====
-- frontend/src/lib/search.ts: what a search returns.
use lunch_loxs.Prelude.{
  false, lt→ltb, ap, sym, subst, ◌⊎◌, All-at, is_empty, ℕ, zero, suc, ◌≤◌, ◌<◌, ◌≡◌, refl, List, [],
  ◌∷◌, Text, arith, length, take, All, ltb, length-take-le, ltb→lt, Bool-cases, inl, inr,
}
use mathlib.Core.List.{Memᴰ}
use mathlib.Core.List.Memᴰ.{head, tail}
use lunch_loxs.Search.Words.{HasWord, score_entry_pos}
use lunch_loxs.Search.Index.{
  SearchEntry, SearchResult, Index, values, insert_result, sort_from, score_entry, phrase_bonus,
  score_tokens, matches, search_index, split_words,
}

-- No result has a lower score than one after it.
abbrev pub IsRanked : List SearchResult → Type 0
IsRanked [] = Unit {0}
IsRanked (r ∷ rs) = All (λ s. s.score ≤ r.score) rs × IsRanked rs

module _ (P : SearchResult → Type 0) where
  All-insert_result :
      (r : SearchResult) (rs : List SearchResult) → P r → All P rs → All P (insert_result r rs)
  unfolding insert_result
  All-insert_result r [] h k = (h, tt)
  All-insert_result r (s ∷ rs) h k = ground (arith, All-insert_result r rs h k.1)

  All-sort_from :
      (sorted rs : List SearchResult) → All P sorted → All P rs → All P (sort_from sorted rs)
  unfolding sort_from
  All-sort_from sorted [] h k = h
  All-sort_from sorted (r ∷ rs) h k =
      All-sort_from (insert_result r sorted) rs (All-insert_result r sorted k.0 h) k.1

  All-take : (n : ℕ) (rs : List SearchResult) → All P rs → All P (take n rs)
  All-take zero rs h = tt
  All-take (suc n) [] h = tt
  All-take (suc n) (r ∷ rs) h = (h.0, All-take n rs h.1)

All-le_mono :
    (a b : ℕ) (rs : List SearchResult)
    → a ≤ b
    → All (λ s. s.score ≤ a) rs
    → All (λ s. s.score ≤ b) rs
All-le_mono a b [] h k = tt
All-le_mono a b (r ∷ rs) h k = (omega arith, All-le_mono a b rs h k.1)

insert_result-IsRanked :
    (r : SearchResult) (rs : List SearchResult) → IsRanked rs → IsRanked (insert_result r rs)
unfolding insert_result
insert_result-IsRanked r [] h = (tt, tt)
insert_result-IsRanked r (s ∷ rs) h = ground (
  arith,
  insert_result-IsRanked r rs h.1,
  All-le_mono s.score r.score rs,
  All-insert_result (λ t. t.score ≤ s.score) r rs,
)

sort_from-IsRanked :
    (sorted rs : List SearchResult) → IsRanked sorted → IsRanked (sort_from sorted rs)
unfolding sort_from
sort_from-IsRanked sorted [] h = h
sort_from-IsRanked sorted (r ∷ rs) h =
    sort_from-IsRanked (insert_result r sorted) rs (insert_result-IsRanked r sorted h)

take-IsRanked : (n : ℕ) (rs : List SearchResult) → IsRanked rs → IsRanked (take n rs)
take-IsRanked zero rs h = tt
take-IsRanked (suc n) [] h = tt
take-IsRanked (suc n) (r ∷ rs) h =
    (All-take (λ s. s.score ≤ r.score) n rs h.0, take-IsRanked n rs h.1)

insert_result-mem :
    (r q : SearchResult) (rs : List SearchResult)
    → (q ≡ r) ⊎ Memᴰ q rs
    → Memᴰ q (insert_result r rs)
unfolding insert_result
insert_result-mem r q [] (inl e) = Memᴰ.head e
insert_result-mem r q [] (inr m) = elim m [ ]
insert_result-mem r q (s ∷ rs) m = elim (Bool-cases (ltb s.score r.score)) [
  | inl l ↦ rw (l, insert_result) (elim m [ inl e ↦ Memᴰ.head e | inr n ↦ Memᴰ.tail n ])
  | inr l ↦
      rw (l, insert_result)
        (elim m [
          | inl e ↦ Memᴰ.tail (insert_result-mem r q rs (inl e))
          | inr (head e) ↦ Memᴰ.head e
          | inr (tail n) ↦ Memᴰ.tail (insert_result-mem r q rs (inr n))
        ])
]

sort_from-mem :
    (q : SearchResult) (sorted rs : List SearchResult)
    → Memᴰ q sorted ⊎ Memᴰ q rs
    → Memᴰ q (sort_from sorted rs)
unfolding sort_from
sort_from-mem q sorted [] (inl m) = m
sort_from-mem q sorted [] (inr m) = elim m [ ]
sort_from-mem q sorted (r ∷ rs) (inl m) =
    sort_from-mem q (insert_result r sorted) rs (inl (insert_result-mem r q sorted (inr m)))
sort_from-mem q sorted (r ∷ rs) (inr (head e)) =
    sort_from-mem q (insert_result r sorted) rs (inl (insert_result-mem r q sorted (inl e)))
sort_from-mem q sorted (r ∷ rs) (inr (tail m)) = sort_from-mem q (insert_result r sorted) rs (inr m)

-- What is cut off a ranked list is cut off for as many results as are kept, none of them worse.
take-mem :
    (n : ℕ) (q : SearchResult) (rs : List SearchResult)
    → IsRanked rs
    → Memᴰ q rs
    → Memᴰ q (take n rs) ⊎ ((length (take n rs) ≡ n) × All (λ r. q.score ≤ r.score) (take n rs))
take-mem zero q rs h m = inr (refl, tt)
take-mem (suc n) q [] h m = elim m [ ]
take-mem (suc n) q (r ∷ rs) h (head e) = inl (Memᴰ.head e)
take-mem (suc n) q (r ∷ rs) h (tail m) = elim (take-mem n q rs h.1 m) [
  | inl k ↦ inl (Memᴰ.tail k)
  | inr (full, better) ↦
      inr (omega (arith, full), (All-at (λ s. s.score ≤ r.score) q rs h.0 m, better))
]

module _ (lower : ℕ → Text) where
  -- A result is an entry that was searched and has one of the words, with the positive score of its
  -- entry.
  pub record IsMatch (tokens : List Text) (es : List SearchEntry) (r : SearchResult) : Type 0 where
    pub listed : Memᴰ r.entry es
    pub worded : HasWord lower tokens r.entry
    pub scored : r.score ≡ (score_entry lower tokens r.entry).total
    pub positive : 0 < r.score

  -- An entry is found, or as many as may be are, none of which has a lower score.
  pub data IsFound (score limit : ℕ) (e : SearchEntry) (found : List SearchResult) : Type 0 where
    returned : (r : SearchResult) → Memᴰ r found → r.entry ≡ e → IsFound score limit e found
    outranked :
        length found ≡ limit → All (λ r. score ≤ r.score) found → IsFound score limit e found

  All-IsMatch-cons :
      (tokens : List Text) (e : SearchEntry) (es : List SearchEntry) (rs : List SearchResult)
      → All (IsMatch tokens es) rs
      → All (IsMatch tokens (e ∷ es)) rs
  All-IsMatch-cons tokens e es [] h = tt
  All-IsMatch-cons tokens e es (r ∷ rs) (m, h) = (
    record {
      listed = Memᴰ.tail m.listed;
      worded = m.worded;
      scored = m.scored;
      positive = m.positive;
    },
    All-IsMatch-cons tokens e es rs h,
  )

  matches-IsMatch :
      (tokens : List Text) (es : List SearchEntry)
      → All (IsMatch tokens es) (matches lower tokens es)
  unfolding matches
  matches-IsMatch tokens [] = tt
  matches-IsMatch tokens (e ∷ es) =
      let rest =
        All-IsMatch-cons tokens e es (matches lower tokens es) (matches-IsMatch tokens es) in
      elim (Bool-cases (ltb 0 (score_entry lower tokens e).total)) [
        | inl pos ↦
            let is_pos = ltb→lt 0 (score_entry lower tokens e).total pos in
            rw pos (
              record {
                listed = Memᴰ.head refl;
                worded = score_entry_pos lower tokens e is_pos;
                scored = refl;
                positive = is_pos;
              },
              rest,
            )
        | inr none_left ↦ rw none_left rest
      ]

  matches-mem :
      (tokens : List Text) (e : SearchEntry) (es : List SearchEntry)
      → Memᴰ e es
      → 0 < (score_entry lower tokens e).total
      → (r : SearchResult) × Memᴰ r (matches lower tokens es)
        × (r.entry ≡ e)
        × (r.score ≡ (score_entry lower tokens e).total)
  unfolding matches
  matches-mem tokens e [] m pos = elim m [ ]
  matches-mem tokens e (f ∷ es) (head same) pos =
      let pos' = subst (λ x. 0 < (score_entry lower tokens x).total) same pos in
      rw (lt→ltb 0 (score_entry lower tokens f).total pos')
        (_, Memᴰ.head refl, sym same, ap (λ x. (score_entry lower tokens x).total) (sym same))
  matches-mem tokens e (f ∷ es) (tail m) pos =
      let (r, k, same, scored) = matches-mem tokens e es m pos in
      elim (Bool-cases (ltb 0 (score_entry lower tokens f).total)) [
        | inl l ↦ rw l (r, Memᴰ.tail k, same, scored)
        | inr l ↦ rw l (r, k, same, scored)
      ]

  -- No word, no score.
  no_word : (e : SearchEntry) → (score_entry lower [] e).total ≡ 0
  unfolding score_entry phrase_bonus score_tokens
  no_word e = ground arith

  kept-IsFound :
      (tokens : List Text) (limit : ℕ) (e : SearchEntry) (es : List SearchEntry)
      → Memᴰ e es
      → 0 < (score_entry lower tokens e).total
      → IsFound
          (score_entry lower tokens e).total
          limit
          e
          (take limit (sort_from [] (matches lower tokens es)))
  kept-IsFound tokens limit e es m pos =
      let ms = matches lower tokens es in
      let (r, k, same, scored) = matches-mem tokens e es m pos in
      elim (take-mem limit r (sort_from [] ms) (sort_from-IsRanked [] ms tt)
        (sort_from-mem r [] ms (inr k))) [
          | inl kept ↦ returned r kept same
          | inr (full, better) ↦
              outranked full
                (subst (λ n. All (λ s. n ≤ s.score) (take limit (sort_from [] ms))) scored better)
        ]

tokens_cases : (ts : List Text) → (ts ≡ []) ⊎ (is_empty ts ≡ false)
tokens_cases [] = inl refl
tokens_cases (t ∷ ts) = inr refl

-- A search returns at most `limit` results, best first; each is an entry of the index with one of
-- the words of the query in its title, its book's name or a tag, with the positive score of that
-- entry; and every entry with a positive score is returned, or `limit` results are, none of which
-- has a lower score.
pub search_index_lem :
    (lower : ℕ → Text) (lower_all : Text → Text) (index : Index) (query : Text) (limit : ℕ)
    → let found = search_index lower lower_all index query limit in
      let tokens = split_words [] (lower_all query) in
      (length found ≤ limit)
      × IsRanked found
      × All (IsMatch lower tokens (values index)) found
      × ((e : SearchEntry)
          → Memᴰ e (values index)
          → 0 < (score_entry lower tokens e).total
          → IsFound lower (score_entry lower tokens e).total limit e found)
unfolding search_index
search_index_lem lower lower_all index query limit =
    let tokens = split_words [] (lower_all query) in
    let ms = matches lower tokens (values index) in
    elim (tokens_cases tokens) [
      | inl none_there ↦
          rw none_there
            (omega arith, tt, tt, λ e m pos. absurd (omega (arith, pos, no_word lower e)))
      | inr some_words ↦ rw some_words (
        length-take-le limit (sort_from [] ms),
        take-IsRanked limit (sort_from [] ms) (sort_from-IsRanked [] ms tt),
        All-take _ limit (sort_from [] ms)
            (All-sort_from _ [] ms tt (matches-IsMatch lower tokens (values index))),
        λ e m pos. kept-IsFound lower tokens limit e (values index) m pos,
      )
    ]
