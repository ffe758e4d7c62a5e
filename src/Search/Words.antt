-- ===== src/Search/Words.antt =====
-- frontend/src/lib/search.ts: what a positive score of an entry says of its texts.
use lunch_loxs.Prelude.{
  ℕ, ◌+◌, ◌*◌, ◌<◌, false, ◌≡◌, refl, ◌⊎◌, inl, inr, List, [], ◌∷◌, none, some, Text, arith, ltb,
  Bool-cases, ltb→lt, if◌then◌else◌,
}
use mathlib.Core.List.{Memᴰ}
use lunch_loxs.Search.Score.{fzf_score}
use lunch_loxs.Search.Matching.{IsSubsequence, fzf_score_pos}
use lunch_loxs.Search.Index.{
  SearchEntry, TokenScore, tag_field, title_field, better, score_tags, score_token, EntryScore,
  score_tokens, phrase_bonus, score_entry,
}

abbrev pub texts_of : SearchEntry → List Text
texts_of e = e.title ∷ e.book_name ∷ e.tags

module _ (lower : ℕ → Text) where
  -- The characters of a word stand in their order in one of the texts.
  pub record IsWordIn (token : Text) (fields : List Text) : Type 0 where
    pub field : Text
    pub listed : Memᴰ field fields
    pub within : IsSubsequence lower token field

  -- One of the words is in the title, the book's name or a tag.
  pub record HasWord (tokens : List Text) (e : SearchEntry) : Type 0 where
    pub token : Text
    pub asked : Memᴰ token tokens
    pub inside : IsWordIn token (texts_of e)

  in_more : (token g : Text) (fs : List Text) → IsWordIn token fs → IsWordIn token (g ∷ fs)
  in_more token g fs h = record { field = h.field; listed = Memᴰ.tail h.listed; within = h.within }

  in_first :
      (token f : Text) (fs : List Text) → 0 < fzf_score lower token f → IsWordIn token (f ∷ fs)
  in_first token f fs h = record {
    field = f;
    listed = Memᴰ.head refl;
    within = fzf_score_pos lower token f h;
  }

  score_tags_pos :
      (token : Text) (tags : List Text) (best : TokenScore)
      → 0 < (score_tags lower token tags best).score
      → (0 < best.score) ⊎ IsWordIn token tags
  unfolding score_tags better
  score_tags_pos token [] best h = inl h
  score_tags_pos token (t ∷ tags) best h =
      let new : TokenScore = record {
        score = fzf_score lower token t * 3;
        field = tag_field;
        tag = some t;
      } in
      elim (score_tags_pos token tags (better best new) h) [
        | inr w ↦ inr (in_more token t tags w)
        | inl pos ↦ elim (Bool-cases (ltb best.score new.score)) [
          | inl l ↦ inr (in_first token t tags (ground (arith, l)))
          | inr l ↦ inl (ground (arith, l, pos))
        ]
      ]

  score_token_pos :
      (token : Text) (e : SearchEntry)
      → 0 < (score_token lower token e).score
      → IsWordIn token (texts_of e)
  unfolding score_token better
  score_token_pos token e h =
      let start : TokenScore = record { score = 0; field = title_field; tag = none } in
      let of_title =
        better start
          (record { score = fzf_score lower token e.title * 4; field = title_field; tag = none }) in
      let of_tags = score_tags lower token e.tags of_title in
      elim (Bool-cases (ltb of_tags.score (fzf_score lower token e.book_name))) [
        | inl l ↦ in_more token e.title _ (in_first token e.book_name e.tags (ground (arith, l)))
        | inr l ↦ elim (score_tags_pos token e.tags of_title (ground (arith, l, h))) [
          | inl pos ↦ in_first token e.title _ (ground (arith, pos))
          | inr w ↦ in_more token e.title _ (in_more token e.book_name _ w)
        ]
      ]

  after_pos :
      (s : EntryScore) (ts : TokenScore)
      → ltb 0 ts.score ≡ false
      → let next : EntryScore =
          if ltb s.best_field_score ts.score
          then record {
            total = s.total + ts.score;
            best_field = ts.field;
            best_field_score = ts.score;
            match_tag = ts.tag;
          }
          else record s { total = s.total + ts.score } in
        0 < next.total → 0 < s.total
  after_pos s ts l pos = ground (arith, l, pos)

  score_tokens_pos :
      (tokens : List Text) (e : SearchEntry) (s : EntryScore)
      → 0 < (score_tokens lower tokens e s).total
      → (0 < s.total) ⊎ HasWord tokens e
  unfolding score_tokens
  score_tokens_pos [] e s h = inl h
  score_tokens_pos (t ∷ tokens) e s h = elim (score_tokens_pos tokens e _ h) [
    | inr w ↦ inr (record { token = w.token; asked = Memᴰ.tail w.asked; inside = w.inside })
    | inl pos ↦ elim (Bool-cases (ltb 0 (score_token lower t e).score)) [
      | inl l ↦ inr (record {
        token = t;
        asked = Memᴰ.head refl;
        inside = score_token_pos t e (ltb→lt 0 (score_token lower t e).score l);
      })
      | inr l ↦ inl (after_pos s (score_token lower t e) l pos)
    ]
  ]

  -- An entry has a positive score only if it has one of the words.
  pub score_entry_pos :
      (tokens : List Text) (e : SearchEntry)
      → 0 < (score_entry lower tokens e).total
      → HasWord tokens e
  unfolding score_entry phrase_bonus
  score_entry_pos tokens e h =
      let start : EntryScore = record {
        total = 0;
        best_field = title_field;
        best_field_score = 0;
        match_tag = none;
      } in
      elim (score_tokens_pos tokens e start (ground (arith, h))) [
        | inl pos ↦ absurd (omega (arith, pos))
        | inr w ↦ w
      ]
