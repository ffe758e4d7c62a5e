-- ===== src/Export/Titles.antt =====
-- frontend/src/lib/export.ts: the title of a recipe, written and read back.
use lunch_loxs.Prelude.{
  ℕ, ◌<◌, ◌≤◌, ◌≡◌, refl, sym, ap, ◌∙◌, ◌↔◌, true, false, [], ◌∷◌, ◌++◌, Option, some, Text, codes,
  arith, length, any, lacks, Bool-cases, inl, inr, text_eq, drop_spaces, is_space,
}
use lunch_loxs.Export.Markdown.{quote, escape_quotes, quoted, title_line}
use lunch_loxs.Export.FrontMatter.{
  is_line_end, cut_key, read_raw, without_last, ends_with_quote, unquote, read_field, read_line,
  Parsed, is_word_char,
}

pub without_last-snoc : (s : Text) (c : ℕ) → without_last (s ++ c ∷ []) ≡ s
unfolding without_last
without_last-snoc [] c = refl
without_last-snoc (a ∷ []) c = refl
without_last-snoc (a ∷ b ∷ s) c = ap (λ t. a ∷ t) (without_last-snoc (b ∷ s) c)

ends_with_quote-snoc : (s : Text) → ends_with_quote (s ++ quote ∷ []) ≡ true
ends_with_quote-snoc [] = refl
ends_with_quote-snoc (a ∷ []) = refl
ends_with_quote-snoc (a ∷ b ∷ s) = ends_with_quote-snoc (b ∷ s)

any-quoted :
    (t : Text) → any is_line_end t ≡ false → any is_line_end (escape_quotes t ++ quote ∷ []) ≡ false
unfolding escape_quotes
any-quoted [] h = refl
any-quoted (c ∷ t) h = ground (arith, any-quoted t)

unquote-quoted : (t : Text) → any is_line_end t ≡ false → unquote (quoted t) ≡ escape_quotes t
unfolding unquote quoted
unquote-quoted t h = ground (
  arith,
  any-quoted t h,
  ends_with_quote-snoc (escape_quotes t),
  without_last-snoc (escape_quotes t) quote,
)

read_raw-quoted :
    (t : Text) → any is_line_end t ≡ false → read_raw (b' ' ∷ quoted t) ≡ some (quoted t)
unfolding read_raw quoted drop_spaces is_space
read_raw-quoted t h = ground (arith, any-quoted t h)

cut_key-title_line : (t : Text) → cut_key (title_line t) ≡ some (codes "title", b' ' ∷ quoted t)
unfolding cut_key title_line is_word_char
cut_key-title_line t = refl

-- The line of a title is read as the title with its quotes escaped.
read-title_line :
    (time_of : Text → Option ℕ) (now : ℕ) (t : Text) (m : Parsed)
    → any is_line_end t ≡ false
    → (read_line time_of now (title_line t) m).title ≡ some (escape_quotes t)
unfolding read_line read_field text_eq
read-title_line time_of now t m h =
    ground (arith, cut_key-title_line t, read_raw-quoted t h, unquote-quoted t h)

length-escape_quotes : (t : Text) → length t ≤ length (escape_quotes t)
unfolding escape_quotes
length-escape_quotes [] = omega arith
length-escape_quotes (c ∷ t) = ground (arith, length-escape_quotes t)

-- Escaping changes a text exactly when it has a quote.
escape_longer : (t : Text) → lacks quote t ≡ false → length t < length (escape_quotes t)
unfolding escape_quotes
escape_longer [] h = cc
escape_longer (c ∷ t) h = ground (arith, escape_longer t, length-escape_quotes t)

escape_same : (t : Text) → lacks quote t ≡ true → escape_quotes t ≡ t
unfolding escape_quotes
escape_same [] h = refl
escape_same (c ∷ t) h = ground (arith, escape_same t)

some_injective : (s t : Text) → some s ≡ some t → s ≡ t
some_injective s t e = cc

-- The line of a title without line ends gives the title back exactly when it has no double quote.
pub title_kept_iff :
    (time_of : Text → Option ℕ) (now : ℕ) (t : Text) (m : Parsed)
    → any is_line_end t ≡ false
    → ((read_line time_of now (title_line t) m).title ≡ some t) ↔ (lacks quote t ≡ true)
title_kept_iff time_of now t m h =
    let read = read-title_line time_of now t m h in
    (
      λ e. elim (Bool-cases (lacks quote t)) [
        | inl l ↦ l
        | inr l ↦ absurd (
            omega (
              arith,
              escape_longer t l,
              ap length (some_injective (escape_quotes t) t (sym read ∙ e)),
            ))
      ],
      λ l. read ∙ ap some (escape_same t l),
    )
