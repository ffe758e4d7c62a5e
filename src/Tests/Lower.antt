-- ===== src/Tests/Lower.antt =====
-- A lower-casing function for the tests.
use lunch_loxs.Prelude.{◌≡◌, refl, ap, true, [], ◌∷◌, arith, Text, all, is_digit}
use lunch_loxs.Units.Names.{FixesPlain}
use lunch_loxs.Export.Table.{fold_case}
use lunch_loxs.Export.Distinct.{KeepsDigits}

-- `toLowerCase` on ASCII.
abbrev pub ascii_lower : Text → Text
ascii_lower [] = []
ascii_lower (c ∷ s) = fold_case c ∷ ascii_lower s

pub ascii_lower_plain : FixesPlain ascii_lower
unfolding fold_case
ascii_lower_plain [] h = refl
ascii_lower_plain (c ∷ s) h = ground (arith, h, ascii_lower_plain s)

ascii_lower_digits : (d : Text) → all is_digit d ≡ true → ascii_lower d ≡ d
unfolding fold_case
ascii_lower_digits [] h = refl
ascii_lower_digits (c ∷ d) h = ground (arith, h, ascii_lower_digits d)

pub ascii_lower_keeps : KeepsDigits ascii_lower
unfolding fold_case
ascii_lower_keeps [] d h = ap (λ t. b' ' ∷ t) (ascii_lower_digits d h)
ascii_lower_keeps (c ∷ s) d h = ap (λ t. fold_case c ∷ t) (ascii_lower_keeps s d h)
