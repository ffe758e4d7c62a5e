-- ===== src/Prelude/Decimal.antt =====
-- JavaScript's `String(n)` for a natural number.
use Prim.Native.Nat.{ℕ, zero, suc, ◌+◌, ◌-◌, ◌*◌, ◌/◌, ◌%◌, ◌<◌}
use mathlib.Core.Path.{◌≡◌, refl, sym, ap, ◌∙◌}
use mathlib.Core.Bool.{Bool, true, false, ◌&&◌}
use mathlib.Core.List.{[], ◌∷◌, ◌++◌}
use native.Mathlib.Omega.{arith}
use lunch_loxs.Prelude.Tests.{ltb, leb, if◌then◌else◌}
use lunch_loxs.Prelude.Lists.{is_empty, all, all-append}
use lunch_loxs.Prelude.Texts.{Text}

-- The digits of `n`; `n + 1` of them are enough.
unfoldable pub spelled : ℕ → ℕ → Text
spelled zero n = []
spelled (suc fuel) n =
    let rest = spelled fuel (n / 10) in
    if ltb n 10 then (b'0' + n) ∷ [] else rest ++ (b'0' + n % 10) ∷ []

unfoldable pub decimal : ℕ → Text
unfolding spelled
decimal n = spelled (suc n) n

-- The number that digits spell behind `n`; `parseInt(digits, 10)` for `n = 0`
unfoldable pub value_after : ℕ → Text → ℕ
value_after n [] = n
value_after n (c ∷ s) = value_after (n * 10 + (c - b'0')) s

value_after-snoc :
    (n : ℕ) (s : Text) (c : ℕ) → value_after n (s ++ c ∷ []) ≡ value_after n s * 10 + (c - b'0')
unfolding value_after
value_after-snoc n [] c = refl
value_after-snoc n (d ∷ s) c = value_after-snoc (n * 10 + (d - b'0')) s c

value-spelled : (fuel n : ℕ) → n < fuel → value_after 0 (spelled fuel n) ≡ n
unfolding spelled value_after
value-spelled zero n h = absurd (omega (arith, h))
value-spelled (suc fuel) n h =
    ground (
      arith,
      value-spelled fuel (n / 10),
      value_after-snoc 0 (spelled fuel (n / 10)) (b'0' + n % 10),
    )

pub value_after-decimal : (n : ℕ) → value_after 0 (decimal n) ≡ n
unfolding decimal
value_after-decimal n = value-spelled (suc n) n (omega arith)

is_empty-snoc : (s : Text) (c : ℕ) → is_empty (s ++ c ∷ []) ≡ false
is_empty-snoc [] c = refl
is_empty-snoc (d ∷ s) c = refl

pub is_empty-decimal : (n : ℕ) → is_empty (decimal n) ≡ false
unfolding decimal spelled
is_empty-decimal n = ground (arith, is_empty-snoc (spelled n (n / 10)) (b'0' + n % 10))

-- Different numbers have different numerals.
pub decimal-injective : (m n : ℕ) → decimal m ≡ decimal n → m ≡ n
decimal-injective m n e = sym (value_after-decimal m) ∙ ap (value_after 0) e ∙ value_after-decimal n

abbrev pub is_digit : ℕ → Bool
is_digit c = leb b'0' c && leb c b'9'

all-spelled : (fuel n : ℕ) → all is_digit (spelled fuel n) ≡ true
unfolding spelled
all-spelled zero n = refl
all-spelled (suc fuel) n = ground (
  arith,
  all-spelled fuel (n / 10),
  all-append is_digit (spelled fuel (n / 10)) ((b'0' + n % 10) ∷ []),
)

pub all-decimal : (n : ℕ) → all is_digit (decimal n) ≡ true
unfolding decimal
all-decimal n = all-spelled (suc n) n
