-- ===== src/Units/Fractions.antt =====
-- Fractions that are not negative, as far as conversions need them. Factors are in ten-thousandths.
use Prim.Native.Nat.{◌/◌}
use native.Mathlib.Nat.{mul-le-mul_right}
use lunch_loxs.Prelude.{ℕ, zero, suc, ◌+◌, ◌*◌, ◌≤◌, ◌<◌, ◌≡◌, Bool, true, false, arith, ltb}

pub record Fraction : Type 0 where
  pub num : ℕ
  pub den : ℕ

abbrev pub three_quarters : Fraction
three_quarters = record { num = 3; den = 4 }

unfoldable pub is_lt : Fraction → Fraction → Bool
is_lt a b = ltb (a.num * b.den) (b.num * a.den)

abbrev pub scale : ℕ
scale = 10000

-- `q * factor` and `q / factor`
unfoldable pub times : Fraction → ℕ → Fraction
times q factor = record { num = q.num * factor; den = q.den * scale }

unfoldable pub over : Fraction → ℕ → Fraction
over q factor = record { num = q.num * scale; den = q.den * factor }

-- `Math.round(q * k) / k`
unfoldable pub round_to : ℕ → Fraction → Fraction
round_to k q = record { num = (2 * k * q.num + q.den) / (2 * q.den); den = k }

-- `x < y` and `y ≤ z` give `x ≤ z`, by cross-multiplication.
cross_trans : (a b c d e f : ℕ) → a * d < c * b → c * f ≤ e * d → e * b < a * f → ⊥
cross_trans a b c d e zero h k l = omega arith
cross_trans a b c d e (suc f) h k l =
    omega (arith, mul-le-mul_right (suc f) h, mul-le-mul_right b k, mul-le-mul_right d l)

pub is_lt_trans : (x y z : Fraction) → is_lt x y ≡ true → is_lt z y ≡ false → is_lt z x ≡ false
unfolding is_lt
is_lt_trans x y z h k = ground (arith, cross_trans x.num x.den y.num y.den z.num z.den)

-- A rounded fraction is the nearest with its denominator: it is off by at most half a unit.
pub round_to_nearest :
    (k : ℕ) (q : Fraction)
    → 0 < q.den
    → (2 * (round_to k q).num * q.den ≤ 2 * k * q.num + q.den)
      × (2 * k * q.num < 2 * (round_to k q).num * q.den + q.den)
unfolding round_to
round_to_nearest k q h = grind arith
