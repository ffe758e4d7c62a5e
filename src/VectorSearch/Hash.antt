-- ===== src/VectorSearch/Hash.antt =====
-- frontend/src/lib/vector-search.ts: what simpleHash computes.
use lunch_loxs.Prelude.{ℕ, ◌+◌, ◌*◌, ◌≡◌, refl, ap, ◌∙◌, [], ◌∷◌, Text, arith}
use Prim.Native.Nat.{◌%◌}
use lunch_loxs.VectorSearch.{word, hash_step, hash_from}

-- The polynomial at 31 whose coefficients are the code units, behind `a`.
abbrev pub polynomial : ℕ → Text → ℕ
polynomial a [] = a
polynomial a (c ∷ s) = polynomial (a * 31 + c) s

hash_step-mod : (a c : ℕ) → hash_step (a % word) c ≡ (a * 31 + c) % word
unfolding hash_step
hash_step-mod a c = omega arith

hash_from-mod : (a : ℕ) (s : Text) → hash_from (a % word) s ≡ polynomial a s % word
unfolding hash_from
hash_from-mod a [] = refl
hash_from-mod a (c ∷ s) = ap (λ h. hash_from h s) (hash_step-mod a c) ∙ hash_from-mod (a * 31 + c) s

-- The bits of the hash are those of the polynomial at 31, whatever the wrap-around on the way.
pub hash_from-eq-polynomial : (s : Text) → hash_from 0 s ≡ polynomial 0 s % word
hash_from-eq-polynomial s = hash_from-mod 0 s
