-- ===== src/Prelude/Split.antt =====
-- JavaScript's `trim`, `split` by one code unit, and `join`.
use Prim.Native.Nat.{ℕ, zero, suc}
use mathlib.Core.Path.{◌≡◌, refl}
use mathlib.Core.Bool.{Bool, true, ◌&&◌, not}
use mathlib.Core.List.{List, [], ◌∷◌, ◌++◌}
use native.Mathlib.Omega.{arith}
use lunch_loxs.Prelude.Tests.{◌==◌, if◌then◌else◌}
use lunch_loxs.Prelude.Lists.{is_empty, all, All}
use lunch_loxs.Prelude.Texts.{Text, is_space}

unfoldable pub drop_spaces : Text → Text
unfolding is_space
drop_spaces [] = []
drop_spaces (c ∷ s) = if is_space c then drop_spaces s else c ∷ s

unfoldable pub trim_end : Text → Text
unfolding is_space
trim_end [] = []
trim_end (c ∷ s) = let rest = trim_end s in if is_empty rest && is_space c then [] else c ∷ rest

-- `s.trim()`
unfoldable pub trim : Text → Text
unfolding drop_spaces trim_end
trim s = drop_spaces (trim_end s)

unfoldable pub cons_head : ℕ → List Text → List Text
cons_head c [] = (c ∷ []) ∷ []
cons_head c (w ∷ ws) = (c ∷ w) ∷ ws

-- `s.split(sep)`
unfoldable pub split : ℕ → Text → List Text
unfolding cons_head
split sep [] = [] ∷ []
split sep (c ∷ s) = let rest = split sep s in if c == sep then [] ∷ rest else cons_head c rest

-- `parts.join(sep)`
unfoldable pub join : Text → List Text → Text
join sep [] = []
join sep (w ∷ []) = w
join sep (w ∷ ws) = w ++ (sep ++ join sep ws)

abbrev pub spaces : ℕ → Text
spaces zero = []
spaces (suc n) = b' ' ∷ spaces n

-- The text does not hold the code unit.
abbrev pub lacks : ℕ → Text → Bool
lacks c s = all (λ d. not (d == c)) s

trim_end-spaces : (n : ℕ) → trim_end (spaces n) ≡ []
unfolding trim_end
trim_end-spaces zero = refl
trim_end-spaces (suc n) = ground (arith, trim_end-spaces n)

trim_end-append : (s : Text) (n : ℕ) → trim_end (s ++ spaces n) ≡ trim_end s
unfolding trim_end
trim_end-append [] n = trim_end-spaces n
trim_end-append (c ∷ s) n = ground (arith, trim_end-append s n)

drop_spaces-trim_end-cons : (s : Text) → trim (b' ' ∷ s) ≡ trim s
unfolding trim trim_end
drop_spaces-trim_end-cons s = ground arith

-- Padding is trimmed away.
pub trim_padded : (s : Text) (n : ℕ) → trim (b' ' ∷ (s ++ spaces n)) ≡ trim s
trim_padded s n =
    rw (drop_spaces-trim_end-cons (s ++ spaces n)) (unfold trim in rw (trim_end-append s n) refl)

pub split-lacks : (sep : ℕ) (w : Text) → lacks sep w ≡ true → split sep w ≡ w ∷ []
unfolding split
split-lacks sep [] h = refl
split-lacks sep (c ∷ w) h = ground (arith, split-lacks sep w)

pub split_at :
    (sep : ℕ) (w s : Text) → lacks sep w ≡ true → split sep (w ++ sep ∷ s) ≡ w ∷ split sep s
unfolding split
split_at sep [] s h = ground arith
split_at sep (c ∷ w) s h = ground (arith, split_at sep w s)

-- Splitting what was joined gives the parts back, if none holds the separator.
pub split-join :
    (sep : ℕ) (w : Text) (ws : List Text)
    → All (λ v. lacks sep v ≡ true) (w ∷ ws)
    → split sep (join (sep ∷ []) (w ∷ ws)) ≡ w ∷ ws
unfolding join
split-join sep w [] h = split-lacks sep w h.0
split-join sep w (v ∷ ws) h =
    ground (arith, split_at sep w (join (sep ∷ []) (v ∷ ws)) h.0, split-join sep v ws h.1)
