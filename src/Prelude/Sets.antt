-- ===== src/Prelude/Sets.antt =====
-- JavaScript's `Set<string>`: the elements in the order in which they were added.
use lunch_loxs.Prelude.{
  ◌≡◌, refl, Bool, false, not, ◌&&◌, ◌||◌, List, [], ◌∷◌, ◌++◌, arith, if◌then◌else◌, Text, text_eq,
  text_eq_iff, keep_if,
}

abbrev pub TextSet : Type 0
TextSet = List Text

unfoldable pub has : Text → TextSet → Bool
has k [] = false
has k (j ∷ s) = text_eq j k || has k s

unfoldable pub add : Text → TextSet → TextSet
add k [] = k ∷ []
add k (j ∷ s) = if text_eq j k then j ∷ s else j ∷ add k s

unfoldable pub remove : Text → TextSet → TextSet
remove k [] = []
remove k (j ∷ s) = if text_eq j k then remove k s else j ∷ remove k s

-- Several additions, first to last.
unfoldable pub add_all : List Text → TextSet → TextSet
add_all [] s = s
add_all (k ∷ ks) s = add_all ks (add k s)

pub has-add : (j k : Text) (s : TextSet) → has k (add j s) ≡ (text_eq j k || has k s)
unfolding has add
has-add j k [] = refl
has-add j k (i ∷ s) =
    ground (arith, text_eq_iff i j, text_eq_iff i k, text_eq_iff j k, has-add j k s)

pub has-remove : (j k : Text) (s : TextSet) → has k (remove j s) ≡ (not (text_eq j k) && has k s)
unfolding has remove
has-remove j k [] = ground arith
has-remove j k (i ∷ s) =
    ground (arith, text_eq_iff i j, text_eq_iff i k, text_eq_iff j k, has-remove j k s)

pub has-add_all :
    (ks : List Text) (k : Text) (s : TextSet) → has k (add_all ks s) ≡ (has k s || has k ks)
unfolding has add_all
has-add_all [] k s = ground arith
has-add_all (j ∷ ks) k s = ground (arith, has-add_all ks k (add j s), has-add j k s)

pub has-append : (k : Text) (s t : List Text) → has k (s ++ t) ≡ (has k s || has k t)
unfolding has
has-append k [] t = refl
has-append k (j ∷ s) t = ground (arith, has-append k s t)

pub has-keep_if :
    (p : Text → Bool) (k : Text) (s : TextSet) → has k (keep_if p s) ≡ (has k s && p k)
unfolding has
has-keep_if p k [] = refl
has-keep_if p k (j ∷ s) = ground (arith, has-keep_if p k s, text_eq_iff j k)

-- Every element occurs once.
abbrev pub IsDistinct : TextSet → Type 0
IsDistinct [] = Unit {0}
IsDistinct (k ∷ s) = (has k s ≡ false) × IsDistinct s

pub add-IsDistinct : (k : Text) (s : TextSet) → IsDistinct s → IsDistinct (add k s)
unfolding has add
add-IsDistinct k [] h = (refl, tt)
add-IsDistinct k (j ∷ s) h =
    ground (arith, add-IsDistinct k s h.1, has-add k j s, text_eq_iff j k, text_eq_iff k j)

pub remove-IsDistinct : (k : Text) (s : TextSet) → IsDistinct s → IsDistinct (remove k s)
unfolding remove
remove-IsDistinct k [] h = tt
remove-IsDistinct k (j ∷ s) h = ground (arith, remove-IsDistinct k s h.1, has-remove k j s)

pub IsDistinct-snoc :
    (k : Text) (s : TextSet) → IsDistinct s → has k s ≡ false → IsDistinct (s ++ k ∷ [])
unfolding has
IsDistinct-snoc k [] h n = (refl, tt)
IsDistinct-snoc k (j ∷ s) h n =
    ground
      (arith, IsDistinct-snoc k s h.1, has-append j s (k ∷ []), text_eq_iff j k, text_eq_iff k j)

pub ruleset set_laws = (has-add, has-remove, has-add_all, has-keep_if)
