-- ===== src/Prelude/Maps.antt =====
-- JavaScript's `Map<string, V>` (entries in the order of their first insertion), and an IndexedDB
-- object store (records in ascending order of their keys).
use lunch_loxs.Prelude.{
  ◌≡◌, refl, Bool, true, false, ◌&&◌, ◌||◌, List, [], ◌∷◌, Option, none, some, arith, ltb, ◌==◌,
  if◌then◌else◌, is_some, Text, text_eq, text_eq_iff,
}
use lunch_loxs.Prelude.Sets.{has}

-- The order of keys: by code units.
unfoldable pub text_lt : Text → Text → Bool
text_lt [] [] = false
text_lt [] (b ∷ t) = true
text_lt (a ∷ s) [] = false
text_lt (a ∷ s) (b ∷ t) = ltb a b || (a == b && text_lt s t)

module _ {ℓ} {V : Type ℓ} where
  unfoldable pub get : Text → List (Text × V) → Option V
  get k [] = none
  get k ((j, v) ∷ m) = if text_eq j k then some v else get k m

  -- `map.set(k, v)`
  unfoldable pub set : Text → V → List (Text × V) → List (Text × V)
  set k v [] = (k, v) ∷ []
  set k v ((j, w) ∷ m) = if text_eq j k then (k, v) ∷ m else (j, w) ∷ set k v m

  -- `objectStore.put(v, k)`
  unfoldable pub put : Text → V → List (Text × V) → List (Text × V)
  put k v [] = (k, v) ∷ []
  put k v ((j, w) ∷ m) =
      if text_eq j k
      then (k, v) ∷ m
      else if text_lt k j
      then (k, v) ∷ (j, w) ∷ m
      else (j, w) ∷ put k v m

  unfoldable pub remove : Text → List (Text × V) → List (Text × V)
  remove k [] = []
  remove k ((j, v) ∷ m) = if text_eq j k then remove k m else (j, v) ∷ remove k m

  pub get-set :
      (j k : Text) (v : V) (m : List (Text × V))
      → get k (set j v m) ≡ (if text_eq j k then some v else get k m)
  unfolding get set
  get-set j k v [] = refl
  get-set j k v ((i, w) ∷ m) =
      ground (arith, text_eq_iff i j, text_eq_iff i k, text_eq_iff j k, get-set j k v m)

  pub get-put :
      (j k : Text) (v : V) (m : List (Text × V))
      → get k (put j v m) ≡ (if text_eq j k then some v else get k m)
  unfolding get put
  get-put j k v [] = refl
  get-put j k v ((i, w) ∷ m) =
      ground (arith, text_eq_iff i j, text_eq_iff i k, text_eq_iff j k, get-put j k v m)

  pub get-remove :
      (j k : Text) (m : List (Text × V))
      → get k (remove j m) ≡ (if text_eq j k then none else get k m)
  unfolding get remove
  get-remove j k [] = ground arith
  get-remove j k ((i, w) ∷ m) =
      ground (arith, text_eq_iff i j, text_eq_iff i k, text_eq_iff j k, get-remove j k m)

  abbrev pub keys : List (Text × V) → List Text
  keys [] = []
  keys ((j, v) ∷ m) = j ∷ keys m

  -- The keys are those at which a lookup succeeds.
  pub has-keys : (k : Text) (m : List (Text × V)) → has k (keys m) ≡ is_some (get k m)
  unfolding get has
  has-keys k [] = refl
  has-keys k ((j, v) ∷ m) = ground (arith, has-keys k m)

pub ruleset map_laws = (get-set, get-put, get-remove)
