-- ===== src/Densities/Longest.antt =====
-- frontend/src/lib/densities.ts: which keyword an ingredient matches.
use lunch_loxs.Prelude.{
  ◌≡◌, sym, subst, refl, true, false, List, [], ◌∷◌, Option, some, arith, Text, length, ltb, All,
  ◌≤◌, Bool-cases, inl, inr, All-at, is_empty,
}
use mathlib.Core.List.{Memᴰ}
use mathlib.Core.List.Memᴰ.{head, tail}
use lunch_loxs.Densities.{
  Entry, DensityMatch, insert, sort, candidates, flatten, matches, find_among, find_density,
}
use lunch_loxs.Densities.Table.{density_table}

IsNoLonger : Entry → Entry → Type 0
IsNoLonger e f = length f.keyword ≤ length e.keyword

-- From the longest keyword to the shortest.
abbrev IsSorted : List Entry → Type 0
IsSorted [] = Unit {0}
IsSorted (e ∷ es) = All (IsNoLonger e) es × IsSorted es

All-insert :
    (P : Entry → Type 0) (e : Entry) (es : List Entry) → P e → All P es → All P (insert e es)
unfolding insert
All-insert P e [] p h = (p, tt)
All-insert P e (f ∷ fs) p (q, h) = elim (Bool-cases (ltb (length e.keyword) (length f.keyword))) [
  | inl l ↦ rw l (q, All-insert P e fs p h)
  | inr g ↦ rw g (p, (q, h))
]

All-longer :
    (e f : Entry) (es : List Entry) → IsNoLonger e f → All (IsNoLonger f) es → All (IsNoLonger e) es
unfolding IsNoLonger
All-longer e f [] h k = tt
All-longer e f (g ∷ es) h (k, ks) = (omega (arith, h, k), All-longer e f es h ks)

insert-IsSorted : (e : Entry) (es : List Entry) → IsSorted es → IsSorted (insert e es)
unfolding insert IsNoLonger
insert-IsSorted e [] h = (tt, tt)
insert-IsSorted e (f ∷ fs) (h, hs) = elim (Bool-cases (ltb (length e.keyword) (length f.keyword))) [
  | inl l ↦ rw l (All-insert (IsNoLonger f) e fs (ground (arith, l)) h, insert-IsSorted e fs hs)
  | inr g ↦
      let le : IsNoLonger e f = ground (arith, g) in rw g ((le, All-longer e f fs le h), (h, hs))
]

sort-IsSorted : (es : List Entry) → IsSorted (sort es)
unfolding sort
sort-IsSorted [] = tt
sort-IsSorted (e ∷ es) = insert-IsSorted e (sort es) (sort-IsSorted es)

insert-mem_new : (e : Entry) (es : List Entry) → Memᴰ e (insert e es)
unfolding insert
insert-mem_new e [] = head refl
insert-mem_new e (f ∷ fs) = elim (Bool-cases (ltb (length e.keyword) (length f.keyword))) [
  | inl l ↦ rw l (tail (insert-mem_new e fs))
  | inr g ↦ rw g (head refl)
]

insert-mem : (e d : Entry) (es : List Entry) → Memᴰ d es → Memᴰ d (insert e es)
unfolding insert
insert-mem e d [] m = elim m [ ]
insert-mem e d (f ∷ fs) (head eq) = elim (Bool-cases (ltb (length e.keyword) (length f.keyword))) [
  | inl l ↦ rw l (head eq)
  | inr g ↦ rw g (tail (head eq))
]
insert-mem e d (f ∷ fs) (tail m) = elim (Bool-cases (ltb (length e.keyword) (length f.keyword))) [
  | inl l ↦ rw l (tail (insert-mem e d fs m))
  | inr g ↦ rw g (tail (tail m))
]

sort-mem : (d : Entry) (es : List Entry) → Memᴰ d es → Memᴰ d (sort es)
unfolding sort
sort-mem d [] m = elim m [ ]
sort-mem d (e ∷ es) (head eq) =
    subst (λ x. Memᴰ x (insert e (sort es))) (sym eq) (insert-mem_new e (sort es))
sort-mem d (e ∷ es) (tail m) = insert-mem e d (sort es) (sort-mem d es m)

-- What the first match of a sorted list is, next to any other match.
abbrev IsLongest : Entry → Text → Option DensityMatch → Type 0
IsLongest e s found =
    (r : DensityMatch) × (found ≡ some r)
    × (matches r.matched_as s ≡ true)
    × (length e.keyword ≤ length r.matched_as)

find_among_found :
    (f : Entry) (es : List Entry) (s : Text)
    → matches f.keyword s ≡ true
    → find_among (f ∷ es) s
      ≡ some (record { grams_per_cup = f.grams_per_cup; matched_as = f.keyword })
unfolding find_among
find_among_found f es s h = rw h refl

find_among_next :
    (f : Entry) (es : List Entry) (s : Text)
    → matches f.keyword s ≡ false
    → find_among (f ∷ es) s ≡ find_among es s
unfolding find_among
find_among_next f es s h = rw h refl

found_first :
    (e f : Entry) (es : List Entry) (s : Text)
    → IsNoLonger f e
    → matches f.keyword s ≡ true
    → IsLongest e s (find_among (f ∷ es) s)
unfolding IsNoLonger
found_first e f es s le h =
    let r : DensityMatch = record { grams_per_cup = f.grams_per_cup; matched_as = f.keyword } in
    (r, find_among_found f es s h, h, le)

find_among-IsLongest :
    (e : Entry) (es : List Entry) (s : Text)
    → IsSorted es
    → Memᴰ e es
    → matches e.keyword s ≡ true
    → IsLongest e s (find_among es s)
unfolding IsNoLonger
find_among-IsLongest e [] s h m t = elim m [ ]
find_among-IsLongest e (f ∷ es) s h (head eq) t =
    found_first e f es s (rw eq (omega arith)) (subst (λ x. matches x.keyword s ≡ true) eq t)
find_among-IsLongest e (f ∷ es) s (h, hs) (tail m) t = elim (Bool-cases (matches f.keyword s)) [
  | inl y ↦ found_first e f es s (All-at (IsNoLonger f) e es h m) y
  | inr n ↦
      subst (IsLongest e s) (sym (find_among_next f es s n)) (find_among-IsLongest e es s hs m t)
]

-- When a keyword of the table occurs in an ingredient's lower-case name as a whole word, a density
-- is found; the keyword it was matched as occurs so too, and is at least as long.
pub find_density_longest :
    (lower : Text → Text) (item : Text) (e : Entry)
    → is_empty item ≡ false
    → Memᴰ e (flatten density_table)
    → matches e.keyword (lower item) ≡ true
    → (r : DensityMatch) × (find_density lower item ≡ some r)
      × (matches r.matched_as (lower item) ≡ true)
      × (length e.keyword ≤ length r.matched_as)
unfolding find_density candidates
find_density_longest lower item e nonempty m t =
    let found =
      find_among-IsLongest e candidates (lower item) (sort-IsSorted (flatten density_table))
        (sort-mem e (flatten density_table) m) t in
    (found.0, rw nonempty found.1, found.2, found.3)
