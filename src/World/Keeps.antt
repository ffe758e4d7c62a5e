-- ===== src/World/Keeps.antt =====
-- Invariants of asynchronous functions: one rule for each way to build one.
use lunch_loxs.Prelude.{Bool, true, false, Option, none, some, List, [], ◌∷◌, if◌then◌else◌}
use lunch_loxs.Platform.{Platform}
use lunch_loxs.World.{World, Async, ◌>>=◌, return, read, run, await, case_option, case_list}

-- From a state with `P`, `m` ends in a state with `P`.
pub record Keeps {p : Platform} (P : World p → Type 0) {A : Type 0} (m : Async p A) : Type 0 where
  pub at : (w : World p) → P w → P (m w).1

module _ {p : Platform} {P : World p → Type 0} where
  pub Keeps-return : {A : Type 0} (a : A) → Keeps P (return {A = A} a)
  Keeps-return a = record { at = λ w h. h }

  pub Keeps-read : {A : Type 0} (f : World p → A) → Keeps P (read f)
  Keeps-read f = record { at = λ w h. h }

  pub Keeps-run : (f : World p → World p) → ((w : World p) → P w → P (f w)) → Keeps P (run f)
  Keeps-run f h = record { at = h }

  pub Keeps-await : (f : World p → World p) → ((w : World p) → P w → P (f w)) → Keeps P (await f)
  Keeps-await f h = record { at = h }

  pub Keeps-bind :
      {A B : Type 0} (m : Async p A) (f : A → Async p B)
      → Keeps P m
      → ((a : A) → Keeps P (f a))
      → Keeps P (m >>= f)
  Keeps-bind m f km kf = record { at = λ w h. let (a, w') = m w in (kf a).at w' (km.at w h) }

  pub Keeps-if :
      {A : Type 0} (b : Bool) (m n : Async p A)
      → Keeps P m
      → Keeps P n
      → Keeps P (if b then m else n)
  Keeps-if true m n km kn = km
  Keeps-if false m n km kn = kn

module _ {p : Platform} {P : World p → Type 0} {A B : Type 0} where
  pub Keeps-case_option :
      (o : Option A) (n : Async p B) (f : A → Async p B)
      → Keeps P n
      → ((a : A) → Keeps P (f a))
      → Keeps P (case_option o n f)
  Keeps-case_option none n f kn kf = kn
  Keeps-case_option (some a) n f kn kf = kf a

  pub Keeps-case_list :
      (l : List A) (n : Async p B) (f : A → List A → Async p B)
      → Keeps P n
      → ((a : A) (rest : List A) → Keeps P (f a rest))
      → Keeps P (case_list l n f)
  Keeps-case_list [] n f kn kf = kn
  Keeps-case_list (a ∷ rest) n f kn kf = kf a rest

pub ruleset keeps_rules = (
  Keeps-return, Keeps-read, Keeps-run, Keeps-await, Keeps-bind, Keeps-if, Keeps-case_option,
  Keeps-case_list,
)
