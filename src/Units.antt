-- ===== src/Units.antt =====
-- frontend/src/lib/units.ts: resolving and converting the units of ingredients. Quantities are exact
-- fractions that are not negative; the rounding of doubles is not modelled. `lower` is
-- `toLowerCase`.
pub mod Tables
pub mod Fractions
pub mod Names
pub mod Best
pub mod Targets
use lunch_loxs.Prelude.{
  ℕ, ◌+◌, ◌*◌, Bool, true, false, not, ◌&&◌, ◌||◌, List, [], ◌∷◌, ◌++◌, Option, none, some, Text,
  codes, text_eq, trim, starts_with, drop, any, if◌then◌else◌,
}
use lunch_loxs.Prelude.Maps
use lunch_loxs.Units.Tables.{
  Dimension, volume, weight, System, metric, imperial, UnitDef, unit_defs, alias_map, count_aliases,
}
use lunch_loxs.Units.Fractions.{Fraction, times, over, is_lt, three_quarters, round_to}

unfoldable pub same_dimension : Dimension → Dimension → Bool
same_dimension volume volume = true
same_dimension weight weight = true
same_dimension _ _ = false

unfoldable pub same_system : System → System → Bool
same_system metric metric = true
same_system imperial imperial = true
same_system _ _ = false

-- `for (const alias of aliases) ALIASES[alias] = canonical`
unfoldable pub add_aliases : Text → List Text → List (Text × Text) → List (Text × Text)
add_aliases canonical [] m = m
add_aliases canonical (a ∷ as') m = add_aliases canonical as' (Maps.set a canonical m)

unfoldable pub flatten : List (Text × List Text) → List (Text × Text) → List (Text × Text)
unfolding add_aliases
flatten [] m = m
flatten ((c, as') ∷ rest) m = flatten rest (add_aliases c as' (Maps.set c c m))

unfoldable pub aliases : List (Text × Text)
unfolding flatten
aliases = flatten count_aliases (flatten alias_map [])

-- `defByCanonical`, where a later definition of a name would replace an earlier one
unfoldable pub index_defs : List UnitDef → List (Text × UnitDef) → List (Text × UnitDef)
index_defs [] m = m
index_defs (d ∷ ds) m = index_defs ds (Maps.set d.canonical d m)

unfoldable pub def_by_canonical : List (Text × UnitDef)
unfolding index_defs
def_by_canonical = index_defs unit_defs []

-- `ALIASES[key]`, for a key that is no property of every object
unfoldable pub alias_of : Text → Option Text
unfolding aliases
alias_of [] = none
alias_of (c ∷ key) = Maps.get (c ∷ key) aliases

unfoldable pub def_of : Text → Option UnitDef
unfolding alias_of def_by_canonical
def_of key = elim (alias_of key) [ none ↦ none | some c ↦ Maps.get c def_by_canonical ]

unfoldable pub is_decimal_unit : Text → Bool
is_decimal_unit unit =
    let canonical = if starts_with unit (codes "~") then drop 1 unit else unit in
    any (λ u. text_eq u canonical)
      (codes "ml" ∷ codes "dl" ∷ codes "l" ∷ codes "g" ∷ codes "kg" ∷ [])

-- A preferred unit with its factor.
pub record Candidate : Type 0 where
  pub unit : Text
  pub to_base : ℕ

abbrev candidate : Text → ℕ → Candidate
candidate unit to_base = record { unit = unit; to_base = to_base }

-- The first candidate, and the others.
unfoldable pub preferred : Dimension → System → Candidate × List Candidate
preferred volume metric = (candidate (codes "ml") 10000, candidate (codes "l") 10000000 ∷ [])
preferred volume imperial = (
  candidate (codes "tsp") 49290,
  candidate (codes "tbsp") 147870
      ∷ candidate (codes "cup") 2365880
      ∷ candidate (codes "pint") 4731760
      ∷ candidate (codes "quart") 9463530
      ∷ [],
)
preferred weight metric = (candidate (codes "g") 10000, candidate (codes "kg") 10000000 ∷ [])
preferred weight imperial = (candidate (codes "oz") 283495, candidate (codes "lb") 4535920 ∷ [])

pub record ConvertedUnit : Type 0 where
  pub qty : Fraction
  pub unit : Text

-- The value is at least 0.75.
unfoldable pub is_enough : Fraction → Bool
is_enough v = not (is_lt v three_quarters)

-- One round of the loop over the candidates.
unfoldable pub prefer : Fraction → Candidate → Candidate → Candidate
unfolding is_enough
prefer base best c =
    let val = over base c.to_base in
    let best_val = over base best.to_base in
    if is_enough val && (not (is_enough best_val) || is_lt val best_val) then c else best

unfoldable pub prefer_all : Fraction → Candidate → List Candidate → Candidate
unfolding prefer
prefer_all base best [] = best
prefer_all base best (c ∷ cs) = prefer_all base (prefer base best c) cs

-- The candidates are gone through from the first on; if none is enough, the first is taken.
unfoldable pub choose : Fraction → Candidate → List Candidate → Candidate
unfolding prefer_all is_enough
choose base first cs =
    let best = prefer_all base first (first ∷ cs) in
    if is_enough (over base best.to_base) then best else first

unfoldable pub clean_number : Fraction → Fraction
unfolding round_to
clean_number n = round_to 100 n

unfoldable pub pick_best_unit : Fraction → Dimension → System → ConvertedUnit
unfolding choose preferred clean_number
pick_best_unit base dimension system =
    let (first, others) = preferred dimension system in
    let best = choose base first others in
    record { qty = clean_number (over base best.to_base); unit = best.unit }

module _ (lower : Text → Text) where
  unfoldable pub resolve_unit : Text → Option UnitDef
  unfolding def_of
  resolve_unit raw = def_of (lower (trim raw))

  unfoldable pub canonical_unit_name : Text → Option Text
  unfolding alias_of
  canonical_unit_name raw = alias_of (lower (trim raw))

  unfoldable pub is_target : UnitDef → UnitDef → Bool
  unfolding same_dimension
  is_target def d =
      same_dimension d.dimension def.dimension
      && not (text_eq d.canonical def.canonical)
      && not d.source_only

  unfoldable pub targets_among : UnitDef → List UnitDef → List UnitDef
  unfolding is_target
  targets_among def [] = []
  targets_among def (d ∷ ds) =
      let rest = targets_among def ds in if is_target def d then d ∷ rest else rest

  -- A target is given by its definition, of which the source shows the name and the system.
  unfoldable pub get_conversion_targets : Text → List UnitDef
  unfolding targets_among resolve_unit
  get_conversion_targets from_unit = elim (resolve_unit from_unit) [
    | none ↦ []
    | some def ↦ targets_among def unit_defs
  ]

  unfoldable pub convert_unit : Fraction → Text → System → Option ConvertedUnit
  unfolding resolve_unit same_system pick_best_unit
  convert_unit qty from_unit to_system = elim (resolve_unit from_unit) [
    | none ↦ none
    | some def ↦
        if same_system def.system to_system || def.source_only
        then none
        else some (pick_best_unit (times qty def.to_base) def.dimension to_system)
  ]

  unfoldable pub convert_to_unit : Fraction → Text → Text → Option ConvertedUnit
  unfolding resolve_unit same_dimension clean_number
  convert_to_unit qty from_unit to_unit = elim (resolve_unit from_unit) [
    | none ↦ none
    | some from_def ↦ elim (resolve_unit to_unit) [
      | none ↦ none
      | some to_def ↦
          if same_dimension from_def.dimension to_def.dimension
          then some (record {
            qty = clean_number (over (times qty from_def.to_base) to_def.to_base);
            unit = to_def.canonical;
          })
          else none
    ]
  ]

  -- `none` stands for the system "original".
  unfoldable pub convert_ingredient : Fraction → Text → Option System → ConvertedUnit
  unfolding convert_unit
  convert_ingredient qty unit none = record { qty = qty; unit = unit }
  convert_ingredient qty unit (some to_system) = elim (convert_unit qty unit to_system) [
    | none ↦ record { qty = qty; unit = unit }
    | some result ↦ result
  ]
