-- ===== src/Units/Tables.antt =====
-- frontend/src/lib/units.ts: the tables of units. A factor `toBase` is written in ten-thousandths.
use lunch_loxs.Prelude.{ℕ, Bool, true, false, List, [], ◌∷◌, Text, codes}

pub data Dimension : Type 0 where
  volume weight : Dimension

pub data System : Type 0 where
  metric imperial : System

pub record UnitDef : Type 0 where
  pub canonical : Text
  pub dimension : Dimension
  pub system : System
  pub to_base : ℕ
  pub source_only : Bool

abbrev unit_def : Text → Dimension → System → ℕ → Bool → UnitDef
unit_def canonical dimension system to_base source_only = record {
  canonical = canonical;
  dimension = dimension;
  system = system;
  to_base = to_base;
  source_only = source_only;
}

abbrev pub unit_defs : List UnitDef
unit_defs =
    unit_def (codes "pinch") volume imperial 3080 true
    ∷ unit_def (codes "dash") volume imperial 6160 true
    ∷ unit_def (codes "tsp") volume imperial 49290 false
    ∷ unit_def (codes "tbsp") volume imperial 147870 false
    ∷ unit_def (codes "fl oz") volume imperial 295740 false
    ∷ unit_def (codes "cup") volume imperial 2365880 false
    ∷ unit_def (codes "pint") volume imperial 4731760 false
    ∷ unit_def (codes "quart") volume imperial 9463530 false
    ∷ unit_def (codes "gallon") volume imperial 37854100 false
    ∷ unit_def (codes "ml") volume metric 10000 false
    ∷ unit_def (codes "dl") volume metric 1000000 false
    ∷ unit_def (codes "l") volume metric 10000000 false
    ∷ unit_def (codes "stick") volume imperial 1182940 true
    ∷ unit_def (codes "oz") weight imperial 283495 false
    ∷ unit_def (codes "lb") weight imperial 4535920 false
    ∷ unit_def (codes "g") weight metric 10000 false
    ∷ unit_def (codes "kg") weight metric 10000000 false
    ∷ []

-- The aliases of the units, by their canonical names.
abbrev pub alias_map : List (Text × List Text)
alias_map =
    (codes "pinch", codes "pinches" ∷ codes "pinch of" ∷ [])
    ∷ (codes "dash", codes "dashes" ∷ codes "dash of" ∷ [])
    ∷ (codes "tsp", codes "teaspoon" ∷ codes "teaspoons" ∷ codes "tsps" ∷ codes "tsp." ∷ [])
    ∷ (
      codes "tbsp",
      codes "tablespoon"
          ∷ codes "tablespoons"
          ∷ codes "tbsps"
          ∷ codes "tbs"
          ∷ codes "tbsp."
          ∷ codes "tbs."
          ∷ [],
    )
    ∷ (
      codes "fl oz",
      codes "fluid ounce" ∷ codes "fluid ounces" ∷ codes "fl. oz." ∷ codes "fl oz." ∷ [],
    )
    ∷ (codes "cup", codes "cups" ∷ codes "c" ∷ codes "cup of" ∷ codes "cups of" ∷ [])
    ∷ (codes "pint", codes "pints" ∷ codes "pt" ∷ codes "pt." ∷ [])
    ∷ (codes "quart", codes "quarts" ∷ codes "qt" ∷ codes "qts" ∷ codes "qt." ∷ [])
    ∷ (codes "gallon", codes "gallons" ∷ codes "gal" ∷ codes "gal." ∷ [])
    ∷ (
      codes "ml",
      codes "milliliter"
          ∷ codes "milliliters"
          ∷ codes "millilitre"
          ∷ codes "millilitres"
          ∷ codes "ml."
          ∷ [],
    )
    ∷ (
      codes "dl",
      codes "deciliter" ∷ codes "deciliters" ∷ codes "decilitre" ∷ codes "decilitres" ∷ [],
    )
    ∷ (codes "l", codes "liter" ∷ codes "liters" ∷ codes "litre" ∷ codes "litres" ∷ [])
    ∷ (codes "oz", codes "ounce" ∷ codes "ounces" ∷ codes "oz." ∷ [])
    ∷ (codes "lb", codes "lbs" ∷ codes "pound" ∷ codes "pounds" ∷ codes "lb." ∷ codes "lbs." ∷ [])
    ∷ (codes "stick", codes "sticks" ∷ codes "stick of" ∷ codes "sticks of" ∷ [])
    ∷ (codes "g", codes "gram" ∷ codes "grams" ∷ codes "g." ∷ [])
    ∷ (codes "kg", codes "kilogram" ∷ codes "kilograms" ∷ codes "kg." ∷ [])
    ∷ []

-- Units that are counted.
abbrev pub count_aliases : List (Text × List Text)
count_aliases =
    (codes "piece", codes "pieces" ∷ codes "pc" ∷ codes "pcs" ∷ [])
    ∷ (codes "clove", codes "cloves" ∷ [])
    ∷ (codes "can", codes "cans" ∷ [])
    ∷ (codes "bunch", codes "bunches" ∷ [])
    ∷ (codes "stalk", codes "stalks" ∷ [])
    ∷ (codes "sprig", codes "sprigs" ∷ [])
    ∷ (codes "slice", codes "slices" ∷ [])
    ∷ (codes "head", codes "heads" ∷ [])
    ∷ (codes "whole", [])
    ∷ []
