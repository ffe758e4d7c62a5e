-- ===== src/Tests/Amounts.antt =====
-- Concrete runs of units and densities.
use lunch_loxs.Prelude.{
  ◌≤◌, ◌≡◌, refl, true, false, [], ◌∷◌, some, codes, length, trim, text_eq, starts_with,
}
use mathlib.Core.List.{Memᴰ}
use mathlib.Core.List.Memᴰ.{head, tail}
use lunch_loxs.Prelude.Maps
use lunch_loxs.Units.{
  canonical_unit_name, get_conversion_targets, Candidate, choose, is_enough, alias_of,
}
use lunch_loxs.Units.Tables.{UnitDef, volume, metric}
use lunch_loxs.Units.Fractions.{Fraction, over, is_lt}
use lunch_loxs.Units.Best.{value, choose_smallest}
use lunch_loxs.Densities.{Entry, DensityMatch, flatten, matches, find_density}
use lunch_loxs.Densities.Table.{density_table}
use lunch_loxs.Densities.Longest.{find_density_longest}
use lunch_loxs.Export.Table.{fold_case}
use lunch_loxs.Tests.Lower.{ascii_lower}

tablespoons : canonical_unit_name ascii_lower (codes " Tablespoons") ≡ some (codes "tbsp")
unfolding canonical_unit_name alias_of Maps.get trim Maps.set text_eq fold_case
tablespoons = refl

-- The definition of the millilitre.
abbrev ml_def : UnitDef
ml_def = record {
  canonical = codes "ml";
  dimension = volume;
  system = metric;
  to_base = 10000;
  source_only = false;
}

abbrev two : Fraction
two = record { num = 2; den = 1 }

ml_offered : Memᴰ ml_def (get_conversion_targets ascii_lower (codes "cups"))
unfolding get_conversion_targets alias_of Maps.get Maps.set text_eq fold_case trim
ml_offered = tail (tail (tail (tail (tail (tail (head refl))))))

abbrev teaspoon : Candidate
teaspoon = record { unit = codes "tsp"; to_base = 49290 }

abbrev cup : Candidate
cup = record { unit = codes "cup"; to_base = 2365880 }

abbrev half_litre : Fraction
half_litre = record { num = 500; den = 1 }

enough_cup : is_enough (value half_litre cup) ≡ true
unfolding is_enough is_lt over
enough_cup = refl

choose_smallest_example :
    Memᴰ (choose half_litre teaspoon (cup ∷ [])) (teaspoon ∷ cup ∷ [])
    × (is_enough (value half_litre (choose half_litre teaspoon (cup ∷ []))) ≡ true)
    × (is_lt (value half_litre cup) (value half_litre (choose half_litre teaspoon (cup ∷ [])))
        ≡ false)
choose_smallest_example =
    choose_smallest half_litre teaspoon cup (cup ∷ []) (tail (head refl)) enough_cup

abbrev flour : Entry
flour = record { keyword = codes "flour"; grams_per_cup = 120 }

flour_listed : Memᴰ flour (flatten density_table)
unfolding flatten
flour_listed = tail (tail (tail (tail (head refl))))

flour_matches : matches (codes "flour") (ascii_lower (codes "Bread flour, sifted")) ≡ true
unfolding matches fold_case starts_with
flour_matches = refl

find_density_longest_example :
    (r : DensityMatch) × (find_density ascii_lower (codes "Bread flour, sifted") ≡ some r)
    × (matches r.matched_as (ascii_lower (codes "Bread flour, sifted")) ≡ true)
    × (5 ≤ length r.matched_as)
find_density_longest_example =
    find_density_longest ascii_lower (codes "Bread flour, sifted") flour refl flour_listed
      flour_matches
