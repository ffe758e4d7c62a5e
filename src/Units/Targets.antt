-- ===== src/Units/Targets.antt =====
-- frontend/src/lib/units.ts: the targets offered for a unit.
use lunch_loxs.Prelude.{
  ◌≡◌, sym, subst, refl, true, false, List, [], ◌∷◌, none, some, arith, Text, text_eq, trim, all,
  All, Option-cases, inl, inr, Bool-cases, All-at,
}
use lunch_loxs.Prelude.Maps
use mathlib.Core.List.{Memᴰ}
use mathlib.Core.List.Memᴰ.{head, tail, cases_cons}
use lunch_loxs.Units.{
  def_of, resolve_unit, same_dimension, is_target, targets_among, get_conversion_targets,
  convert_to_unit, ConvertedUnit, clean_number,
}
use lunch_loxs.Units.Tables.{UnitDef, unit_defs, Dimension, volume, weight}
use lunch_loxs.Units.Names.{is_plain, FixesPlain}
use lunch_loxs.Units.Fractions.{Fraction, times, over}

-- A definition's name is plain, and names the definition.
abbrev IsNamed : UnitDef → Type 0
IsNamed d =
    (all is_plain d.canonical ≡ true)
    × (trim d.canonical ≡ d.canonical)
    × (def_of d.canonical ≡ some d)

unit_defs-All : All IsNamed unit_defs
unfolding def_of trim text_eq Maps.get Maps.set
unit_defs-All = (
  (refl, refl, refl),
  (
    (refl, refl, refl),
    (
      (refl, refl, refl),
      (
        (refl, refl, refl),
        (
          (refl, refl, refl),
          (
            (refl, refl, refl),
            (
              (refl, refl, refl),
              (
                (refl, refl, refl),
                (
                  (refl, refl, refl),
                  (
                    (refl, refl, refl),
                    (
                      (refl, refl, refl),
                      (
                        (refl, refl, refl),
                        (
                          (refl, refl, refl),
                          (
                            (refl, refl, refl),
                            ((refl, refl, refl), ((refl, refl, refl), ((refl, refl, refl), tt))),
                          ),
                        ),
                      ),
                    ),
                  ),
                ),
              ),
            ),
          ),
        ),
      ),
    ),
  ),
)

among_target :
    (lower : Text → Text) (def e : UnitDef) (ds : List UnitDef)
    → is_target lower def e ≡ true
    → targets_among lower def (e ∷ ds) ≡ e ∷ targets_among lower def ds
unfolding targets_among
among_target lower def e ds t = rw t refl

among_other :
    (lower : Text → Text) (def e : UnitDef) (ds : List UnitDef)
    → is_target lower def e ≡ false
    → targets_among lower def (e ∷ ds) ≡ targets_among lower def ds
unfolding targets_among
among_other lower def e ds f = rw f refl

targets_among-mem :
    (lower : Text → Text) (def d : UnitDef) (ds : List UnitDef)
    → Memᴰ d (targets_among lower def ds)
    → Memᴰ d ds × (is_target lower def d ≡ true)
unfolding targets_among
targets_among-mem lower def d [] m = elim m [ ]
targets_among-mem lower def d (e ∷ ds) m = elim (Bool-cases (is_target lower def e)) [
  | inl t ↦ elim (cases_cons (subst (Memᴰ d) (among_target lower def e ds t) m)) [
    | inl same ↦ (head same, subst (λ x. is_target lower def x ≡ true) (sym same) t)
    | inr rest ↦ let ih = targets_among-mem lower def d ds rest in (tail ih.0, ih.1)
  ]
  | inr f ↦
      let ih = targets_among-mem lower def d ds (subst (Memᴰ d) (among_other lower def e ds f) m) in
      (tail ih.0, ih.1)
]

resolve_named :
    (lower : Text → Text) (d : UnitDef)
    → FixesPlain lower
    → IsNamed d
    → resolve_unit lower d.canonical ≡ some d
unfolding resolve_unit
resolve_named lower d fixes (plain, trimmed, own) = rw (trimmed, fixes d.canonical plain) own

same_dimension_comm : (a b : Dimension) → same_dimension a b ≡ same_dimension b a
unfolding same_dimension
same_dimension_comm volume volume = refl
same_dimension_comm volume weight = refl
same_dimension_comm weight volume = refl
same_dimension_comm weight weight = refl

is_target_lem :
    (lower : Text → Text) (def d : UnitDef)
    → is_target lower def d ≡ true
    → (same_dimension def.dimension d.dimension ≡ true) × (d.source_only ≡ false)
unfolding is_target
is_target_lem lower def d t = ground (arith, same_dimension_comm def.dimension d.dimension)

no_targets :
    (lower : Text → Text) (from : Text)
    → resolve_unit lower from ≡ none
    → get_conversion_targets lower from ≡ []
unfolding get_conversion_targets
no_targets lower from e = rw (get_conversion_targets, e) refl

targets_of :
    (lower : Text → Text) (from : Text) (def : UnitDef)
    → resolve_unit lower from ≡ some def
    → get_conversion_targets lower from ≡ targets_among lower def unit_defs
unfolding get_conversion_targets
targets_of lower from def e = rw (get_conversion_targets, e) refl

-- Every target that is offered for a unit is a unit to convert to, and the conversion to it
-- succeeds and gives its name, whatever the quantity.
pub target_converts :
    (lower : Text → Text) (qty : Fraction) (from : Text) (d : UnitDef)
    → FixesPlain lower
    → Memᴰ d (get_conversion_targets lower from)
    → (d.source_only ≡ false)
      × (r : ConvertedUnit) × (convert_to_unit lower qty from d.canonical ≡ some r)
      × (r.unit ≡ d.canonical)
unfolding convert_to_unit
target_converts lower qty from d fixes m = elim (Option-cases (resolve_unit lower from)) [
  | inl e ↦ elim (subst (Memᴰ d) (no_targets lower from e) m) [ ]
  | inr (def, e) ↦
      let (mem, t) =
        targets_among-mem lower def d unit_defs (subst (Memᴰ d) (targets_of lower from def e) m) in
      let (same, visible) = is_target_lem lower def d t in
      let r : ConvertedUnit = record {
        qty = clean_number (over (times qty def.to_base) d.to_base);
        unit = d.canonical;
      } in
      (
        visible,
        r,
        rw
            (
              convert_to_unit,
              e,
              resolve_named lower d fixes (All-at IsNamed d unit_defs unit_defs-All mem),
              same,
            )
            refl,
        refl,
      )
]
