-- ===== src/Units/Names.antt =====
-- frontend/src/lib/units.ts: canonical names.
use lunch_loxs.Prelude.{
  ℕ, ◌≡◌, refl, Bool, true, false, not, ◌&&◌, List, [], ◌∷◌, Option, none, some, arith, Text,
  text_eq, text_eq_iff, trim, all, ltb, leb, Option-cases, inl, inr,
}
use lunch_loxs.Prelude.Maps
use lunch_loxs.Units.{alias_of, aliases, canonical_unit_name}

-- A lower-case ASCII character, or one without case.
abbrev pub is_plain : ℕ → Bool
is_plain c = ltb c 128 && not (leb b'A' c && leb c b'Z')

-- `toLowerCase` leaves such texts as they are.
abbrev pub FixesPlain : (Text → Text) → Type 0
FixesPlain lower = (s : Text) → all is_plain s ≡ true → lower s ≡ s

abbrev is_alias_of : Option Text → Text → Bool
is_alias_of none c = false
is_alias_of (some d) c = text_eq d c

is_fixed : Text → Bool
is_fixed c = all is_plain c && text_eq (trim c) c && is_alias_of (alias_of c) c

all_values : List (Text × Text) → Bool
all_values [] = true
all_values ((a, c) ∷ m) = is_fixed c && all_values m

aliases_fixed : all_values aliases ≡ true
unfolding all_values is_fixed alias_of trim text_eq Maps.get Maps.set aliases
aliases_fixed = refl

get_fixed :
    (k c : Text) (m : List (Text × Text))
    → all_values m ≡ true
    → Maps.get k m ≡ some c
    → is_fixed c ≡ true
unfolding all_values Maps.get
get_fixed k c [] h e = cc
get_fixed k c ((j, d) ∷ m) h e = ground (arith, get_fixed k c m)

alias_of_fixed : (key c : Text) → alias_of key ≡ some c → is_fixed c ≡ true
unfolding alias_of
alias_of_fixed [] c e = cc
alias_of_fixed (k ∷ key) c e = get_fixed (k ∷ key) c aliases aliases_fixed e

is_fixed_lem :
    (c : Text) → is_fixed c ≡ true → (all is_plain c ≡ true) × (trim c ≡ c) × (alias_of c ≡ some c)
unfolding is_fixed
is_fixed_lem c h = elim (Option-cases (alias_of c)) [
  | inl e ↦ ground (arith, e)
  | inr (d, e) ↦ ground (arith, e, text_eq_iff d c, text_eq_iff (trim c) c)
]

-- The canonical name of a unit, given as a unit again, is its own canonical name.
pub canonical_unit_name_idem :
    (lower : Text → Text) (raw c : Text)
    → FixesPlain lower
    → canonical_unit_name lower raw ≡ some c
    → canonical_unit_name lower c ≡ some c
unfolding canonical_unit_name
canonical_unit_name_idem lower raw c fixes e =
    let (plain, trimmed, own) = is_fixed_lem c (alias_of_fixed (lower (trim raw)) c e) in
    rw (trimmed, fixes c plain) own
