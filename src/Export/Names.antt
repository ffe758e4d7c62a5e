-- ===== src/Export/Names.antt =====
-- frontend/src/lib/export.ts: the names of files, their types, the blobs that a recipe refers to,
-- and the keys of the small YAML files. `lower` is `toLowerCase`.
use lunch_loxs.Prelude.{
  ℕ, zero, suc, Bool, not, ◌&&◌, ◌||◌, List, [], ◌∷◌, ◌++◌, Option, none, some, Text, codes, trim,
  starts_with, drop, leb, ◌==◌, is_empty, if◌then◌else◌, or_default, any, keep_if, decimal,
}
use lunch_loxs.Prelude.Sets
use lunch_loxs.Prelude.Sets.{TextSet}
use lunch_loxs.Prelude.Maps

-- `/[<>:"/\\|?*]/`
unfoldable pub is_reserved : ℕ → Bool
is_reserved c = any (λ d. c == d) (codes "<>:\"/\\|?*")

unfoldable pub sanitize_filename : Text → Text
unfolding is_reserved trim
sanitize_filename title =
    let s = trim (keep_if (λ c. not (is_reserved c)) title) in
    if is_empty s then codes "untitled" else s

abbrev pub numbered : Text → ℕ → Text
numbered base counter = base ++ b' ' ∷ decimal counter

module _ (lower : Text → Text) where
  -- The loop on the counter; `none`: the fuel is used up.
  unfoldable pub next_name : ℕ → Text → ℕ → TextSet → Option Text
  unfolding Sets.has
  next_name zero base counter used = none
  next_name (suc fuel) base counter used =
      let rest = next_name fuel base (suc counter) used in
      if Sets.has (lower (numbered base counter)) used then rest else some (numbered base counter)

  unfoldable pub unique_name : ℕ → Text → TextSet → Option Text
  unfolding Sets.has next_name
  unique_name fuel base used =
      if Sets.has (lower base) used then next_name fuel base 1 used else some base

  -- The names of the files of a book, for the titles of its entries.
  unfoldable pub file_names : ℕ → List Text → TextSet → Option (List Text)
  unfolding unique_name sanitize_filename Sets.add
  file_names fuel [] used = some []
  file_names fuel (title ∷ titles) used = elim (unique_name fuel (sanitize_filename title) used) [
    | none ↦ none
    | some name ↦ elim (file_names fuel titles (Sets.add (lower name) used)) [
      | none ↦ none
      | some names ↦ some (name ∷ names)
    ]
  ]

abbrev pub mime_to_ext_table : List (Text × Text)
mime_to_ext_table =
    (codes "image/webp", codes "webp")
    ∷ (codes "image/jpeg", codes "jpg")
    ∷ (codes "image/png", codes "png")
    ∷ (codes "image/gif", codes "gif")
    ∷ (codes "image/svg+xml", codes "svg")
    ∷ (codes "application/pdf", codes "pdf")
    ∷ []

abbrev pub ext_to_mime_table : List (Text × Text)
ext_to_mime_table =
    (codes "webp", codes "image/webp")
    ∷ (codes "jpg", codes "image/jpeg")
    ∷ (codes "jpeg", codes "image/jpeg")
    ∷ (codes "png", codes "image/png")
    ∷ (codes "gif", codes "image/gif")
    ∷ (codes "svg", codes "image/svg+xml")
    ∷ (codes "pdf", codes "application/pdf")
    ∷ []

unfoldable pub mime_to_ext : Text → Text
unfolding Maps.get
mime_to_ext mime = or_default (Maps.get mime mime_to_ext_table) (codes "bin")

unfoldable pub ext_to_mime : (Text → Text) → Text → Text
unfolding Maps.get
ext_to_mime lower ext =
    or_default (Maps.get (lower ext) ext_to_mime_table) (codes "application/octet-stream")

-- `[a-f0-9]`
unfoldable pub is_hex : ℕ → Bool
is_hex c = (leb b'a' c && leb c b'f') || (leb b'0' c && leb c b'9')

-- Hexadecimal digits, as many as the number says, and a closing parenthesis.
unfoldable pub checksum_here : ℕ → Text → Option Text
unfolding is_hex
checksum_here zero [] = none
checksum_here zero (c ∷ s) = if c == b')' then some [] else none
checksum_here (suc n) [] = none
checksum_here (suc n) (c ∷ s) =
    let rest = checksum_here n s in
    if is_hex c then elim rest [ none ↦ none | some t ↦ some (c ∷ t) ] else none

-- `/\(blob:([a-f0-9]{64})\)/g`: matches do not overlap, since a match has its only opening
-- parenthesis at its start.
unfoldable pub checksums_in : Text → TextSet → TextSet
unfolding checksum_here Sets.add starts_with
checksums_in [] found = found
checksums_in (c ∷ s) found =
    let here = if starts_with (c ∷ s) (codes "(blob:") then checksum_here 64 (drop 5 s) else none in
    elim here [ none ↦ checksums_in s found | some cs ↦ checksums_in s (Sets.add cs found) ]

-- The fields are the instructions and the notes of a recipe; one that is missing is empty.
unfoldable pub extract_blob_checksums : Text → Text → TextSet
unfolding checksums_in
extract_blob_checksums instructions notes = checksums_in notes (checksums_in instructions [])
