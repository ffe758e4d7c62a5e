-- ===== src/Scraper/Durations.antt =====
-- frontend/src/lib/recipe-scraper.ts: durations that are written in hours and minutes.
use lunch_loxs.Prelude.{
  ℕ, ◌+◌, ◌*◌, ◌≡◌, refl, true, false, ◌||◌, [], ◌∷◌, ◌++◌, arith, Text, codes, all, is_digit,
  is_empty, decimal, all-decimal, value_after, value_after-decimal, is_empty-decimal, ◌==◌,
}
use lunch_loxs.Scraper.{read_digits, read_unit_of_time, parse_iso8601_duration, find_pt}

-- The digits of a numeral are read up to the letter behind it.
read_digits-append :
    (d s : Text) (c : ℕ)
    → all is_digit d ≡ true
    → is_digit c ≡ false
    → read_digits (d ++ c ∷ s) ≡ (d, c ∷ s)
unfolding read_digits
read_digits-append [] s c h n = ground (arith, n)
read_digits-append (a ∷ d) s c h n = ground (arith, h, read_digits-append d s c, n)

read_letter :
    (d s : Text) (upper lower c : ℕ)
    → all is_digit d ≡ true
    → is_empty d ≡ false
    → is_digit c ≡ false
    → (c == upper || c == lower) ≡ true
    → read_unit_of_time upper lower (d ++ c ∷ s) ≡ (value_after 0 d, s)
unfolding read_unit_of_time
read_letter d s upper lower c h e n l = ground (arith, read_digits-append d s c h n, e, l)

-- A duration of hours and minutes is read as its number of minutes.
parse-duration :
    (hours mins : ℕ)
    → parse_iso8601_duration (codes "PT" ++ (decimal hours ++ b'H' ∷ (decimal mins ++ b'M' ∷ [])))
      ≡ hours * 60 + mins
unfolding parse_iso8601_duration find_pt
parse-duration hours mins =
    let rest = decimal mins ++ b'M' ∷ [] in
    let h =
      read_letter (decimal hours) rest b'H' b'h' b'H' (all-decimal hours) (is_empty-decimal hours)
        refl refl in
    let m =
      read_letter (decimal mins) [] b'M' b'm' b'M' (all-decimal mins) (is_empty-decimal mins) refl
        refl in
    ground (arith, h, m, value_after-decimal hours, value_after-decimal mins)
