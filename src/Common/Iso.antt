-- ===== src/Common/Iso.antt =====
-- `Date.prototype.toISOString` of a time value whose year has at most four digits, by the Gregorian
-- calendar counted from March.
use po_vdeposit.Common.Tests.{ltb, leb, if◌then◌else◌}
use po_vdeposit.Common.Texts.{Text, codes}
use Prim.Native.Nat.{ℕ, zero, suc, ◌+◌, ◌-◌, ◌*◌, ◌/◌, ◌%◌}
use mathlib.Core.List.{◌∷◌}

-- The last `width` decimal digits, in front of `rest`.
abbrev padded : ℕ → ℕ → Text → Text
padded zero n rest = rest
padded (suc width) n rest = padded width (n / 10) ((48 + n % 10) ∷ rest)

abbrev civil : ℕ → ℕ × ℕ × ℕ
civil days =
    let z = days + 719468 in
    let of_era = z % 146097 in
    let year_of_era = (of_era - of_era / 1460 + of_era / 36524 - of_era / 146096) / 365 in
    let day_of_year = of_era - (365 * year_of_era + year_of_era / 4 - year_of_era / 100) in
    let from_march = (5 * day_of_year + 2) / 153 in
    let month = if ltb from_march 10 then from_march + 3 else from_march - 9 in
    (
      year_of_era + z / 146097 * 400 + (if leb month 2 then 1 else 0),
      month,
      day_of_year - (153 * from_march + 2) / 5 + 1,
    )

unfoldable pub to_iso_string : ℕ → Text
to_iso_string ms =
    let (year, month, day) = civil (ms / 86400000) in
    let clock = ms % 86400000 in
    padded 4 year (
      b'-'
      ∷ padded 2 month (
          b'-'
          ∷ padded 2 day (
              b'T'
              ∷ padded 2 (clock / 3600000) (
                  b':'
                  ∷ padded 2 (clock / 60000 % 60) (
                      b':'
                      ∷ padded 2 (clock / 1000 % 60)
                          (b'.' ∷ padded 3 (clock % 1000) (codes "Z")))))))
