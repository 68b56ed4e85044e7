-- ===== src/Date.antt =====
-- core/src/memory.rs: the civil date of a day since 1970-01-01, and its text. `/` on ℕ is Rust's
-- division where its operands are not negative; a negative operand is written out.
use memoria_mcp.Prelude.{
  ℕ, zero, suc, ◌+◌, ◌-◌, ◌*◌, ◌/◌, String, [], ◌∷◌, format, decimal, ltb, leb, if◌then◌else◌,
}
use memoria_mcp.Prelude.Int.{ℤ, pos, negsuc, sub_ℕ}
use Prim.Native.String

-- Year of the era, and month and day, of the day `doe` of its 400-year era.
unfoldable pub year_of_era : ℕ → ℕ
year_of_era doe = (doe - doe / 1460 + doe / 36524 - doe / 146096) / 365

unfoldable pub day_of_year : ℕ → ℕ
unfolding year_of_era
day_of_year doe = let yoe = year_of_era doe in doe - (365 * yoe + yoe / 4 - yoe / 100)

-- The month and the day of the month of a day of a year that begins on the first of March.
unfoldable pub month_and_day : ℕ → ℕ × ℕ
month_and_day doy =
    let mp = (5 * doy + 2) / 153 in
    let d = doy - (153 * mp + 2) / 5 + 1 in (if ltb mp 10 then mp + 3 else mp - 9, d)

-- The year `y` counts from March; the result's from January.
abbrev pub civil_year : ℤ → ℕ → ℤ
civil_year (pos y) m = if leb m 2 then pos (y + 1) else pos y
civil_year (negsuc zero) m = if leb m 2 then pos 0 else negsuc 0
civil_year (negsuc (suc y)) m = if leb m 2 then negsuc y else negsuc (suc y)

-- `pos e` is the era e, `negsuc e` the era -(e + 1).
unfoldable pub civil_of_era : ℤ → ℕ → ℤ × ℕ × ℕ
unfolding day_of_year month_and_day
civil_of_era era doe =
    let yoe = year_of_era doe in
    let (m, d) = month_and_day (day_of_year doe) in
    let y : ℤ = elim era [ pos e ↦ pos (yoe + e * 400) | negsuc e ↦ sub_ℕ yoe ((e + 1) * 400) ] in
    (civil_year y m, m, d)

-- With z = days_since_epoch + 719468: for a negative z the era is -((146096 - z) / 146097), and
-- `doe` = z - era * 146097 is not negative.
unfoldable pub civil_of_shifted : ℤ → ℤ × ℕ × ℕ
unfolding civil_of_era
civil_of_shifted (pos z) = civil_of_era (pos (z / 146097)) (z - z / 146097 * 146097)
civil_of_shifted (negsuc n) =
    let e = (n + 1 + 146096) / 146097 in civil_of_era (negsuc (e - 1)) (e * 146097 - (n + 1))

unfoldable pub civil_from_days : ℤ → ℤ × ℕ × ℕ
unfolding civil_of_shifted
civil_from_days (pos n) = civil_of_shifted (pos (n + 719468))
civil_from_days (negsuc n) = civil_of_shifted (sub_ℕ 719468 (n + 1))

-- `{n:0width}` of a number that is not negative.
unfoldable pub zeros : ℕ → String
zeros zero = ""
zeros (suc n) = String.◌++◌ "0" (zeros n)

unfoldable pub padded : ℕ → ℕ → String
unfolding zeros
padded width n = let s = decimal n in String.◌++◌ (zeros (width - String.count s)) s

unfoldable pub padded_ℤ : ℕ → ℤ → String
unfolding padded
padded_ℤ width (pos n) = padded width n
padded_ℤ width (negsuc n) = String.◌++◌ "-" (padded (width - 1) (n + 1))

-- `i64::try_from` does not fail on a `u64` divided by 86400.
unfoldable pub unix_seconds_to_ymd_string : ℕ → String
unfolding civil_from_days padded_ℤ
unix_seconds_to_ymd_string seconds =
    let (y, m, d) = civil_from_days (pos (seconds / 86400)) in
    format (padded_ℤ 4 y ∷ "-" ∷ padded 2 m ∷ "-" ∷ padded 2 d ∷ [])
