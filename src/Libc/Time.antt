-- ===== src/Libc/Time.antt =====
-- `gmtime` for a time that is not negative, and the two formats of a date and time in the sources:
-- `"%4d-%02d-%02d %02d:%02d:%02d"` and its reading by `sscanf`.
use auction_server.Common.{
  ℕ, zero, suc, ◌+◌, ◌-◌, ◌*◌, ◌/◌, ◌%◌, Option, none, some, [], ◌∷◌, ◌++◌, ltb, leb, ◌==◌,
  if◌then◌else◌, Bytes, length,
}
use auction_server.Libc.{isdigit, skip_space, digits_value, print_dec, print_padded}

-- The year, the month and the day of a number of days since 1970-01-01, in the Gregorian calendar
-- counted from a first of March.
record Civil : Type 0 where
  pub year : ℕ
  pub month : ℕ
  pub day : ℕ

unfoldable civil_from_days : ℕ → Civil
civil_from_days days =
    let z = days + 719468 in
    let era = z / 146097 in
    let doe = z % 146097 in
    let yoe = (doe - doe / 1460 + doe / 36524 - doe / 146096) / 365 in
    let doy = doe - (365 * yoe + yoe / 4 - yoe / 100) in
    let mp = (5 * doy + 2) / 153 in
    let month = if ltb mp 10 then mp + 3 else mp - 9 in
    record {
      year = yoe + era * 400 + (if leb month 2 then 1 else 0);
      month = month;
      day = doy - (153 * mp + 2) / 5 + 1;
    }

unfoldable pub date_str : ℕ → Bytes
unfolding civil_from_days
date_str t =
    let c = civil_from_days (t / 86400) in
    print_dec c.year ++ b'-' ∷ (print_padded 2 c.month ++ b'-' ∷ print_padded 2 c.day)

unfoldable pub time_str : ℕ → Bytes
time_str t =
    let s = t % 86400 in
    print_padded 2 (s / 3600)
    ++ b':' ∷ (print_padded 2 (s % 3600 / 60) ++ b':' ∷ print_padded 2 (s % 60))

unfoldable pub datetime_str : ℕ → Bytes
datetime_str t = date_str t ++ b' ' ∷ time_str t

-- at most `k` digits, and the rest
unfoldable pub take_digits : ℕ → Bytes → Bytes × Bytes
take_digits zero s = ([], s)
take_digits (suc k) [] = ([], [])
take_digits (suc k) (c ∷ s) =
    let (ds, r) = take_digits k s in if isdigit c then (c ∷ ds, r) else ([], c ∷ s)

-- `%kd` of `sscanf`; a field with a sign is taken for no number
unfoldable pub scan_number : ℕ → Bytes → Option (ℕ × Bytes)
scan_number k s =
    let (ds, r) = take_digits k (skip_space s) in
    if length ds == 0 then none else some (digits_value 0 ds, r)

-- a literal byte of the format
unfoldable pub scan_byte : ℕ → Bytes → Option Bytes
scan_byte b [] = none
scan_byte b (c ∷ s) = if c == b then some s else none
