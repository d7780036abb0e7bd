-- ===== src/Validators/DateTime.antt =====
-- `is_valid_date_time` of utils/validators.c: the text is read into the fields of a `struct tm`,
-- printed again, and compared.
use auction_server.Common.{
  ◌≡◌, ◌+◌, true, not, ltb, arith, bytes_eq_iff, length-append, Bool, false, ◌&&◌, Option, none,
  some, ◌∷◌, ◌++◌, ◌==◌, Bytes, length, bytes_eq,
}
use auction_server.Libc.{print_dec, print_padded, skip_space}
use auction_server.Libc.Time.{scan_number, scan_byte}

infixl 5 ◌>>=◌
abbrev ◌>>=◌ {ℓ κ} : {A : Type ℓ} {B : Type κ} → Option A → (A → Option B) → Option B
none >>= f = none
some a >>= f = f a

-- `sscanf(s, "%4d-%2d-%2d %2d:%2d:%2d", ...) != 6`, then the output of `strftime`
unfoldable reconverted : Bytes → Option Bytes
reconverted s = do
  (year, s1) ← scan_number 4 s
  s2 ← scan_byte b'-' s1
  (month, s3) ← scan_number 2 s2
  s4 ← scan_byte b'-' s3
  (day, s5) ← scan_number 2 s4
  (hour, s6) ← scan_number 2 (skip_space s5)
  s7 ← scan_byte b':' s6
  (minute, s8) ← scan_number 2 s7
  s9 ← scan_byte b':' s8
  (second, s10) ← scan_number 2 s9
  some (
      print_dec year
      ++ b'-'
        ∷ (print_padded 2 month
            ++ b'-'
              ∷ (print_padded 2 day
                  ++ b' '
                    ∷ (print_padded 2 hour
                        ++ b':' ∷ (print_padded 2 minute ++ b':' ∷ print_padded 2 second)))))

same_text : Bytes → Option Bytes → Bool
same_text s none = false
same_text s (some t) = length t == 19 && bytes_eq s t

-- `char date_time_str[64]` holds both words, the space and the NUL. Where it does not, `strcpy` and
-- `strcat` write behind it; `is_valid_date_time` is what the function returns where it does.
unfoldable pub fits_date_time : Bytes → Bytes → Bool
fits_date_time date time = not (ltb 62 (length date + length time))

unfoldable pub is_valid_date_time : Bytes → Bytes → Bool
unfolding same_text reconverted
is_valid_date_time date time = let s = date ++ b' ' ∷ time in same_text s (reconverted s)

same_text-length : (s : Bytes) (o : Option Bytes) → same_text s o ≡ true → length s ≡ 19
unfolding same_text
same_text-length s none h = absurd (ground arith)
same_text-length s (some t) h = ground (arith, h, bytes_eq_iff s t)

-- A valid date and time print on 19 bytes.
pub date_time_length :
    (date time : Bytes) → is_valid_date_time date time ≡ true → length date + length time ≡ 18
unfolding is_valid_date_time
date_time_length date time h =
    let s = date ++ b' ' ∷ time in
    omega (arith, same_text-length s (reconverted s) h, length-append date (b' ' ∷ time))
