-- ===== src/Libc.antt =====
-- What the sources use of C's standard library on strings and numbers: the character classes of
-- the C locale, `strtok`, `atoi`, `sscanf("%d")` and the conversions `%d` and `%0kd`.
pub mod Strtok
pub mod Tokens
pub mod Numbers
pub mod Time
use auction_server.Common.{
  ℕ, zero, suc, ◌+◌, ◌-◌, ◌*◌, ◌/◌, ◌%◌, Bool, false, ◌&&◌, ◌||◌, Option, none, some, [], ◌∷◌, ◌++◌,
  ltb, leb, ◌==◌, if◌then◌else◌, Bytes, length,
}
use auction_server.Common.Int.{ℤ, pos, neg}

unfoldable pub isdigit : ℕ → Bool
isdigit c = leb b'0' c && leb c b'9'

unfoldable pub isalnum : ℕ → Bool
unfolding isdigit
isalnum c = isdigit c || leb b'a' c && leb c b'z' || leb b'A' c && leb c b'Z'

unfoldable pub isspace : ℕ → Bool
isspace c = c == b' ' || leb 9 c && leb c 13

-- the delimiters that a `strtok` call skips
unfoldable pub skip : ℕ → Bytes → Bytes
skip d [] = []
skip d (c ∷ s) = if c == d then skip d s else c ∷ s

-- the token up to the next delimiter, and what stands behind that delimiter
unfoldable pub span : ℕ → Bytes → Bytes × Bytes
span d [] = ([], [])
span d (c ∷ s) = let (t, r) = span d s in if c == d then ([], s) else (c ∷ t, r)

strtok_at : ℕ → Bytes → Option Bytes × Bytes
strtok_at d [] = (none, [])
strtok_at d (c ∷ s) = let (t, r) = span d (c ∷ s) in (some t, r)

-- `strtok` with one delimiter: the token or NULL, and the position that it saves for the next call.
unfoldable pub strtok : ℕ → Bytes → Option Bytes × Bytes
unfolding skip span strtok_at
strtok d s = strtok_at d (skip d s)

unfoldable pub digits_value : ℕ → Bytes → ℕ
digits_value acc [] = acc
digits_value acc (c ∷ s) =
    let rest = digits_value (acc * 10 + (c - b'0')) s in if isdigit c then rest else acc

unfoldable pub skip_space : Bytes → Bytes
skip_space [] = []
skip_space (c ∷ s) = if isspace c then skip_space s else c ∷ s

signed_value : Bytes → ℤ
signed_value [] = pos 0
signed_value (c ∷ s) =
    if c == b'-'
    then neg (digits_value 0 s)
    else if c == b'+'
    then pos (digits_value 0 s)
    else pos (digits_value 0 (c ∷ s))

-- `atoi` and `atol`, on numbers that fit
unfoldable pub atoi : Bytes → ℤ
unfolding signed_value digits_value skip_space isspace isdigit
atoi s = signed_value (skip_space s)

starts_with_digit : Bytes → Bool
starts_with_digit [] = false
starts_with_digit (c ∷ s) = isdigit c

has_number : Bytes → Bool
has_number [] = false
has_number (c ∷ s) = if c == b'-' || c == b'+' then starts_with_digit s else isdigit c

-- `sscanf(s, "%d...", &x)`: the number, if the call returns 1
unfoldable pub sscanf_d : Bytes → Option ℤ
unfolding atoi starts_with_digit has_number
sscanf_d s = if has_number (skip_space s) then some (atoi s) else none

-- the digits of `n`, on fuel `n + 1`
unfoldable pub dec_digits : ℕ → ℕ → Bytes
dec_digits zero n = []
dec_digits (suc f) n =
    let high = dec_digits f (n / 10) in
    let low : Bytes = (b'0' + n % 10) ∷ [] in if ltb n 10 then low else high ++ low

-- `%d` and `%ld` of a number that is not negative
unfoldable pub print_dec : ℕ → Bytes
unfolding dec_digits
print_dec n = dec_digits (suc n) n

unfoldable pub zeros : ℕ → Bytes
zeros zero = []
zeros (suc k) = b'0' ∷ zeros k

-- `%0kd`
unfoldable pub print_padded : ℕ → ℕ → Bytes
unfolding print_dec zeros
print_padded k n = zeros (k - length (print_dec n)) ++ print_dec n
