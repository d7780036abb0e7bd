-- ===== src/Tcp/Bid/Value.antt =====
-- The value of a bid has at most six digits.
use auction_server.Common.{
  ℕ, ◌^◌, ◌≡◌, ◌≤◌, ◌<◌, ◌⊎◌, inl, inr, Option, none, some, arith, Bytes, ◌++◌, [], ◌∷◌, length,
  length-append, All,
}
use auction_server.Common.Int.{pos_part}
use auction_server.Libc.{atoi}
use auction_server.Libc.Numbers.{IsDigit, atoi-digits, digits_value-lt}
use mathlib.Core.Path.{subst}
use auction_server.Tcp.Bid.{value_byte}
use auction_server.Stream.{Conn}
use auction_server.Tcp.Reading.{recv_bytes, result}
use auction_server.Tcp.Reading.Invariant.{EndOk, recv_bytes-EndOk}
use native.Mathlib.Nat.{pow-le-pow_right}

-- Fewer than six digits have been kept.
pub record Kept (value : Bytes) : Type 0 where
  pub short : length value < 6
  pub digits : All IsDigit value

abbrev KeptNext : Bytes ⊎ Option Bytes → Type 0
KeptNext (inl value) = Kept value
KeptNext (inr none) = Unit
KeptNext (inr (some value)) = (length value ≤ 6) × All IsDigit value

All-concat : (xs : Bytes) (c : ℕ) → All IsDigit xs → IsDigit c → All IsDigit (xs ++ c ∷ [])
All-concat [] c h k = (k, tt)
All-concat (x ∷ xs) c h k = (h.0, All-concat xs c h.1 k)

value_byte-Kept : (value : Bytes) (c : ℕ) → Kept value → KeptNext (value_byte value c)
unfolding value_byte
value_byte-Kept value c k =
    ground (arith, length-append value (c ∷ []), All-concat value c k.digits)

abbrev pub BidDigits : Option Bytes → Type 0
BidDigits none = Unit
BidDigits (some value) = (length value ≤ 6) × All IsDigit value

pub small_value : (v : Bytes) → length v ≤ 6 → All IsDigit v → pos_part (atoi v) ≤ 999999
small_value v short digits =
    let m : 10 ^ length v ≤ 10 ^ 6 = pow-le-pow_right (omega arith) short in
    rw (atoi-digits v digits) (ground (arith, digits_value-lt 0 v digits, m))

pub recv_value-BidDigits : (conn : Conn) → EndOk Kept BidDigits (recv_bytes value_byte [] conn).0
recv_value-BidDigits conn = recv_bytes-EndOk Kept BidDigits value_byte value_byte-Kept conn [] start
  where
    start : Kept []
    start = record { short = omega arith; digits = tt }

-- The value that `handle_bid` reads from a connection, whatever the peer sends, is at most 999999:
-- it is printed on the six digits of a bid file's name.
pub bid_value_bound :
    (conn rest : Conn) (value : Bytes)
    → recv_bytes value_byte [] conn ≡ (result (some value), rest)
    → pos_part (atoi value) ≤ 999999
bid_value_bound conn rest value e =
    let k = subst (λ r. EndOk Kept BidDigits r.0) e (recv_value-BidDigits conn) in
    small_value value k.0 k.1
