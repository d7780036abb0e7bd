-- ===== src/Database/Names.antt =====
-- The names and the lines that server/database.c writes.
pub mod StartLine
use auction_server.Common.{ℕ, zero, suc, Option, Bytes, ◌∷◌, ◌++◌, [], codes}
use auction_server.Common.Int.{ℤ, pos, negsuc}
use auction_server.Libc.{strtok, print_dec, print_padded}
use auction_server.Libc.Time.{datetime_str}

-- `%03d`
unfoldable pub aid_of : ℕ → Bytes
aid_of n = print_padded 3 n

-- `%03d.txt` in HOSTED, `%06d.txt` in BIDS, `%.3s.txt` in BIDDED
unfoldable pub hosted_name : ℕ → Bytes
hosted_name n = print_padded 3 n ++ codes ".txt"

unfoldable pub bid_name : ℕ → Bytes
bid_name value = print_padded 6 value ++ codes ".txt"

-- `%ld`
unfoldable pub print_int : ℤ → Bytes
print_int (pos n) = print_dec n
print_int (negsuc n) = b'-' ∷ print_dec (suc n)

-- "%s %s %s %d %d %s %ld\n"
unfoldable pub start_info : Bytes → Bytes → Bytes → ℕ → ℕ → ℕ → Bytes
start_info uid name fname sv ta now =
    uid
    ++ b' '
      ∷ (name
          ++ b' '
            ∷ (fname
                ++ b' '
                  ∷ (print_dec sv
                      ++ b' '
                        ∷ (print_dec ta
                            ++ b' ' ∷ (datetime_str now ++ b' ' ∷ (print_dec now ++ b'\n' ∷ []))))))

-- The last of `k + 1` calls of `strtok` with the delimiter `d`.
unfoldable pub nth_token : ℕ → ℕ → Bytes → Option Bytes × Bytes
nth_token zero d s = strtok d s
nth_token (suc k) d s = nth_token k d (strtok d s).1
