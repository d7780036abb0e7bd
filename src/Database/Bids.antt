-- ===== src/Database/Bids.antt =====
-- The bids of server/database.c: a bid is a file in BIDS, named for its value.
pub mod Highest
pub mod Recorded
pub mod Race
use auction_server.Common.{ℕ, false, Option, none, some, List, [], ◌∷◌, ◌++◌, Bytes, codes}
use auction_server.Common.Int.{ℤ, pos, negsuc}
use auction_server.Libc.{sscanf_d}
use auction_server.Libc.Time.{datetime_str}
use auction_server.Os.{
  FilePath, bids_dir, bid_file, bidded_file, World, open_creat, fopen_w, fputs, scandir, alphasort,
  take_bytes,
}
use auction_server.Database.Auctions.{get_auction_info}
use auction_server.Database.Hosting.{seconds_since}
use auction_server.Database.Monad.{Action, ◌>>◌}
use auction_server.Database.Names.{bid_name, print_int}

-- `entries[n_entries - 1]`; the list holds `.` at least
unfoldable pub last_entry : List Bytes → Bytes
last_entry [] = []
last_entry (a ∷ []) = a
last_entry (a ∷ b ∷ bs) = last_entry (b ∷ bs)

unfoldable value_or_0 : Option ℤ → ℤ
value_or_0 none = pos 0
value_or_0 (some v) = v

unfoldable last_bid_of : Option (List Bytes) → ℤ
unfolding last_entry value_or_0
last_bid_of none = negsuc 0
last_bid_of (some names) = value_or_0 (sscanf_d (last_entry (alphasort names)))

unfoldable pub get_last_bid : Bytes → World → ℤ
unfolding last_bid_of
get_last_bid aid w = last_bid_of (scandir (bids_dir aid) w)

unfoldable pub record_bid : Bytes → Bytes → ℕ → Option ℤ → Action
record_bid aid uid value none w = (false, w)
record_bid aid uid value (some seconds) w = steps w
  where
    path : FilePath
    path = bid_file aid (bid_name value)

    steps : Action
    steps = do
      open_creat path
      fopen_w path
      fputs path (
          take_bytes 6 uid
          ++ b' ' ∷ (datetime_str w.now ++ b' ' ∷ (print_int seconds ++ b'\n' ∷ [])))
      open_creat (bidded_file uid (take_bytes 3 aid ++ codes ".txt"))

unfoldable pub bid : Bytes → Bytes → ℕ → Action
unfolding record_bid
bid aid uid value w = record_bid aid uid value (seconds_since w.now (get_auction_info aid 128 w)) w
