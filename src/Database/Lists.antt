-- ===== src/Database/Lists.antt =====
-- The lists that server/database.c appends to a response. Each function returns the text that it
-- appends, whose length it returns in the source, or `none` for -1.
use auction_server.Common.{
  ℕ, ◌-◌, Bool, true, false, Option, none, some, List, [], ◌∷◌, ◌++◌, ltb, if◌then◌else◌, Bytes,
  codes, length, drop,
}
use auction_server.Libc.{strtok, sscanf_d}
use auction_server.Validators.{is_valid_uid, is_hidden}
use auction_server.Validators.DateTime.{is_valid_date_time}
use auction_server.Os.{
  auctions, hosted_dir, bidded_dir, bids_dir, end_file, bid_file, World, fopen_r, fgets, scandir,
  alphasort, take_bytes, text_of,
}
use auction_server.Database.Users.{is_open}
use auction_server.Database.Names.{print_int}

-- " %.3s 0" for an auction that has ended, " %.3s 1" for one that has not
unfoldable pub auction_status : Bytes → World → Bytes
auction_status name w =
    let aid = take_bytes 3 name in
    b' ' ∷ (aid ++ (if is_open (fopen_r (end_file aid) w) then codes " 0" else codes " 1"))

unfoldable pub statuses : List Bytes → World → Bytes
unfolding auction_status
statuses [] w = codes "\n"
statuses (name ∷ names) w =
    let rest = statuses names w in if is_hidden name then rest else auction_status name w ++ rest

unfoldable pub list_entries : Option (List Bytes) → World → Option Bytes
unfolding statuses
list_entries none w = none
list_entries (some names) w = some (statuses (alphasort names) w)

unfoldable pub get_user_auctions : Bytes → World → Option Bytes
unfolding list_entries
get_user_auctions uid w = list_entries (scandir (hosted_dir uid) w) w

unfoldable pub get_auctions_list : World → Option Bytes
unfolding list_entries
get_auctions_list w = list_entries (scandir auctions w) w

unfoldable pub get_user_bids : Bytes → World → Option Bytes
unfolding list_entries
get_user_bids uid w = list_entries (scandir (bidded_dir uid) w) w

infixl 5 ◌>>=◌
abbrev ◌>>=◌ {ℓ κ} : {A : Type ℓ} {B : Type κ} → Option A → (A → Option B) → Option B
none >>= f = none
some a >>= f = f a

abbrev require : Bool → Option (Unit {0})
require true = some tt
require false = none

-- The entry of one bid, " B %.6s %d %s %s %s"; `none` where the loop goes on to the next file.
unfoldable bid_entry : Bytes → Bytes → World → Option Bytes
bid_entry aid name w = do
  content ← fopen_r (bid_file aid (take_bytes 10 name)) w
  let (uid, s1) = strtok b' ' (text_of (fgets 128 content))
  bidder_uid ← uid
  _ ← require (is_valid_uid bidder_uid)
  let (date, s2) = strtok b' ' s1
  bid_date ← date
  let (time, s3) = strtok b' ' s2
  bid_time ← time
  _ ← require (is_valid_date_time bid_date bid_time)
  bid_sec_time ← (strtok b'\n' s3).0
  bid_value ← sscanf_d name
  some (
      codes " B "
      ++ (take_bytes 6 bidder_uid
          ++ b' '
            ∷ (print_int bid_value
                ++ b' ' ∷ (bid_date ++ b' ' ∷ (bid_time ++ b' ' ∷ bid_sec_time)))))

bid_entries : Bytes → List Bytes → World → Bytes
unfolding bid_entry text_of
bid_entries aid [] w = []
bid_entries aid (name ∷ names) w = text_of (bid_entry aid name w) ++ bid_entries aid names w

-- " E %s %s %s", where the END file is there and well formed
unfoldable end_entry : Bytes → World → Option Bytes
end_entry aid w = do
  content ← fopen_r (end_file aid) w
  line ← fgets 128 content
  let (date, s1) = strtok b' ' line
  let (time, s2) = strtok b' ' s1
  end_date ← date
  end_time ← time
  end_sec_time ← (strtok b'\n' s2).0
  _ ← require (is_valid_date_time end_date end_time)
  some (codes " E " ++ (end_date ++ b' ' ∷ (end_time ++ b' ' ∷ end_sec_time)))

-- The first two entries are `.` and `..`; of more than fifty bids the last fifty are taken.
unfoldable first_entry : ℕ → ℕ
first_entry n_entries = if ltb 52 n_entries then n_entries - 50 else 2

bidders_list : Bytes → Option (List Bytes) → World → Option Bytes
unfolding bid_entries end_entry first_entry text_of
bidders_list aid none w = none
bidders_list aid (some names) w =
    let entries = alphasort names in
    some (
      bid_entries aid (drop (first_entry (length entries)) entries) w
      ++ (text_of (end_entry aid w) ++ codes "\n"))

unfoldable pub get_auction_bidders_list : Bytes → World → Option Bytes
unfolding bidders_list
get_auction_bidders_list aid w = bidders_list aid (scandir (bids_dir aid) w) w
