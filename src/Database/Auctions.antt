-- ===== src/Database/Auctions.antt =====
-- The auctions of server/database.c.
pub mod Existence
pub mod Update
pub mod Writing
use auction_server.Common.{
  ℕ, ◌+◌, Bool, not, ◌&&◌, Option, none, some, List, [], ◌∷◌, ◌++◌, leb, if◌then◌else◌, Bytes,
}
use auction_server.Common.Int.{ℕ_sub, le_ℕ, lt_ℕ, is_pos, int_of, pos_part}
use auction_server.Libc.{atoi, print_dec}
use auction_server.Libc.Time.{datetime_str}
use auction_server.Validators.{is_valid_time_active, is_hidden}
use auction_server.Os.{
  FilePath, auctions, auction_dir, bids_dir, asset_dir, start_file, end_file, World, open_creat,
  fopen_r, fopen_w, fputs, scandir, fgets, text_of, take_bytes,
}
use auction_server.Database.Monad.{Action, ◌>>◌, ensure_dir}
use auction_server.Database.Names.{aid_of, nth_token}
use auction_server.Database.Users.{is_open}

-- `atoi(aid) <= auc_count && atoi(aid) > 0`
unfoldable pub exists_auction : Bytes → World → Bool
exists_auction aid w = le_ℕ (atoi aid) w.auc_count && is_pos (atoi aid)

unfoldable pub is_auction_finished : Bytes → World → Bool
is_auction_finished aid w = is_open (fopen_r (end_file aid) w)

unfoldable pub first_line : ℕ → Option Bytes → Option Bytes
first_line n none = none
first_line n (some s) = fgets n s

-- The line, or `none` for the return value 1.
unfoldable pub get_auction_info : Bytes → ℕ → World → Option Bytes
unfolding first_line
get_auction_info aid n w = first_line n (fopen_r (start_file aid) w)

-- The entry of an auction that `update_database` closes: `none` for `continue`. In the end that it
-- gives, a start that has wrapped to a negative number is taken for 0.
unfoldable expired : ℕ → Option Bytes → Option Bytes → Option (ℕ × ℕ)
expired now (some time_active) (some start_time) =
    let ta = pos_part (atoi time_active) in
    let start = int_of (atoi start_time) in
    if not (is_valid_time_active time_active)
    then none
    else if lt_ℕ (ℕ_sub now start) ta
    then none
    else some (pos_part start + ta, ta)
expired now _ _ = none

-- The END file is made, and then written.
unfoldable pub end_auction : FilePath → Bytes → Action
end_auction p text = do open_creat p; fopen_w p; fputs p text

unfoldable pub expire : Bytes → Option (ℕ × ℕ) → World → World
unfolding end_auction
expire aid none w = w
expire aid (some (end_time, ta)) w =
    (end_auction (end_file aid) (datetime_str end_time ++ b' ' ∷ (print_dec ta ++ b'\n' ∷ [])) w).1

-- Time active is the 5th word, the start time the 8th. An empty START file is read as an empty line.
unfoldable pub update_started : Bytes → Option Bytes → World → World
unfolding expired expire
update_started aid none w = w
update_started aid (some s) w =
    let (time_active, rest) = nth_token 4 b' ' (text_of (fgets 128 s)) in
    let (start_time, _) = nth_token 2 b' ' rest in
    expire aid (expired w.now time_active start_time) w

unfoldable pub update_entry : Bytes → World → World
unfolding update_started
update_entry name w =
    let aid = take_bytes 3 name in
    if is_hidden name
    then w
    else if is_open (fopen_r (end_file aid) w)
    then w
    else update_started aid (fopen_r (start_file aid) w) w

unfoldable pub update_entries : List Bytes → World → World
unfolding update_entry
update_entries [] w = w
update_entries (name ∷ names) w = update_entries names (update_entry name w)

unfoldable pub update_scanned : Option (List Bytes) → World → World
unfolding update_entries
update_scanned none w = w
update_scanned (some names) w = update_entries names w

unfoldable pub update_database : World → World
unfolding update_scanned
update_database w = update_scanned (scandir auctions w) w

-- The next AID, or -1 with the world that is left behind.
unfoldable pub create_auction_dir : World → Option ℕ × World
create_auction_dir w =
    let next = w.auc_count + 1 in
    let aid = aid_of next in
    let steps : Action = do
      ensure_dir (auction_dir aid)
      ensure_dir (bids_dir aid)
      ensure_dir (asset_dir aid)
    in let (done, w') = steps (record w { auc_count = next }) in
      if leb 999 w.auc_count then (none, w) else if done then (some next, w') else (none, w')
