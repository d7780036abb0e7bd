-- ===== src/Database/Hosting.antt =====
-- Opening and closing an auction, in server/database.c.
pub mod Closing
pub mod Creating
use auction_server.Common.{
  ℕ, ◌-◌, Bool, false, not, ◌&&◌, Option, none, some, List, [], ◌∷◌, ◌++◌, if◌then◌else◌, Bytes,
}
use auction_server.Common.Int.{ℤ, is_zero, ℕ_sub}
use auction_server.Libc.{atoi, strtok}
use auction_server.Libc.Time.{datetime_str}
use auction_server.Validators.{is_hidden, fname_len}
use auction_server.Stream.{Conn, Asset, asset, asset_error, as_recv_asset_file}
use auction_server.Os.{
  FilePath, auction_dir, bids_dir, asset_dir, start_file, end_file, hosted_file, asset_file, parent,
  base_name, path_eq, Node, dir, file, Files, lookup, World, Call, is_dir, open_creat, fopen_w,
  fputs, write_start, remove, take_bytes,
}
use auction_server.Database.Auctions.{get_auction_info, create_auction_dir, end_auction}
use auction_server.Database.Monad.{Action, ◌>>◌}
use auction_server.Database.Names.{aid_of, hosted_name, print_int, start_info, nth_token}

-- Is it a regular file whose name is not hidden?
unfoldable pub is_regular : FilePath → Node → Bool
is_regular p dir = false
is_regular p (file s) = not (is_hidden (base_name p))

-- the regular files in a directory
unfoldable pub files_in : FilePath → Files → List FilePath
unfolding is_regular
files_in p [] = []
files_in p ((q, n) ∷ fs) =
    let rest = files_in p fs in if path_eq (parent q) p && is_regular q n then q ∷ rest else rest

unfoldable pub remove_all : List FilePath → World → World
remove_all [] w = w
remove_all (p ∷ ps) w = remove_all ps (remove p w).1

-- `opendir(p) != NULL`
unfoldable pub opendir : FilePath → World → Bool
opendir p w = not (w.refuses Call.scanning p) && is_dir (lookup p w.fs)

-- A directory is emptied of its files and removed; whatever goes wrong is only logged.
unfoldable pub remove_dir : FilePath → World → World
unfolding files_in remove_all opendir
remove_dir p w = if opendir p w then (remove p (remove_all (files_in p w.fs) w)).1 else w

-- If the auction's directory cannot be opened, nothing is done and the count stays.
unfoldable pub rollback_auction_dir_creation : World → World
unfolding remove_dir files_in remove_all opendir
rollback_auction_dir_creation w =
    let aid = aid_of w.auc_count in
    let w1 = remove_all (files_in (auction_dir aid) w.fs) w in
    let w2 = remove_dir (asset_dir aid) (remove_dir (bids_dir aid) w1) in
    let w3 = (remove (auction_dir aid) w2).1 in
    if not (opendir (auction_dir aid) w) then w else record w3 { auc_count = w3.auc_count - 1 }

-- The START file of the auction that `auc_count` names.
unfoldable pub write_start_file : Bytes → Bytes → Bytes → ℕ → ℕ → Action
write_start_file uid name fname sv ta w = steps w
  where
    path : FilePath
    path = start_file (aid_of w.auc_count)

    steps : Action
    steps = do open_creat path; fopen_w path; fputs path (start_info uid name fname sv ta w.now)

-- The asset as it was received goes into its file, and the auction to the user's HOSTED.
unfoldable pub keep_asset : Bytes → Bytes → ℕ → Asset → Action
keep_asset uid fname auc_id (asset_error e) w = (false, w)
keep_asset uid fname auc_id (asset s) w = steps w
  where
    steps : Action
    steps = do
      write_start (asset_file (aid_of w.auc_count) (take_bytes fname_len fname)) s
      open_creat (hosted_file uid (hosted_name auc_id))

-- The steps behind the directory's creation, up to the first that fails. The connection is read
-- only once the asset file is there.
unfoldable pub fill_auction :
    Bytes → Bytes → Bytes → ℕ → ℕ → ℕ → ℕ → Conn → World → Bool × Conn × World
unfolding write_start_file keep_asset
fill_auction uid name fname sv ta fsize auc_id conn w =
    let (started, w1) = write_start_file uid name fname sv ta w in
    let (opened, w2) =
      open_creat (asset_file (aid_of w1.auc_count) (take_bytes fname_len fname)) w1 in
    let (received, conn') = as_recv_asset_file fsize conn in
    let (kept, w3) = keep_asset uid fname auc_id received w2 in
    if not started
    then (false, conn, w1)
    else if not opened
    then (false, conn, w2)
    else (kept, conn', w3)

unfoldable pub created :
    Bytes → Bytes → Bytes → ℕ → ℕ → ℕ → Conn → Option ℕ × World → Option ℕ × Conn × World
unfolding fill_auction
created uid name fname sv ta fsize conn (none, w) = (none, conn, w)
created uid name fname sv ta fsize conn (some auc_id, w) =
    let (done, conn', w') = fill_auction uid name fname sv ta fsize auc_id conn w in
    if done then (some auc_id, conn', w') else (none, conn', rollback_auction_dir_creation w')

-- The AID of the new auction, or -1.
unfoldable pub create_new_auction :
    Bytes → Bytes → Bytes → ℕ → ℕ → ℕ → Conn → World → Option ℕ × Conn × World
unfolding created
create_new_auction uid name fname sv ta fsize conn w =
    created uid name fname sv ta fsize conn (create_auction_dir w)

-- The seconds since the auction's start, from the last word of its START line.
unfoldable pub seconds_since : ℕ → Option Bytes → Option ℤ
seconds_since now none = none
seconds_since now (some line) = elim (strtok b'\n' (nth_token 6 b' ' line).1).0 [
  | none ↦ none
  | some start_time ↦ if is_zero (atoi start_time) then none else some (ℕ_sub now (atoi start_time))
]

unfoldable pub close_at : Bytes → Option ℤ → Action
close_at aid none w = (false, w)
close_at aid (some seconds) w =
    end_auction (end_file aid) (datetime_str w.now ++ b' ' ∷ print_int seconds) w

-- Whatever is not 0 is an error to the caller.
unfoldable pub close_auction : Bytes → Action
unfolding close_at seconds_since
close_auction aid w = close_at aid (seconds_since w.now (get_auction_info aid 128 w)) w
