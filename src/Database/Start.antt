-- ===== src/Database/Start.antt =====
-- The start of server/database.c: the directories, and the number of the auctions that are there.
pub mod Restart
pub mod First
use auction_server.Common.{
  ℕ, suc, ◌+◌, true, false, not, ◌&&◌, Option, none, some, List, [], ◌∷◌, if◌then◌else◌, Bytes,
}
use auction_server.Validators.{is_hidden}
use auction_server.Os.{
  FilePath, root, users, auctions, dir, scanning, making, lookup, is_dir, is_absent, put, scandir,
}
use auction_server.Database.Monad.{Action, ◌>>◌, ensure_dir}

-- `mkdir(DB_ROOT)`: the directory that it is made in is there.
unfoldable make_root : Action
unfolding is_absent
make_root w =
    if w.refuses making root
    then (false, w)
    else (true, if is_absent (lookup root w.fs) then put root dir w else w)

-- The kernel may refuse to enter a directory as it may refuse to list it.
unfoldable chdir : FilePath → Action
unfolding is_dir
chdir p w = (not (w.refuses scanning p) && is_dir (lookup p w.fs), w)

-- The entries whose name does not start with a dot.
unfoldable pub visible_count : List Bytes → ℕ
unfolding is_hidden
visible_count [] = 0
visible_count (name ∷ names) =
    let rest = visible_count names in if is_hidden name then rest else suc rest

unfoldable count_entries : Option (List Bytes) → Action
unfolding visible_count
count_entries none w = (false, w)
count_entries (some names) w = (true, record w { auc_count = w.auc_count + visible_count names })

-- `opendir` and `readdir` give the entries that `scandir` gives.
unfoldable load_db_state : Action
unfolding count_entries scandir
load_db_state w = count_entries (scandir auctions w) w

unfoldable pub init_database : Action
unfolding make_root chdir ensure_dir load_db_state
init_database = do make_root; chdir root; ensure_dir users; ensure_dir auctions; load_db_state
