-- ===== src/Database/Hosting/Creating.antt =====
-- `create_new_auction` where nothing fails.
use auction_server.Common.{ℕ, ◌≡◌, ◌≢◌, none, some, Bytes}
use auction_server.Validators.{fname_len}
use auction_server.Os.{World, lookup, start_file, asset_file, hosted_file, file, take_bytes}
use auction_server.Database.Effects.{Ready}
use auction_server.Database.Names.{start_info}

-- The files of a new auction.
pub record Filled (uid name fname : Bytes) (sv ta : ℕ) (aid hosted s : Bytes) (now : ℕ) (w' : World)
    : Type 0 where
  pub ready : Ready w'
  pub start : lookup (start_file aid) w'.fs ≡ some (file (start_info uid name fname sv ta now))
  pub asset_kept : lookup (asset_file aid (take_bytes fname_len fname)) w'.fs ≡ some (file s)
  pub listed : lookup (hosted_file uid hosted) w'.fs ≢ none
