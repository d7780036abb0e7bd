-- ===== src/Database/Keeping/Auctions.antt =====
-- Expiring, closing and bidding keep the tree, and write only END and bid files.
use auction_server.Common.{
  ℕ, refl, Bool-cases, inl, inr, Bytes, Option, none, some, List, [], ◌∷◌, ◌++◌, codes,
}
use auction_server.Common.Int.{ℤ}
use auction_server.Validators.{is_hidden}
use auction_server.Os.{
  auctions, end_file, bid_file, bidded_file, World, open_creat, fopen_r, scandir, take_bytes,
}
use auction_server.Database.Invariant.{IsDatabase}
use auction_server.Database.Names.{bid_name}
use auction_server.Database.Users.{is_open}
use auction_server.Database.Auctions.{
  get_auction_info, end_auction, expire, update_started, update_entry, update_entries,
  update_scanned, update_database,
}
use auction_server.Database.Hosting.{seconds_since, close_at, close_auction}
use auction_server.Database.Bids.{record_bid, bid}
use auction_server.Database.Keeping.{Kept, Kept-refl, Kept-trans}
use auction_server.Database.Keeping.Calls.{open_creat-Opening}
use auction_server.Database.Keeping.Lines.{write_line-Kept, write_line-then}

module _ (n : ℕ) where
  end_auction-Kept :
      (aid text : Bytes) (w : World)
      → IsDatabase w.fs
      → Kept n w (end_auction (end_file aid) text w).1
  unfolding end_auction
  end_auction-Kept aid text w db = write_line-Kept n (end_file aid) text w db (inl refl) refl

  expire-Kept :
      (aid : Bytes) (e : Option (ℕ × ℕ)) (w : World) → IsDatabase w.fs → Kept n w (expire aid e w)
  unfolding expire
  expire-Kept aid none w db = Kept-refl n w db
  expire-Kept aid (some (t, ta)) w db = end_auction-Kept aid _ w db

  update_started-Kept :
      (aid : Bytes) (s : Option Bytes) (w : World)
      → IsDatabase w.fs
      → Kept n w (update_started aid s w)
  unfolding update_started
  update_started-Kept aid none w db = Kept-refl n w db
  update_started-Kept aid (some s) w db = expire-Kept aid _ w db

  update_entry-Kept : (name : Bytes) (w : World) → IsDatabase w.fs → Kept n w (update_entry name w)
  unfolding update_entry
  update_entry-Kept name w db = elim (Bool-cases (is_hidden name)) [
    | inl e ↦ rw e (Kept-refl n w db)
    | inr e ↦ rw e (elim (Bool-cases (is_open (fopen_r (end_file (take_bytes 3 name)) w))) [
      | inl o ↦ rw o (Kept-refl n w db)
      | inr o ↦ rw o (update_started-Kept (take_bytes 3 name) _ w db)
    ])
  ]

  update_entries-Kept :
      (names : List Bytes) (w : World) → IsDatabase w.fs → Kept n w (update_entries names w)
  unfolding update_entries
  update_entries-Kept [] w db = Kept-refl n w db
  update_entries-Kept (name ∷ names) w db =
      let k = update_entry-Kept name w db in
      Kept-trans n w (update_entry name w) (update_entries names (update_entry name w)) k
        (update_entries-Kept names (update_entry name w) k.database)

  update_scanned-Kept :
      (names : Option (List Bytes)) (w : World)
      → IsDatabase w.fs
      → Kept n w (update_scanned names w)
  unfolding update_scanned
  update_scanned-Kept none w db = Kept-refl n w db
  update_scanned-Kept (some names) w db = update_entries-Kept names w db

  pub update_database-Kept : (w : World) → IsDatabase w.fs → Kept n w (update_database w)
  unfolding update_database
  update_database-Kept w db = update_scanned-Kept (scandir auctions w) w db

  close_at-Kept :
      (aid : Bytes) (s : Option ℤ) (w : World) → IsDatabase w.fs → Kept n w (close_at aid s w).1
  unfolding close_at
  close_at-Kept aid none w db = Kept-refl n w db
  close_at-Kept aid (some seconds) w db = end_auction-Kept aid _ w db

  pub close_auction-Kept :
      (aid : Bytes) (w : World) → IsDatabase w.fs → Kept n w (close_auction aid w).1
  unfolding close_auction
  close_auction-Kept aid w db =
      close_at-Kept aid (seconds_since w.now (get_auction_info aid 128 w)) w db

  record_bid-Kept :
      (aid uid : Bytes) (value : ℕ) (s : Option ℤ) (w : World)
      → IsDatabase w.fs
      → Kept n w (record_bid aid uid value s w).1
  unfolding record_bid
  record_bid-Kept aid uid value none w db = Kept-refl n w db
  record_bid-Kept aid uid value (some seconds) w db =
      let bidded = bidded_file uid (take_bytes 3 aid ++ codes ".txt") in
      write_line-then n (bid_file aid (bid_name value)) _ (open_creat bidded) w db (inl refl) refl
        λ v d. (open_creat-Opening n bidded v d (inl refl) refl).kept

  pub bid-Kept :
      (aid uid : Bytes) (value : ℕ) (w : World) → IsDatabase w.fs → Kept n w (bid aid uid value w).1
  unfolding bid
  bid-Kept aid uid value w db =
      record_bid-Kept aid uid value (seconds_since w.now (get_auction_info aid 128 w)) w db
