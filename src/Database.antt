-- ===== src/Database.antt =====
-- server/database.c, in children: the state that the files must keep, users, auctions, bids, and
-- the lists that the server sends. Every function runs under `db_mutex`, so a call is one step;
-- `lock_db_mutex` and `unlock_db_mutex` end the process when they fail, and are not written out.
pub mod Monad
pub mod Names
pub mod Invariant
pub mod Effects
pub mod Auctions
pub mod Hosting
pub mod Bids
pub mod Lists
pub mod Users
pub mod Start
pub mod Keeping
pub mod Steps
pub mod Account
