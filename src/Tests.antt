-- ===== src/Tests.antt =====
-- Tests, and the theorems applied to concrete data.
mod Worlds
mod Exchanges
mod Showing
mod Commands
mod Servers
mod Session
mod Queues
mod Auctions
mod Reading
mod Names
mod Bids
mod Creating
