-- ===== src/Tcp.antt =====
-- server/tcp.c and server/tcp_command_table.c, a child for each command.
pub mod Reading
pub mod Open
pub mod Close
pub mod ShowAsset
pub mod Bid
pub mod Dispatch
pub mod Steps
