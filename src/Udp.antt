-- ===== src/Udp.antt =====
-- server/udp.c and server/udp_command_table.c.
pub mod Session
pub mod Listing
pub mod Dispatch
pub mod Steps
