-- ===== src/Tcp/Close/Accept.antt =====
-- When an auction is closed by its owner.
use auction_server.Common.{◌≡◌, true, false, some, arith, Bytes, codes, bytes_eq}
use auction_server.Common.Int.{is_zero}
use auction_server.Libc.{strtok}
use auction_server.Udp.Dispatch.{c_string}
use auction_server.Tcp.Reading.{zero_buff}
use auction_server.Tcp.Close.{three_args}
use auction_server.Database.Auctions.{update_database}
use auction_server.Stream.{Conn, filled, read_tcp_stream}
use auction_server.Os.{World}
use auction_server.Database.Auctions.{exists_auction, is_auction_finished, get_auction_info}
use auction_server.Database.Hosting.{close_auction}
use auction_server.Database.Users.{exists_user, is_user_logged_in, is_authentic_user}
use auction_server.Tcp.Close.{close_request}
use auction_server.Tcp.Reading.{ended}

-- What an accepted CLS rests on, for the auction whose START line is `line`.
pub record Closed (uid passwd aid : Bytes) (w w' : World) (line owner : Bytes) : Type 0 where
  pub user : exists_user uid w ≡ true
  pub logged : is_user_logged_in uid w ≡ true
  pub authentic : is_zero (is_authentic_user uid passwd w) ≡ false
  pub auction : exists_auction aid w ≡ true
  pub info : get_auction_info aid 256 w ≡ some line
  pub owner_word : (strtok b' ' line).0 ≡ some owner
  pub is_owner : bytes_eq owner uid ≡ true
  pub running : is_auction_finished aid w ≡ false
  pub recorded : close_auction aid w ≡ (true, w')

-- A request is answered with RCL OK only where the user is logged in and sent the right password, the
-- auction exists, is the user's own and is not finished, and its end has been recorded.
pub close_request-Closed :
    (uid passwd aid : Bytes) (conn conn' : Conn) (w w' : World)
    → close_request uid passwd aid conn w ≡ ended 0 (codes "RCL OK\n") conn' w'
    → (line : Bytes) × (owner : Bytes) × Closed uid passwd aid w w' line owner
unfolding close_request
close_request-Closed uid passwd aid conn conn' w w' h = ground arith

-- What an accepted CLS rests on: the rules hold for the three words of the 20 bytes that were read
-- from `conn`, after `update_database`.
pub record ClosedByOwner (conn : Conn) (w w' : World) : Type 0 where
  pub uid : Bytes
  pub passwd : Bytes
  pub aid : Bytes
  pub buff : Bytes
  pub rest : Conn
  pub words_read : read_tcp_stream (zero_buff 128) 20 conn ≡ (filled buff, rest)
  pub words : three_args b'\n' (c_string buff) ≡ some (uid, passwd, aid)
  pub accepted :
      (line : Bytes) × (owner : Bytes) × Closed uid passwd aid (update_database w) w' line owner
