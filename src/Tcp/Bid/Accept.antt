-- ===== src/Tcp/Bid/Accept.antt =====
-- When a bid is accepted.
use auction_server.Common.{ℕ, ◌≡◌, refl, ◌<◌, true, false, some, arith, Bytes, codes, bytes_eq}
use auction_server.Common.Int.{is_zero, pos_part}
use auction_server.Libc.{strtok, atoi}
use auction_server.Stream.{Conn, ReadResult, filled, read_error, overrun, read_tcp_stream}
use auction_server.Common.{Option, none, ◌≤◌, []}
use auction_server.Os.{World}
use auction_server.Database.Auctions.{exists_auction, is_auction_finished, get_auction_info}
use auction_server.Database.Bids.{get_last_bid, bid}
use auction_server.Database.Names.{nth_token}
use auction_server.Database.Users.{exists_user, is_user_logged_in, is_authentic_user}
use auction_server.Tcp.Bid.{bid_request, threshold}
use auction_server.Database.Auctions.{update_database}
use auction_server.Tcp.Bid.{handle_bid, bid_read, bid_value_read, bid_args, value_byte}
use auction_server.Tcp.Close.{three_args}
use auction_server.Udp.Dispatch.{c_string}
use auction_server.Tcp.Bid.Value.{Kept, BidDigits, small_value, recv_value-BidDigits}
use auction_server.Tcp.Reading.Invariant.{EndOk}
use auction_server.Tcp.Reading.{End, result, at_close, at_failure, recv_bytes, zero_buff, ended}

-- The rules of the auction for an accepted bid on the auction whose START line is `line`.
pub record Accepted (uid passwd aid : Bytes) (value : ℕ) (w w' : World) (line owner start : Bytes)
    : Type 0 where
  pub user : exists_user uid w ≡ true
  pub logged : is_user_logged_in uid w ≡ true
  pub authentic : is_zero (is_authentic_user uid passwd w) ≡ false
  pub auction : exists_auction aid w ≡ true
  pub info : get_auction_info aid 256 w ≡ some line
  pub owner_word : (strtok b' ' line).0 ≡ some owner
  pub start_word : (nth_token 3 b' ' line).0 ≡ some start
  pub not_owner : bytes_eq owner uid ≡ false
  pub running : is_auction_finished aid w ≡ false
  pub higher : threshold (get_last_bid aid w) (pos_part (atoi start)) < value
  pub recorded : bid aid uid value w ≡ (true, w')

-- A bid is answered with RBD ACC only where the bidder is a user who is logged in and sent the right
-- password, the auction exists, is not finished and is not the bidder's own, the value is above the
-- last bid (above the start value if there is none), and the bid has been recorded.
pub bid_request-Accepted :
    (uid passwd aid : Bytes) (value : ℕ) (conn conn' : Conn) (w w' : World)
    → bid_request uid passwd aid value conn w ≡ ended 0 (codes "RBD ACC\n") conn' w'
    → (line : Bytes) × (owner : Bytes) × (start : Bytes) × Accepted uid passwd aid value w w' line
        owner start
unfolding bid_request
bid_request-Accepted uid passwd aid value conn conn' w w' h = ground arith

-- What an accepted BID rests on: the rules hold for the arguments that were read from `conn`, after
-- `update_database`. The UID, the password and the AID are the words of the first 20 bytes, the value
-- is the number that follows.
pub record Placed (conn : Conn) (w w' : World) : Type 0 where
  pub uid : Bytes
  pub passwd : Bytes
  pub aid : Bytes
  pub digits : Bytes
  pub buff : Bytes
  pub behind : Conn
  pub rest : Conn
  pub words_read : read_tcp_stream (zero_buff 32) 20 conn ≡ (filled buff, behind)
  pub words : three_args b' ' (c_string buff) ≡ some (uid, passwd, aid)
  pub value_read : recv_bytes value_byte [] behind ≡ (result (some digits), rest)
  pub small : pos_part (atoi digits) ≤ 999999
  pub accepted :
      (line : Bytes) × (owner : Bytes) × (start : Bytes) × Accepted uid passwd aid
        (pos_part (atoi digits))
        (update_database w)
        w'
        line
        owner
        start

module _ (conn conn' : Conn) (w w' : World) where
  args-Placed :
      (args : Option (Bytes × Bytes × Bytes)) (buff digits : Bytes) (behind rest : Conn)
      → read_tcp_stream (zero_buff 32) 20 conn ≡ (filled buff, behind)
      → three_args b' ' (c_string buff) ≡ args
      → recv_bytes value_byte [] behind ≡ (result (some digits), rest)
      → pos_part (atoi digits) ≤ 999999
      → bid_args args (pos_part (atoi digits)) rest w ≡ ended 0 (codes "RBD ACC\n") conn' w'
      → Placed conn w w'
  unfolding bid_args
  args-Placed none buff digits behind rest r k v h e = absurd (ground arith)
  args-Placed (some (uid, passwd, aid)) buff digits behind rest r k v h e = record {
    uid = uid;
    passwd = passwd;
    aid = aid;
    digits = digits;
    buff = buff;
    behind = behind;
    rest = rest;
    words_read = r;
    words = k;
    value_read = v;
    small = h;
    accepted =
        bid_request-Accepted uid passwd aid (pos_part (atoi digits)) rest conn' (update_database w)
          w' e;
  }

  value-Placed :
      (buff : Bytes) (behind : Conn) (r : End (Option Bytes) × Conn)
      → read_tcp_stream (zero_buff 32) 20 conn ≡ (filled buff, behind)
      → recv_bytes value_byte [] behind ≡ r
      → EndOk Kept BidDigits r.0
      → bid_value_read buff r w ≡ ended 0 (codes "RBD ACC\n") conn' w'
      → Placed conn w w'
  unfolding bid_value_read
  value-Placed buff behind (at_close, rest) h v k e = absurd (ground arith)
  value-Placed buff behind (at_failure, rest) h v k e = absurd (ground arith)
  value-Placed buff behind (result none, rest) h v k e = absurd (ground arith)
  value-Placed buff behind (result (some digits), rest) h v k e =
      args-Placed _ buff digits behind rest h refl v (small_value digits k.0 k.1) e

  read-Placed :
      (r : ReadResult × Conn)
      → read_tcp_stream (zero_buff 32) 20 conn ≡ r
      → bid_read r w ≡ ended 0 (codes "RBD ACC\n") conn' w'
      → Placed conn w w'
  unfolding bid_read
  read-Placed (overrun, behind) h e = absurd (ground arith)
  read-Placed (read_error n, behind) h e = absurd (ground arith)
  read-Placed (filled buff, behind) h e =
      value-Placed buff behind (recv_bytes value_byte [] behind) h refl
        (recv_value-BidDigits behind) e

-- Whatever a peer sends, `handle_bid` answers RBD ACC only where the first 20 bytes hold a UID, a
-- password and an AID, and the number behind them, of at most 999999, is a bid of that user with that
-- password on that auction that keeps the rules, as the database stands after `update_database`.
pub handle_bid-Placed :
    (conn conn' : Conn) (w w' : World)
    → handle_bid conn w ≡ ended 0 (codes "RBD ACC\n") conn' w'
    → Placed conn w w'
unfolding handle_bid
handle_bid-Placed conn conn' w w' e = read-Placed conn conn' w w' _ refl e
