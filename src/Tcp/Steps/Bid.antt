-- ===== src/Tcp/Steps/Bid.antt =====
-- What `handle_bid` of server/tcp.c does to the database is a sequence of calls of server/database.c.
use auction_server.Common.{ℕ, not, ◌||◌, Option, none, some, [], if-all, Bytes, leb, ◌==◌, bytes_eq}
use auction_server.Common.Int.{is_zero, is_neg, pos_part}
use auction_server.Libc.{strtok, atoi}
use auction_server.Validators.{is_valid_start_value}
use auction_server.Stream.{
  Conn, ReadResult, filled, read_error, overrun, read_tcp_stream, err_tcp_read_closed,
}
use auction_server.Os.{World}
use auction_server.Database.Auctions.{
  exists_auction, is_auction_finished, get_auction_info, update_database,
}
use auction_server.Database.Bids.{get_last_bid, bid}
use auction_server.Database.Names.{nth_token}
use auction_server.Database.Users.{exists_user, is_user_logged_in, is_authentic_user}
use auction_server.Database.Steps.{stays, one, bids}
use auction_server.Udp.Dispatch.{c_string}
use auction_server.Tcp.Reading.{zero_buff, End, result, at_close, at_failure, recv_bytes}
use auction_server.Tcp.Close.{three_args}
use auction_server.Tcp.Bid.{
  threshold, place_bid, bid_started, bid_owned, bid_info, bid_request, bid_args, bid_value_read,
  bid_read, value_byte, handle_bid,
}
use auction_server.Tcp.Steps.Reach.{Reaches, updated}

module _ (uid aid : Bytes) (value : ℕ) (conn : Conn) (w : World) where
  place_bid-Reaches : (start_bid : ℕ) → Reaches w (place_bid uid aid start_bid value conn w)
  unfolding place_bid
  place_bid-Reaches start_bid =
      let placed = one w _ (bids aid uid value w) in
      let last = get_last_bid aid w in
      if-all (Reaches w) (is_neg last) _ _ (stays w) (
        if-all (Reaches w) (leb value (threshold last start_bid)) _ _ (stays w)
          (if-all (Reaches w) (not (bid aid uid value w).0) _ _ placed placed))

  bid_started-Reaches : (start : Option Bytes) → Reaches w (bid_started uid aid start value conn w)
  unfolding bid_started
  bid_started-Reaches none = tt
  bid_started-Reaches (some start) =
      if-all (Reaches w) (not (is_valid_start_value start)) _ _ (stays w)
        (place_bid-Reaches (pos_part (atoi start)))

  bid_owned-Reaches :
      (owner start : Option Bytes) → Reaches w (bid_owned uid aid owner start value conn w)
  unfolding bid_owned
  bid_owned-Reaches none start = tt
  bid_owned-Reaches (some owner) start =
      if-all (Reaches w) (bytes_eq owner uid) _ _ (stays w)
        (if-all (Reaches w) (is_auction_finished aid w) _ _ (stays w) (bid_started-Reaches start))

  bid_info-Reaches : (line : Option Bytes) → Reaches w (bid_info uid aid line value conn w)
  unfolding bid_info
  bid_info-Reaches none = stays w
  bid_info-Reaches (some line) = bid_owned-Reaches (strtok b' ' line).0 (nth_token 3 b' ' line).0

bid_args-Reaches :
    (args : Option (Bytes × Bytes × Bytes)) (value : ℕ) (conn : Conn) (w : World)
    → Reaches w (bid_args args value conn w)
unfolding bid_args bid_request
bid_args-Reaches none value conn w = stays w
bid_args-Reaches (some (uid, passwd, aid)) value conn w =
    let v = update_database w in
    updated w _ (
      if-all (Reaches v) (not (exists_user uid v)) _ _ (stays v) (
        if-all (Reaches v)
          (not (is_user_logged_in uid v) || is_zero (is_authentic_user uid passwd v)) _ _ (stays v)
          (if-all (Reaches v) (not (exists_auction aid v)) _ _ (stays v)
            (bid_info-Reaches uid aid value conn v (get_auction_info aid 256 v)))))

bid_value_read-Reaches :
    (buff : Bytes) (r : End (Option Bytes) × Conn) (w : World) → Reaches w (bid_value_read buff r w)
unfolding bid_value_read
bid_value_read-Reaches buff (at_close, conn) w = stays w
bid_value_read-Reaches buff (at_failure, conn) w = stays w
bid_value_read-Reaches buff (result none, conn) w = stays w
bid_value_read-Reaches buff (result (some value), conn) w =
    bid_args-Reaches (three_args b' ' (c_string buff)) (pos_part (atoi value)) conn w

bid_read-Reaches : (r : ReadResult × Conn) (w : World) → Reaches w (bid_read r w)
unfolding bid_read
bid_read-Reaches (overrun, conn) w = tt
bid_read-Reaches (read_error e, conn) w =
    if-all (Reaches w) (e == err_tcp_read_closed) _ _ (stays w) (stays w)
bid_read-Reaches (filled buff, conn) w =
    bid_value_read-Reaches buff (recv_bytes value_byte [] conn) w

pub handle_bid-Reaches : (conn : Conn) (w : World) → Reaches w (handle_bid conn w)
unfolding handle_bid
handle_bid-Reaches conn w = bid_read-Reaches (read_tcp_stream (zero_buff 32) 20 conn) w
