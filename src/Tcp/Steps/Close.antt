-- ===== src/Tcp/Steps/Close.antt =====
-- What `handle_close` of server/tcp.c does to the database is a sequence of calls of server/database.c.
use auction_server.Common.{not, Option, none, some, if-all, Bytes, ◌==◌, bytes_eq, get_or}
use auction_server.Libc.{strtok}
use auction_server.Stream.{
  Conn, ReadResult, filled, read_error, overrun, read_tcp_stream, err_tcp_read_closed,
}
use auction_server.Os.{World}
use auction_server.Database.Auctions.{
  exists_auction, is_auction_finished, get_auction_info, update_database,
}
use auction_server.Database.Hosting.{close_auction}
use auction_server.Database.Steps.{stays, one, closes}
use auction_server.Udp.Dispatch.{c_string}
use auction_server.Tcp.Reading.{zero_buff}
use auction_server.Tcp.Close.{
  is_allowed, close_owned, close_info, close_request, close_args, close_read, three_args,
  handle_close,
}
use auction_server.Tcp.Steps.Reach.{Reaches, updated}

close_owned-Reaches :
    (uid aid : Bytes) (owner : Option Bytes) (conn : Conn) (w : World)
    → Reaches w (close_owned uid aid owner conn w)
unfolding close_owned
close_owned-Reaches uid aid none conn w = tt
close_owned-Reaches uid aid (some owner) conn w =
    let closed = one w _ (closes aid w) in
    if-all (Reaches w) (not (bytes_eq owner uid)) _ _ (stays w) (
      if-all (Reaches w) (is_auction_finished aid w) _ _ (stays w)
        (if-all (Reaches w) (not (close_auction aid w).0) _ _ closed closed))

close_info-Reaches :
    (uid aid : Bytes) (line : Option Bytes) (conn : Conn) (w : World)
    → Reaches w (close_info uid aid line conn w)
unfolding close_info
close_info-Reaches uid aid none conn w = stays w
close_info-Reaches uid aid (some line) conn w =
    close_owned-Reaches uid aid (strtok b' ' line).0 conn w

close_args-Reaches :
    (args : Option (Bytes × Bytes × Bytes)) (conn : Conn) (w : World)
    → Reaches w (close_args args conn w)
unfolding close_args close_request
close_args-Reaches none conn w = stays w
close_args-Reaches (some (uid, passwd, aid)) conn w =
    let v = update_database w in
    updated w _ (
      if-all (Reaches v) (not (is_allowed uid passwd v)) _ _ (stays v) (
        if-all (Reaches v) (not (exists_auction aid v)) _ _ (stays v)
          (close_info-Reaches uid aid (get_auction_info aid 256 v) conn v)))

close_read-Reaches : (r : ReadResult × Conn) (w : World) → Reaches w (close_read r w)
unfolding close_read
close_read-Reaches (overrun, conn) w = tt
close_read-Reaches (read_error e, conn) w =
    if-all (Reaches w) (e == err_tcp_read_closed) _ _ (stays w) (stays w)
close_read-Reaches (filled buff, conn) w =
    if-all (Reaches w) (not (get_or buff 19 0 == b'\n')) _ _ (stays w)
      (close_args-Reaches (three_args b'\n' (c_string buff)) conn w)

pub handle_close-Reaches : (conn : Conn) (w : World) → Reaches w (handle_close conn w)
unfolding handle_close
handle_close-Reaches conn w = close_read-Reaches (read_tcp_stream (zero_buff 128) 20 conn) w
