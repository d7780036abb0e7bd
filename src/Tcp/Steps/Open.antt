-- ===== src/Tcp/Steps/Open.antt =====
-- What `handle_open` of server/tcp.c does to the database is a sequence of calls of server/database.c.
use auction_server.Common.{
  ℕ, not, ◌||◌, Option, none, some, List, [], if-all, Bytes, ltb, ◌==◌, get_or,
}
use auction_server.Common.Int.{is_zero, pos_part}
use auction_server.Libc.{strtok, atoi}
use auction_server.Validators.{is_valid_uid, is_valid_passwd}
use auction_server.Stream.{
  Conn, ReadResult, filled, read_error, overrun, read_tcp_stream, err_tcp_read_closed,
}
use auction_server.Os.{World}
use auction_server.Database.Hosting.{create_new_auction}
use auction_server.Database.Users.{exists_user, is_user_logged_in, is_authentic_user}
use auction_server.Database.Steps.{Run, stays, one, creates}
use auction_server.Udp.Dispatch.{c_string}
use auction_server.Tcp.Reading.{zero_buff, End, result, at_close, at_failure, recv_bytes}
use auction_server.Tcp.Open.{
  arg_byte, open_answer, open_auction, open_args, open_passwd, open_uid, open_read, handle_open,
}
use auction_server.Tcp.Steps.Reach.{Reaches}

open_answer-Reaches :
    {w : World} (r : Option ℕ × Conn × World) → Run w r.2 → Reaches w (open_answer r)
unfolding open_answer
open_answer-Reaches (none, conn, w') h = h
open_answer-Reaches (some aid, conn, w') h = h

module _ (uid passwd : Bytes) (w : World) where
  open_auction-Reaches :
      (args : List Bytes) (conn : Conn) → Reaches w (open_auction uid passwd args conn w)
  unfolding open_auction open_answer
  open_auction-Reaches args conn =
      let sv = pos_part (atoi (get_or args 1 [])) in
      let ta = pos_part (atoi (get_or args 2 [])) in
      let fsize = pos_part (atoi (get_or args 4 [])) in
      let name = get_or args 0 [] in
      let fname = get_or args 3 [] in
      if-all (Reaches w) (sv == 999999) _ _ (stays w) (
        if-all (Reaches w) (fsize == 0 || ltb 10000000 fsize) _ _ (stays w) (
          if-all (Reaches w) (not (exists_user uid w) || not (is_user_logged_in uid w)) _ _
            (stays w)
            (if-all (Reaches w) (is_zero (is_authentic_user uid passwd w)) _ _ (stays w) (
              open_answer-Reaches (create_new_auction uid name fname sv ta fsize conn w)
                (one w _ (creates uid name fname sv ta fsize conn w))))))

  open_args-Reaches : (r : End (Option (List Bytes)) × Conn) → Reaches w (open_args uid passwd r w)
  unfolding open_args
  open_args-Reaches (at_close, conn) = stays w
  open_args-Reaches (at_failure, conn) = stays w
  open_args-Reaches (result none, conn) = stays w
  open_args-Reaches (result (some args), conn) = open_auction-Reaches args conn

open_passwd-Reaches :
    (uid : Bytes) (passwd : Option Bytes) (conn : Conn) (w : World)
    → Reaches w (open_passwd uid passwd conn w)
unfolding open_passwd
open_passwd-Reaches uid none conn w = stays w
open_passwd-Reaches uid (some passwd) conn w =
    if-all (Reaches w) (not (is_valid_passwd passwd)) _ _ (stays w) (
      open_args-Reaches uid passwd w
        (recv_bytes arg_byte (record { saved = []; current = [] }) conn))

open_uid-Reaches :
    (t : Option Bytes × Bytes) (conn : Conn) (w : World) → Reaches w (open_uid t conn w)
unfolding open_uid
open_uid-Reaches (none, rest) conn w = stays w
open_uid-Reaches (some uid, rest) conn w =
    if-all (Reaches w) (not (is_valid_uid uid)) _ _ (stays w)
      (open_passwd-Reaches uid (strtok b' ' rest).0 conn w)

open_read-Reaches : (r : ReadResult × Conn) (w : World) → Reaches w (open_read r w)
unfolding open_read
open_read-Reaches (overrun, conn) w = tt
open_read-Reaches (read_error e, conn) w =
    if-all (Reaches w) (e == err_tcp_read_closed) _ _ (stays w) (stays w)
open_read-Reaches (filled buff, conn) w =
    if-all (Reaches w) (not (get_or buff 15 0 == b' ')) _ _ (stays w)
      (open_uid-Reaches (strtok b' ' (c_string buff)) conn w)

pub handle_open-Reaches : (conn : Conn) (w : World) → Reaches w (handle_open conn w)
unfolding handle_open
handle_open-Reaches conn w = open_read-Reaches (read_tcp_stream (zero_buff 128) 16 conn) w
