-- ===== src/Tcp/Close.antt =====
-- `handle_close` of server/tcp.c.
pub mod Accept
use auction_server.Common.{
  ℕ, Bool, not, ◌||◌, Option, none, some, [], ◌==◌, if◌then◌else◌, Bytes, codes, get_or, bytes_eq,
}
use auction_server.Common.Int.{is_zero}
use auction_server.Libc.{strtok}
use auction_server.Validators.{is_valid_uid, is_valid_passwd, is_valid_aid}
use auction_server.Stream.{
  Conn, ReadResult, filled, read_error, overrun, read_tcp_stream, err_tcp_read_closed,
}
use auction_server.Os.{World}
use auction_server.Database.Auctions.{
  exists_auction, is_auction_finished, get_auction_info, update_database,
}
use auction_server.Database.Hosting.{close_auction}
use auction_server.Database.Users.{exists_user, is_user_logged_in, is_authentic_user}
use auction_server.Udp.Dispatch.{c_string}
use auction_server.Tcp.Reading.{TcpResult, ended, crash, zero_buff}

abbrev cls_bad_args : ℕ
cls_bad_args = 2

-- `exists_user(uid) && is_user_logged_in(uid) && is_authentic_user(uid, passwd)`
unfoldable pub is_allowed : Bytes → Bytes → World → Bool
is_allowed uid passwd w = not (
    not (exists_user uid w)
    || not (is_user_logged_in uid w)
    || is_zero (is_authentic_user uid passwd w))

-- From the owner's check on.
unfoldable pub close_owned : Bytes → Bytes → Option Bytes → Conn → World → TcpResult
close_owned uid aid none conn w = crash
close_owned uid aid (some owner_uid) conn w =
    let (done, w') = close_auction aid w in
    if not (bytes_eq owner_uid uid)
    then ended 0 (codes "RCL EOW\n") conn w
    else if is_auction_finished aid w
    then ended 0 (codes "RCL END\n") conn w
    else if not done
    then ended 0 (codes "RCL NOK\n") conn w'
    else ended 0 (codes "RCL OK\n") conn w'

unfoldable pub close_info : Bytes → Bytes → Option Bytes → Conn → World → TcpResult
unfolding close_owned
close_info uid aid none conn w = ended 0 (codes "RCL NOK\n") conn w
close_info uid aid (some line) conn w = close_owned uid aid (strtok b' ' line).0 conn w

-- The checks against the database, for arguments that are valid.
unfoldable pub close_request : Bytes → Bytes → Bytes → Conn → World → TcpResult
unfolding close_info is_allowed
close_request uid passwd aid conn w =
    if not (is_allowed uid passwd w)
    then ended 0 (codes "RCL NLG\n") conn w
    else if not (exists_auction aid w)
    then ended 0 (codes "RCL EAU\n") conn w
    else close_info uid aid (get_auction_info aid 256 w) conn w

-- The three arguments, where they are there and valid.
unfoldable pub valid_args :
    Option Bytes → Option Bytes → Option Bytes → Option (Bytes × Bytes × Bytes)
valid_args (some uid) (some passwd) (some aid) =
    if not (is_valid_uid uid)
    then none
    else if not (is_valid_passwd passwd)
    then none
    else if not (is_valid_aid aid)
    then none
    else some (uid, passwd, aid)
valid_args _ _ _ = none

-- The third token ends at the delimiter `d`.
unfoldable pub three_args : ℕ → Bytes → Option (Bytes × Bytes × Bytes)
unfolding valid_args
three_args d s =
    let (uid, s1) = strtok b' ' s in
    let (passwd, s2) = strtok b' ' s1 in let (aid, s3) = strtok d s2 in valid_args uid passwd aid

unfoldable pub close_args : Option (Bytes × Bytes × Bytes) → Conn → World → TcpResult
close_args none conn w = ended cls_bad_args [] conn w
close_args (some (uid, passwd, aid)) conn w = close_request uid passwd aid conn (update_database w)

unfoldable pub close_read : ReadResult × Conn → World → TcpResult
unfolding close_args
close_read (overrun, conn) w = crash
close_read (read_error e, conn) w =
    if e == err_tcp_read_closed then ended 0 [] conn w else ended cls_bad_args [] conn w
close_read (filled buff, conn) w =
    if not (get_or buff 19 0 == b'\n')
    then ended cls_bad_args [] conn w
    else close_args (three_args b'\n' (c_string buff)) conn w

unfoldable pub handle_close : Conn → World → TcpResult
unfolding close_read
handle_close conn w = close_read (read_tcp_stream (zero_buff 128) 20 conn) w
