-- ===== src/Tcp/ShowAsset.antt =====
-- `handle_show_asset` of server/tcp.c, with `as_send_asset_file` of utils/utils.c, whose failures
-- the handler does not see.
use auction_server.Common.{
  ℕ, not, Option, none, some, [], ◌∷◌, ◌++◌, ◌==◌, if◌then◌else◌, Bytes, codes, length, get_or,
}
use auction_server.Libc.{strtok, print_dec}
use auction_server.Validators.{is_valid_aid}
use auction_server.Stream.{
  Conn, ReadResult, filled, read_error, overrun, read_tcp_stream, err_tcp_read_closed,
}
use auction_server.Os.{World, asset_file, fopen_r}
use auction_server.Database.Auctions.{exists_auction, get_auction_info}
use auction_server.Database.Names.{nth_token}
use auction_server.Udp.Dispatch.{c_string}
use auction_server.Tcp.Reading.{TcpResult, ended, crash, zero_buff}

abbrev sas_bad_args : ℕ
sas_bad_args = 3

-- "RSA OK %s %ld ", the file, and a newline
unfoldable pub asset_text : Bytes → Bytes → Bytes
asset_text fname content =
    codes "RSA OK "
    ++ (fname ++ b' ' ∷ (print_dec (length content) ++ b' ' ∷ (content ++ b'\n' ∷ [])))

unfoldable pub asset_reply : Bytes → Option Bytes → Conn → World → TcpResult
asset_reply fname none conn w = ended 0 (codes "RSA NOK\n") conn w
asset_reply fname (some content) conn w = ended 0 (asset_text fname content) conn w

unfoldable pub asset_named : Bytes → Option Bytes → Conn → World → TcpResult
unfolding asset_reply
asset_named aid none conn w = ended 0 (codes "RSA NOK\n") conn w
asset_named aid (some fname) conn w = asset_reply fname (fopen_r (asset_file aid fname) w) conn w

unfoldable pub asset_info : Bytes → Option Bytes → Conn → World → TcpResult
unfolding asset_named
asset_info aid none conn w = ended 0 (codes "RSA NOK\n") conn w
asset_info aid (some line) conn w = asset_named aid (nth_token 2 b' ' line).0 conn w

unfoldable pub show_asset : Option Bytes → Conn → World → TcpResult
unfolding asset_info
show_asset none conn w = ended sas_bad_args [] conn w
show_asset (some aid) conn w =
    if not (is_valid_aid aid)
    then ended sas_bad_args [] conn w
    else if not (exists_auction aid w)
    then ended 0 (codes "RSA NOK\n") conn w
    else asset_info aid (get_auction_info aid 256 w) conn w

unfoldable pub show_read : ReadResult × Conn → World → TcpResult
unfolding show_asset
show_read (overrun, conn) w = crash
show_read (read_error e, conn) w =
    if e == err_tcp_read_closed then ended 0 [] conn w else ended sas_bad_args [] conn w
show_read (filled buff, conn) w =
    if not (get_or buff 3 0 == b'\n')
    then ended sas_bad_args [] conn w
    else show_asset (strtok b'\n' (c_string buff)).0 conn w

unfoldable pub handle_show_asset : Conn → World → TcpResult
unfolding show_read
handle_show_asset conn w = show_read (read_tcp_stream (zero_buff 8) 4 conn) w
