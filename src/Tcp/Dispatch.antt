-- ===== src/Tcp/Dispatch.antt =====
-- The command table of server/tcp_command_table.c, and `handle_tcp_command` and
-- `serve_tcp_connection` of server/tcp.c.
use auction_server.Common.{
  ℕ, not, Option, none, some, List, [], ◌∷◌, ◌++◌, leb, ◌==◌, if◌then◌else◌, Bytes, codes, length,
  get_or, bytes_eq,
}
use auction_server.Stream.{Conn, ReadResult, filled, read_error, overrun, read_tcp_stream}
use auction_server.Os.{World}
use auction_server.Udp.Dispatch.{c_string}
use auction_server.Tcp.Bid.{handle_bid}
use auction_server.Tcp.Close.{handle_close}
use auction_server.Tcp.Open.{handle_open}
use auction_server.Tcp.Reading.{TcpResult, ended, crash, zero_buff}
use auction_server.Tcp.ShowAsset.{handle_show_asset}

abbrev pub Handler : Type 0
Handler = Conn → World → TcpResult

abbrev pub tcp_command_table : List (Bytes × Handler)
tcp_command_table =
    (codes "OPA ", handle_open)
    ∷ (codes "CLS ", handle_close)
    ∷ (codes "SAS ", handle_show_asset)
    ∷ (codes "BID ", handle_bid)
    ∷ []

unfoldable pub search_table : Bytes → List (Bytes × Handler) → Option Handler
search_table cmd [] = none
search_table cmd ((op, fn) ∷ table) = if bytes_eq cmd op then some fn else search_table cmd table

unfoldable pub get_tcp_handler_fn : Bytes → Option Handler
unfolding search_table bytes_eq
get_tcp_handler_fn cmd = search_table cmd tcp_command_table

abbrev tcp_errors_table : List Bytes
tcp_errors_table =
    [] ∷ codes "ROA ERR\n" ∷ codes "RCL ERR\n" ∷ codes "RSA ERR\n" ∷ codes "RBD ERR\n" ∷ []

unfoldable pub get_tcp_error_msg : ℕ → Option Bytes
get_tcp_error_msg errcode =
    if leb (length tcp_errors_table) errcode
    then none
    else some (get_or tcp_errors_table errcode [])

unfoldable pub report : Option Bytes → Bytes → Conn → World → TcpResult
report none sent conn w = crash
report (some msg) sent conn w = ended 0 (sent ++ msg) conn w

-- The message of an error code is sent behind what the handler sent.
unfoldable pub handled : TcpResult → TcpResult
unfolding report
handled crash = crash
handled (ended err sent conn w) =
    if not (err == 0) then report (get_tcp_error_msg err) sent conn w else ended 0 sent conn w

unfoldable pub run_handler : Option Handler → Conn → World → TcpResult
unfolding handled
run_handler none conn w = ended 0 (codes "ERR\n") conn w
run_handler (some fn) conn w = handled (fn conn w)

-- The command's four bytes are read; an unknown command, or none, is answered with ERR.
unfoldable pub serve_command : ReadResult × Conn → World → TcpResult
unfolding run_handler
serve_command (overrun, conn) w = crash
serve_command (read_error e, conn) w = ended 0 (codes "ERR\n") conn w
serve_command (filled buff, conn) w = run_handler (get_tcp_handler_fn (c_string buff)) conn w

unfoldable pub serve_tcp_connection : Conn → World → TcpResult
unfolding serve_command
serve_tcp_connection conn w = serve_command (read_tcp_stream (zero_buff 8) 4 conn) w
