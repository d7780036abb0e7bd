-- ===== src/Tcp/Steps.antt =====
-- What a connection does to the database is a sequence of the calls of server/database.c.
pub mod Reach
pub mod Open
pub mod Close
pub mod Bid
pub mod ShowAsset
use auction_server.Common.{
  not, Option, none, some, List, [], ◌∷◌, if-all, Bytes, ◌==◌, bytes_eq, All,
}
use auction_server.Stream.{Conn, ReadResult, filled, read_error, overrun, read_tcp_stream}
use auction_server.Os.{World}
use auction_server.Database.Steps.{Run, stays}
use auction_server.Udp.Dispatch.{c_string}
use auction_server.Tcp.Reading.{TcpResult, ended, crash, zero_buff}
use auction_server.Tcp.Dispatch.{
  Handler, tcp_command_table, search_table, get_tcp_handler_fn, get_tcp_error_msg, report, handled,
  run_handler, serve_command, serve_tcp_connection,
}
use auction_server.Tcp.Steps.Reach.{Reaches}
use auction_server.Tcp.Steps.Open.{handle_open-Reaches}
use auction_server.Tcp.Steps.Close.{handle_close-Reaches}
use auction_server.Tcp.Steps.Bid.{handle_bid-Reaches}
use auction_server.Tcp.Steps.ShowAsset.{handle_show_asset-Reaches}

-- A handler, or none, from which every world is reached by steps.
abbrev Stepping : Option Handler → Type 0
Stepping none = Unit
Stepping (some fn) = (conn : Conn) (w : World) → Reaches w (fn conn w)

search_table-Stepping :
    (cmd : Bytes) (table : List (Bytes × Handler))
    → All (λ e. Stepping (some e.1)) table
    → Stepping (search_table cmd table)
unfolding search_table
search_table-Stepping cmd [] h = tt
search_table-Stepping cmd ((op, fn) ∷ table) h =
    if-all Stepping (bytes_eq cmd op) (some fn) (search_table cmd table) h.0
      (search_table-Stepping cmd table h.1)

get_tcp_handler_fn-Stepping : (cmd : Bytes) → Stepping (get_tcp_handler_fn cmd)
unfolding get_tcp_handler_fn
get_tcp_handler_fn-Stepping cmd = search_table-Stepping cmd tcp_command_table (
  handle_open-Reaches,
  (handle_close-Reaches, (handle_show_asset-Reaches, (handle_bid-Reaches, tt))),
)

report-Reaches :
    {w w' : World} (msg : Option Bytes) (text : Bytes) (conn : Conn)
    → Run w w'
    → Reaches w (report msg text conn w')
unfolding report
report-Reaches none text conn h = tt
report-Reaches (some msg) text conn h = h

handled-Reaches : (r : TcpResult) (w : World) → Reaches w r → Reaches w (handled r)
unfolding handled
handled-Reaches crash w h = tt
handled-Reaches (ended err text conn w') w h =
    if-all (Reaches w) (not (err == 0)) _ _ (report-Reaches (get_tcp_error_msg err) text conn h) h

run_handler-Reaches :
    (fn : Option Handler) (conn : Conn) (w : World)
    → Stepping fn
    → Reaches w (run_handler fn conn w)
unfolding run_handler
run_handler-Reaches none conn w h = stays w
run_handler-Reaches (some fn) conn w h = handled-Reaches (fn conn w) w (h conn w)

serve_command-Reaches : (r : ReadResult × Conn) (w : World) → Reaches w (serve_command r w)
unfolding serve_command
serve_command-Reaches (overrun, conn) w = tt
serve_command-Reaches (read_error e, conn) w = stays w
serve_command-Reaches (filled buff, conn) w =
    run_handler-Reaches (get_tcp_handler_fn (c_string buff)) conn w
      (get_tcp_handler_fn-Stepping (c_string buff))

-- Whatever a peer sends, the database that its connection leaves is reached by calls of
-- server/database.c.
pub serve_tcp_connection-Reaches :
    (conn : Conn) (w : World) → Reaches w (serve_tcp_connection conn w)
unfolding serve_tcp_connection
serve_tcp_connection-Reaches conn w = serve_command-Reaches (read_tcp_stream (zero_buff 8) 4 conn) w
