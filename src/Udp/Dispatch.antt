-- ===== src/Udp/Dispatch.antt =====
-- The command table of server/udp_command_table.c, `handle_udp_command` of server/udp.c, and what
-- the UDP thread of server/server.c does with one datagram.
pub mod Crash
use auction_server.Common.{
  ℕ, ◌-◌, not, Option, none, some, List, [], ◌∷◌, ltb, leb, ◌==◌, if◌then◌else◌, Bytes, codes,
  length, drop, take, get_or, bytes_eq,
}
use auction_server.Os.{World, take_bytes}
use auction_server.Udp.Session.{Reply, handle_login, handle_logout, handle_unregister}
use auction_server.Udp.Listing.{handle_my_auctions, handle_my_bids, handle_list, handle_show_record}

abbrev pub Handler : Type 0
Handler = Bytes → World → Reply × World

abbrev pub udp_command_table : List (Bytes × Handler)
udp_command_table =
    (codes "LIN ", handle_login)
    ∷ (codes "LOU ", handle_logout)
    ∷ (codes "UNR ", handle_unregister)
    ∷ (codes "LMA ", handle_my_auctions)
    ∷ (codes "LMB ", handle_my_bids)
    ∷ (codes "LST\n", handle_list)
    ∷ (codes "SRC ", handle_show_record)
    ∷ []

unfoldable pub search_table : Bytes → List (Bytes × Handler) → Option Handler
search_table cmd [] = none
search_table cmd ((op, fn) ∷ table) = if bytes_eq cmd op then some fn else search_table cmd table

unfoldable pub get_udp_handler_fn : Bytes → Option Handler
unfolding search_table bytes_eq
get_udp_handler_fn cmd = search_table cmd udp_command_table

abbrev udp_errors_table : List Bytes
udp_errors_table =
    codes "RLI ERR\n"
    ∷ codes "RLO ERR\n"
    ∷ codes "RUR ERR\n"
    ∷ codes "RMA ERR\n"
    ∷ codes "RMB ERR\n"
    ∷ codes "RRC ERR\n"
    ∷ []

-- NULL is `none`. The handlers' error codes are at least 1, so the index is not negative.
unfoldable pub get_udp_error_msg : ℕ → Option Bytes
get_udp_error_msg errcode =
    if leb (length udp_errors_table) errcode
    then none
    else some (get_or udp_errors_table (errcode - 1) [])

-- What becomes of a request: `unknown` is the return value -1, and `crash` a call of `strlen` on
-- the NULL of `get_udp_error_msg`.
pub data Outcome : Type 0 where
  replied : Bytes → ℕ → World → Outcome
  unknown : Outcome
  crash : Outcome

unfoldable pub report : Option Bytes → World → Outcome
report none w = crash
report (some msg) w = replied msg (length msg) w

unfoldable pub handled : Reply × World → Outcome
unfolding report
handled (r, w) =
    if not (r.err == 0)
    then report (get_udp_error_msg r.err) w
    else replied r.response r.response_len w

unfoldable pub run_handler : Option Handler → Bytes → World → Outcome
unfolding handled
run_handler none rest w = unknown
run_handler (some fn) rest w = handled (fn rest w)

unfoldable pub handle_udp_command : Bytes → World → Outcome
unfolding run_handler
handle_udp_command request w =
    let cmd = take_bytes 4 request in
    run_handler (get_udp_handler_fn cmd) (drop (length cmd) request) w

-- A buffer as a C string: its bytes before the first NUL.
unfoldable pub c_string : Bytes → Bytes
c_string [] = []
c_string (c ∷ s) = let rest = c_string s in if c == 0 then [] else c ∷ rest

unfoldable pub last_byte : Bytes → ℕ
last_byte [] = 0
last_byte (c ∷ []) = c
last_byte (c ∷ d ∷ s) = last_byte (d ∷ s)

-- What the UDP thread sends back for one datagram; `none` if the process dies.
pub data Sent : Type 0 where
  sent : Bytes → World → Sent
  died : Sent

unfoldable pub send : Outcome → World → Sent
send (replied text n w') w = sent (take n text) w'
send unknown w = sent (codes "ERR\n") w
send crash w = died

unfoldable pub serve_datagram : Bytes → World → Sent
unfolding send last_byte
serve_datagram datagram w =
    if length datagram == 0
    then sent (codes "ERR\n") w
    else if ltb 20 (length datagram)
    then sent (codes "ERR\n") w
    else if not (last_byte datagram == b'\n')
    then sent (codes "ERR\n") w
    else send (handle_udp_command (c_string datagram) w) w
