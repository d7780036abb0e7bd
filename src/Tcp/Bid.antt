-- ===== src/Tcp/Bid.antt =====
-- `handle_bid` of server/tcp.c.
pub mod Accept
pub mod Value
use auction_server.Common.{
  ℕ, not, ◌&&◌, ◌||◌, Option, none, some, [], ◌∷◌, ◌++◌, ltb, leb, ◌==◌, if◌then◌else◌, Bytes,
  codes, length, bytes_eq, ◌⊎◌, inl, inr,
}
use auction_server.Common.Int.{ℤ, is_zero, is_neg, pos_part}
use auction_server.Libc.{strtok, atoi}
use auction_server.Validators.{is_valid_start_value}
use auction_server.Stream.{
  Conn, ReadResult, filled, read_error, overrun, read_tcp_stream, err_tcp_read_closed,
}
use auction_server.Os.{World}
use auction_server.Database.Auctions.{
  exists_auction, is_auction_finished, get_auction_info, update_database,
}
use auction_server.Database.Bids.{get_last_bid, bid}
use auction_server.Database.Names.{nth_token}
use auction_server.Database.Users.{exists_user, is_user_logged_in, is_authentic_user}
use auction_server.Udp.Dispatch.{c_string}
use auction_server.Tcp.Close.{three_args}
use auction_server.Tcp.Reading.{
  TcpResult, ended, crash, zero_buff, End, result, at_close, at_failure, recv_bytes,
}

abbrev bid_bad_args : ℕ
bid_bad_args = 4

abbrev max_bid_value : ℕ
max_bid_value = 6

-- One round of the loop over the bid's value, on the digits kept so far; `inr none` is
-- BID_BAD_ARGS. Leading zeros are passed over.
unfoldable pub value_byte : Bytes → ℕ → Bytes ⊎ Option Bytes
value_byte value c =
    let value' = value ++ c ∷ [] in
    if c == b'\n'
    then inr (some value)
    else if length value == 0 && c == b'0'
    then inl value
    else if ltb c b'0' || ltb b'9' c
    then inr none
    else if length value' == max_bid_value
    then inr (some value')
    else inl value'

-- What a new bid must exceed: the last bid, or the start value if there is none.
unfoldable pub threshold : ℤ → ℕ → ℕ
threshold last_bid start_bid = if is_zero last_bid then start_bid else pos_part last_bid

unfoldable pub place_bid : Bytes → Bytes → ℕ → ℕ → Conn → World → TcpResult
unfolding threshold
place_bid uid aid start_bid bid_value conn w =
    let last_bid = get_last_bid aid w in
    let (done, w') = bid aid uid bid_value w in
    if is_neg last_bid
    then ended bid_bad_args [] conn w
    else if leb bid_value (threshold last_bid start_bid)
    then ended 0 (codes "RBD REF\n") conn w
    else if not done
    then ended bid_bad_args [] conn w'
    else ended 0 (codes "RBD ACC\n") conn w'

unfoldable pub bid_started : Bytes → Bytes → Option Bytes → ℕ → Conn → World → TcpResult
unfolding place_bid
bid_started uid aid none bid_value conn w = crash
bid_started uid aid (some starting_value) bid_value conn w =
    if not (is_valid_start_value starting_value)
    then ended bid_bad_args [] conn w
    else place_bid uid aid (pos_part (atoi starting_value)) bid_value conn w

unfoldable pub bid_owned :
    Bytes → Bytes → Option Bytes → Option Bytes → ℕ → Conn → World → TcpResult
unfolding bid_started
bid_owned uid aid none starting_value bid_value conn w = crash
bid_owned uid aid (some owner_uid) starting_value bid_value conn w =
    if bytes_eq owner_uid uid
    then ended 0 (codes "RBD ILG\n") conn w
    else if is_auction_finished aid w
    then ended 0 (codes "RBD NOK\n") conn w
    else bid_started uid aid starting_value bid_value conn w

-- The owner is the first word of the START line, the start value the fourth.
unfoldable pub bid_info : Bytes → Bytes → Option Bytes → ℕ → Conn → World → TcpResult
unfolding bid_owned
bid_info uid aid none bid_value conn w = ended 0 (codes "RBD NOK\n") conn w
bid_info uid aid (some line) bid_value conn w =
    bid_owned uid aid (strtok b' ' line).0 (nth_token 3 b' ' line).0 bid_value conn w

-- The checks against the database, for arguments that are valid.
unfoldable pub bid_request : Bytes → Bytes → Bytes → ℕ → Conn → World → TcpResult
unfolding bid_info
bid_request uid passwd aid bid_value conn w =
    if not (exists_user uid w)
    then ended 0 (codes "RBD NOK\n") conn w
    else if not (is_user_logged_in uid w) || is_zero (is_authentic_user uid passwd w)
    then ended 0 (codes "RBD NLG\n") conn w
    else if not (exists_auction aid w)
    then ended 0 (codes "RBD ERR\n") conn w
    else bid_info uid aid (get_auction_info aid 256 w) bid_value conn w

unfoldable pub bid_args : Option (Bytes × Bytes × Bytes) → ℕ → Conn → World → TcpResult
bid_args none bid_value conn w = ended bid_bad_args [] conn w
bid_args (some (uid, passwd, aid)) bid_value conn w =
    bid_request uid passwd aid bid_value conn (update_database w)

unfoldable pub bid_value_read : Bytes → End (Option Bytes) × Conn → World → TcpResult
unfolding bid_args
bid_value_read buff (at_close, conn) w = ended 0 [] conn w
bid_value_read buff (at_failure, conn) w = ended bid_bad_args [] conn w
bid_value_read buff (result none, conn) w = ended bid_bad_args [] conn w
bid_value_read buff (result (some value), conn) w =
    bid_args (three_args b' ' (c_string buff)) (pos_part (atoi value)) conn w

unfoldable pub bid_read : ReadResult × Conn → World → TcpResult
unfolding bid_value_read
bid_read (overrun, conn) w = crash
bid_read (read_error e, conn) w =
    if e == err_tcp_read_closed then ended 0 [] conn w else ended bid_bad_args [] conn w
bid_read (filled buff, conn) w = bid_value_read buff (recv_bytes value_byte [] conn) w

unfoldable pub handle_bid : Conn → World → TcpResult
unfolding bid_read
handle_bid conn w = bid_read (read_tcp_stream (zero_buff 32) 20 conn) w
