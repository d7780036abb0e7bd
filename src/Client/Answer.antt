-- ===== src/Client/Answer.antt =====
-- What the TCP handlers of client/tcp.c do with the server's answer: the parts that they share.
use auction_server.Common.{ℕ, Bool, false, not, List, [], ◌∷◌, ◌==◌, if◌then◌else◌, Bytes, bytes_eq}
use auction_server.Stream.{
  Conn, got, broken, ReadResult, filled, read_error, overrun, read_tcp_stream, err_tcp_read_closed,
}
use auction_server.Tcp.Reading.{zero_buff}
use auction_server.Udp.Dispatch.{c_string}
use auction_server.Client.{
  Errno, broken_pipe, is_would_block, ClientState, Result, returned, overflow, Link, unconnected,
  undelivered, unread_asset, answering, err_unknown_answer, err_tcp_conn_to_server, err_timeout_tcp,
  err_receiving_tcp, err_sending_tcp, err_tcp_closed_conn,
}

-- The handlers' return after a failed `send`.
unfoldable pub send_error : Errno → ℕ
send_error broken_pipe = err_tcp_closed_conn
send_error _ = err_sending_tcp

-- Their return after `read_tcp_stream` failed with `err`. Where the code keeps only whether it
-- failed, `err` is 1.
unfoldable pub read_failed : Errno → ℕ → ℕ
read_failed e err =
    if is_would_block e
    then err_timeout_tcp
    else if err == err_tcp_read_closed
    then err_tcp_closed_conn
    else err_receiving_tcp

-- A string read into a zeroed buffer, the rest of the connection, or what the handler returns.
pub data Got : Type 0 where
  text : Bytes → Conn → Got
  gives : ℕ → Got
  overran : Got

unfoldable pub got_of : Bool → Errno → ReadResult × Conn → Got
unfolding read_failed c_string
got_of tells e (overrun, conn) = overran
got_of tells e (read_error err, conn) = gives (read_failed e (if tells then err else 1))
got_of tells e (filled buff, conn) = text (c_string buff) conn

-- `read_tcp_stream(buff, n, conn_fd)` for a buffer of `size` bytes, where `tells` is false if the
-- handler drops the error code.
unfoldable pub read_text : ℕ → ℕ → Bool → Errno → Conn → Got
unfolding got_of read_tcp_stream zero_buff
read_text size n tells e conn = got_of tells e (read_tcp_stream (zero_buff size) n conn)

unfoldable pub then_text : Got → ClientState → (Bytes → Conn → Result) → Result
then_text (text s conn) client f = f s conn
then_text (gives err) client f = returned err [] client
then_text overran client f = overflow

-- One byte is taken: is it the newline?
unfoldable pub is_lf_in_stream : Conn → Bool
is_lf_in_stream [] = false
is_lf_in_stream (broken ∷ conn) = false
is_lf_in_stream (got c s ∷ conn) = c == b'\n'

-- The `determine_..._response_error` functions: the text for a status.
unfoldable pub status_result : List (Bytes × Bytes) → Bytes → ClientState → Result
status_result [] status client = returned err_unknown_answer [] client
status_result ((s, message) ∷ rest) status client =
    let other = status_result rest status client in
    if bytes_eq status s then returned 0 message client else other

-- A status other than OK, which has to end the message.
unfoldable pub other_status : List (Bytes × Bytes) → Bytes → Conn → ClientState → Result
unfolding is_lf_in_stream status_result
other_status statuses status conn client =
    if not (is_lf_in_stream conn)
    then returned err_unknown_answer [] client
    else status_result statuses status client

-- The answer's command, of four bytes.
unfoldable pub expect_command : Bytes → Bool → Errno → Conn → ClientState → (Conn → Result) → Result
unfolding read_text then_text
expect_command command tells e conn client f =
    then_text (read_text 8 4 tells e conn) client (λ s conn'.
      if not (bytes_eq s command) then returned err_unknown_answer [] client else f conn')

-- The rest of each handler, once its request is sent. Only `open` sends an asset.
unfoldable pub with_link : Link → ClientState → (Errno → Conn → Result) → Result
unfolding send_error
with_link unconnected client f = returned err_tcp_conn_to_server [] client
with_link (undelivered e) client f = returned (send_error e) [] client
with_link (unread_asset e) client f = returned (send_error e) [] client
with_link (answering e conn) client f = f e conn
