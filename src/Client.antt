-- ===== src/Client.antt =====
-- The state of client/client.h, the error codes of client/command_table.h, the network as the client
-- sees it, and the two functions of client/udp.c that send and receive a datagram.
pub mod Start
pub mod Session
pub mod Lists
pub mod Record
pub mod Answer
pub mod Tcp
pub mod Asset
pub mod Commands
use auction_server.Common.{
  ℕ, Bool, true, false, Option, none, some, [], ◌==◌, if◌then◌else◌, Bytes, length, take, not,
}
use auction_server.Stream.{Conn}
use auction_server.Udp.Dispatch.{c_string, last_byte}

-- The values of `errno` that the client tells apart.
pub data Errno : Type 0 where
  would_block : Errno
  broken_pipe : Errno
  other_errno : Errno

abbrev pub is_would_block : Errno → Bool
is_would_block would_block = true
is_would_block _ = false

-- The user of the session; `uid` and `passwd` are only read up to their sizes.
pub record ClientState : Type 0 where
  pub logged_in : Bool
  pub uid : Bytes
  pub passwd : Bytes

-- A handler returns its code, and with 0 the text of `response`; or ends the process; or writes
-- behind a buffer.
pub data Result : Type 0 where
  returned : ℕ → Bytes → ClientState → Result
  exited : Result
  overflow : Result

-- What `recvfrom` finds: a failure, or a datagram, with the value of `errno` then.
pub data Incoming : Type 0 where
  failed : Errno → Incoming
  datagram : Errno → Bytes → Incoming

-- What comes of a TCP connection that sends one request: it cannot be made, it fails while sending,
-- its asset cannot be read, with what `errno` then is, or the server's answer arrives; a failing `recv`
-- leaves the given `errno`.
pub data Link : Type 0 where
  unconnected : Link
  undelivered : Errno → Link
  unread_asset : Errno → Link
  answering : Errno → Conn → Link

-- The world outside the client: a UDP request and what arrives for it (`none` where `sendto` fails),
-- a TCP connection, the files of its working directory (`none` where `stat` or `open` fails), and their
-- creation and writing, with whether each succeeds.
pub record Network (N : Type 0) : Type 0 where
  pub ask : Bytes → N → Option Incoming × N
  pub dial : Bytes → N → Link × N
  pub asset_file : Bytes → N → Option Bytes
  pub create : Bytes → N → Bool × N
  pub save : Bytes → Bytes → N → Bool × N

abbrev pub err_timedout_udp : ℕ
err_timedout_udp = 1

abbrev pub err_requesting_udp : ℕ
err_requesting_udp = 2

abbrev pub err_receiving_udp : ℕ
err_receiving_udp = 3

abbrev pub err_null_args : ℕ
err_null_args = 4

abbrev pub err_invalid_uid : ℕ
err_invalid_uid = 5

abbrev pub err_invalid_passwd : ℕ
err_invalid_passwd = 6

abbrev pub err_invalid_aid : ℕ
err_invalid_aid = 7

abbrev pub err_unknown_answer : ℕ
err_unknown_answer = 8

abbrev pub err_invalid_asset_name : ℕ
err_invalid_asset_name = 10

abbrev pub err_invalid_asset_fname : ℕ
err_invalid_asset_fname = 11

abbrev pub err_invalid_sv : ℕ
err_invalid_sv = 12

abbrev pub err_invalid_ta : ℕ
err_invalid_ta = 13

abbrev pub err_invalid_asset_file : ℕ
err_invalid_asset_file = 14

abbrev pub err_tcp_conn_to_server : ℕ
err_tcp_conn_to_server = 15

abbrev pub err_timeout_tcp : ℕ
err_timeout_tcp = 16

abbrev pub err_receiving_tcp : ℕ
err_receiving_tcp = 17

abbrev pub err_sending_tcp : ℕ
err_sending_tcp = 18

abbrev pub err_not_logged_in : ℕ
err_not_logged_in = 19

abbrev pub err_already_logged_in : ℕ
err_already_logged_in = 20

abbrev pub err_not_logged_out : ℕ
err_not_logged_out = 21

abbrev pub err_no_command : ℕ
err_no_command = 22

abbrev pub err_invalid_command : ℕ
err_invalid_command = 23

abbrev pub err_creat_asset_file : ℕ
err_creat_asset_file = 24

abbrev pub err_write_asset_file : ℕ
err_write_asset_file = 25

abbrev pub err_read_asset_file : ℕ
err_read_asset_file = 26

abbrev pub err_invalid_bid_val : ℕ
err_invalid_bid_val = 27

abbrev pub err_tcp_closed_conn : ℕ
err_tcp_closed_conn = 28

-- The buffer that a request's answer fills, as a C string, or the handler's error code.
pub data Response : Type 0 where
  response : Bytes → Response
  refused : ℕ → Response

-- A handler's return after `recvfrom` failed, or read nothing, by the value of `errno`.
unfoldable recv_error : Errno → Response
recv_error e = refused (if is_would_block e then err_timedout_udp else err_receiving_udp)

unfoldable checked : Bytes → Response
unfolding last_byte c_string
checked buffer =
    if not (last_byte buffer == b'\n')
    then refused err_unknown_answer
    else response (c_string buffer)

-- `receive_udp_response` for a buffer of `size` bytes and a terminating NUL, and the errors that
-- every handler makes of its result.
unfoldable pub receive_udp_response : ℕ → Incoming → Response
unfolding recv_error checked
receive_udp_response size (failed e) = recv_error e
receive_udp_response size (datagram e s) =
    if length s == 0 then recv_error e else checked (take size s)

incoming : ℕ → Option Incoming → Response
unfolding receive_udp_response
incoming size none = refused err_requesting_udp
incoming size (some i) = receive_udp_response size i

-- `send_udp_request` and `receive_udp_response`, as every handler calls them.
unfoldable pub request_udp : {N : Type 0} → Network N → ℕ → Bytes → N → Response × N
unfolding incoming
request_udp net size message n = let (i, n') = net.ask message n in (incoming size i, n')

-- What a handler makes of an answer.
unfoldable pub on_response : (Bytes → Result) → ClientState → Response → Result
on_response f client (response buffer) = f buffer
on_response f client (refused e) = returned e [] client
