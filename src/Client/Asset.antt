-- ===== src/Client/Asset.antt =====
-- `handle_show_asset` of client/tcp.c. What a download that fails leaves in its file is not part of
-- the model.
use auction_server.Common.{
  ℕ, ◌+◌, false, not, Option, none, some, List, [], ◌∷◌, ◌++◌, ◌==◌, ltb, if◌then◌else◌, Bytes,
  codes, join, take, bytes_eq, length, ◌⊎◌, inl, inr,
}
use auction_server.Common.Int.{ℤ, pos, negsuc, pos_part}
use auction_server.Libc.{strtok, atoi, print_dec}
use auction_server.Validators.{is_valid_aid, is_valid_fname, fname_len, fsize_str_len}
use auction_server.Stream.{
  Conn, got, broken, Asset, asset, asset_error, as_recv_asset_file, err_tcp_read,
  err_tcp_read_closed, err_invalid_protocol,
}
use auction_server.Tcp.Reading.{End, result, at_close, at_failure, recv_bytes}
use auction_server.Udp.Dispatch.{c_string}
use auction_server.Client.{
  Errno, is_would_block, ClientState, Result, returned, Network, Link, unconnected, undelivered,
  unread_asset, answering, err_null_args, err_invalid_aid, err_unknown_answer, err_timeout_tcp,
  err_receiving_tcp, err_creat_asset_file, err_write_asset_file, err_tcp_conn_to_server, overflow,
}
use auction_server.Client.Answer.{
  Got, text, gives, overran, read_text, read_failed, other_status, send_error,
}

unfoldable pub get_show_asset_arg_len : ℕ → ℕ
get_show_asset_arg_len argno =
    if argno == 0 then fname_len else if argno == 1 then fsize_str_len else 0

-- The arguments read so far, and the bytes in `args_buffer`.
pub record ShowArgs : Type 0 where
  pub saved : List Bytes
  pub current : Bytes

-- One round of the loop over the arguments, with the byte just received; `inr none` is an unknown
-- answer.
unfoldable pub show_arg_byte : ShowArgs → ℕ → ShowArgs ⊎ Option (List Bytes)
unfolding get_show_asset_arg_len c_string
show_arg_byte st c =
    let saved = st.saved ++ c_string st.current ∷ [] in
    if ltb (get_show_asset_arg_len (length st.saved)) (length st.current)
    then inr none
    else if c == b' '
    then (if length saved == 2
        then inr (some saved)
        else inl (record { saved = saved; current = [] }))
    else inl (record st { current = st.current ++ c ∷ [] })

-- `as_recv_asset_file` for a size that may be negative: more than was announced arrives at once.
unfoldable pub recv_sized : ℤ → Conn → Asset
unfolding as_recv_asset_file
recv_sized (pos fsize) conn = (as_recv_asset_file fsize conn).0
recv_sized (negsuc a) [] = asset_error err_tcp_read_closed
recv_sized (negsuc a) (broken ∷ conn) = asset_error err_tcp_read
recv_sized (negsuc a) (got c s ∷ conn) = asset_error err_invalid_protocol

-- The return after `as_recv_asset_file` failed. ERR_INVALID_PROTOCOL has the value of
-- ERR_TCP_READ_CLOSED, which is tested first. A `write` that fails is found once the asset has arrived.
unfoldable pub recv_failed : Errno → ℕ → ℕ
unfolding read_failed
recv_failed e err = read_failed e err

abbrev show_asset_statuses : List (Bytes × Bytes)
show_asset_statuses =
    (codes "ERR", codes "Received an error message for the show asset command from the server\n")
    ∷ (
      codes "NOK",
      codes "AS could not deliver asset (it either doesn't exist or an internal error occurred)\n",
    )
    ∷ []

-- What the answer amounts to: a return, or the file to create and the bytes that arrive for it.
pub data Download : Type 0 where
  no_file : Result → Download
  into : Bytes → ℤ → Conn → Download

-- Both arguments are checked with `is_valid_fname`.
args_download : List Bytes → Conn → ClientState → Download
args_download (fname ∷ fsize ∷ []) conn client =
    if not (is_valid_fname fname)
    then no_file (returned err_unknown_answer [] client)
    else if not (is_valid_fname fsize)
    then no_file (returned err_unknown_answer [] client)
    else if ltb 10000000 (pos_part (atoi fsize))
    then no_file (returned err_unknown_answer [] client)
    else into fname (atoi fsize) conn
args_download _ conn client = no_file (returned err_unknown_answer [] client)

unfoldable pub args_read : Errno → End (Option (List Bytes)) × Conn → ClientState → Download
unfolding args_download
args_read e (at_close, conn) client =
    no_file (returned (if is_would_block e then err_timeout_tcp else err_receiving_tcp) [] client)
args_read e (at_failure, conn) client =
    no_file (returned (if is_would_block e then err_timeout_tcp else err_receiving_tcp) [] client)
args_read e (result none, conn) client = no_file (returned err_unknown_answer [] client)
args_read e (result (some args), conn) client = args_download args conn client

unfoldable pub status_download : Errno → Got → ClientState → Download
unfolding args_read other_status recv_bytes show_arg_byte
status_download e overran client = no_file overflow
status_download e (gives err) client = no_file (returned err [] client)
status_download e (text status conn) client =
    if not (bytes_eq status (codes "OK "))
    then no_file (other_status show_asset_statuses status conn client)
    else args_read e (recv_bytes show_arg_byte (record { saved = []; current = [] }) conn) client

unfoldable pub command_download : Errno → Got → ClientState → Download
unfolding status_download read_text
command_download e overran client = no_file overflow
command_download e (gives err) client = no_file (returned err [] client)
command_download e (text command conn) client =
    if not (bytes_eq command (codes "RSA "))
    then no_file (returned err_unknown_answer [] client)
    else status_download e (read_text 4 3 false e conn) client

-- From the answer's first byte to the two arguments.
unfoldable pub download : Errno → Conn → ClientState → Download
unfolding command_download read_text
download e conn client = command_download e (read_text 8 4 false e conn) client

link_download : Link → ClientState → Errno × Download
unfolding download send_error
link_download unconnected client =
    (Errno.other_errno, no_file (returned err_tcp_conn_to_server [] client))
link_download (undelivered e) client = (e, no_file (returned (send_error e) [] client))
link_download (unread_asset e) client = (e, no_file (returned (send_error e) [] client))
link_download (answering e conn) client = (e, download e conn client)

print_size : ℤ → Bytes
print_size (pos n) = print_dec n
print_size (negsuc a) = b'-' ∷ print_dec (a + 1)

-- "Successfully retrieved auction %.3s asset %s of size %d\n"
unfoldable pub retrieved : Bytes → Bytes → ℤ → Bytes
unfolding print_size
retrieved aid fname fsize = join (
    codes "Successfully retrieved auction "
    ∷ take 3 aid
    ∷ codes " asset "
    ∷ fname
    ∷ codes " of size "
    ∷ print_size fsize
    ∷ codes "\n"
    ∷ [])

module _ {N : Type 0} (net : Network N) where
  -- The file is there, and the asset has arrived or failed to.
  saved_asset : Bytes → Bytes → ℤ → Errno → Asset → ClientState → N → Result × N
  unfolding recv_failed retrieved
  saved_asset aid fname fsize e (asset_error err) client n =
      (returned (recv_failed e err) [] client, n)
  saved_asset aid fname fsize e (asset content) client n =
      let (saved, n') = net.save fname content n in
      if not saved
      then (returned err_write_asset_file [] client, n')
      else (returned 0 (retrieved aid fname fsize) client, n')

  finish_download : Bytes → Errno × Download → ClientState → N → Result × N
  unfolding saved_asset recv_sized
  finish_download aid (e, no_file r) client n = (r, n)
  finish_download aid (e, into fname fsize conn) client n =
      let (created, n') = net.create fname n in
      if not created
      then (returned err_creat_asset_file [] client, n')
      else saved_asset aid fname fsize e (recv_sized fsize conn) client n'

  show_asset : Option Bytes → ClientState → N → Result × N
  unfolding finish_download link_download
  show_asset none client n = (returned err_null_args [] client, n)
  show_asset (some aid) client n =
      let (link, n') = net.dial (codes "SAS " ++ (take 3 aid ++ codes "\n")) n in
      if not (is_valid_aid aid)
      then (returned err_invalid_aid [] client, n)
      else finish_download aid (link_download link client) client n'

  unfoldable pub handle_show_asset : Bytes → ClientState → N → Result × N
  unfolding show_asset
  handle_show_asset input client n = show_asset (strtok b' ' input).0 client n
