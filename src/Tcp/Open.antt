-- ===== src/Tcp/Open.antt =====
-- `handle_open` of server/tcp.c, with `is_valid_opa_arg` and `get_opa_arg_len`.
pub mod Bounds
use auction_server.Common.{
  ℕ, ◌+◌, Bool, true, not, ◌||◌, Option, none, some, List, [], ◌∷◌, ◌++◌, ltb, ◌==◌, if◌then◌else◌,
  Bytes, codes, length, get_or, ◌⊎◌, inl, inr,
}
use auction_server.Common.Int.{is_zero, pos_part}
use auction_server.Libc.{strtok, atoi}
use auction_server.Validators.{
  is_valid_uid, is_valid_passwd, is_valid_name, is_valid_start_value, is_valid_time_active,
  is_valid_fname, is_valid_fsize, asset_name_len, start_value_len, time_active_len, fname_len,
  fsize_str_len,
}
use auction_server.Stream.{
  Conn, ReadResult, filled, read_error, overrun, read_tcp_stream, err_tcp_read_closed,
}
use auction_server.Os.{World}
use auction_server.Database.Names.{aid_of}
use auction_server.Database.Users.{exists_user, is_user_logged_in, is_authentic_user}
use auction_server.Database.Hosting.{create_new_auction}
use auction_server.Udp.Dispatch.{c_string}
use auction_server.Tcp.Reading.{
  TcpResult, ended, crash, zero_buff, End, result, at_close, at_failure, recv_bytes,
}

abbrev opa_bad_args : ℕ
opa_bad_args = 1

abbrev opa_args_len : List ℕ
opa_args_len = asset_name_len ∷ start_value_len ∷ time_active_len ∷ fname_len ∷ fsize_str_len ∷ []

-- The loop asks for the arguments 0 to 4; for 5 the source reads behind its table.
unfoldable pub get_opa_arg_len : ℕ → ℕ
get_opa_arg_len argno = if ltb 5 argno then 0 else get_or opa_args_len argno 0

unfoldable pub is_valid_opa_arg : Bytes → ℕ → Bool
is_valid_opa_arg arg argno =
    if argno == 0
    then is_valid_name arg
    else if argno == 1
    then is_valid_start_value arg
    else if argno == 2
    then is_valid_time_active arg
    else if argno == 3
    then is_valid_fname arg
    else if argno == 4
    then is_valid_fsize arg
    else true

-- The arguments read so far, and the bytes of the one being read.
pub record Args : Type 0 where
  pub saved : List Bytes
  pub current : Bytes

-- One round of the loop over `args`, with the byte just received; `inr none` is OPA_BAD_ARGS.
unfoldable pub arg_byte : Args → ℕ → Args ⊎ Option (List Bytes)
arg_byte st c =
    let argno = length st.saved in
    let arg = c_string st.current in
    let saved = st.saved ++ arg ∷ [] in
    if ltb (get_opa_arg_len argno) (length st.current)
    then inr none
    else if c == b' '
    then (if not (is_valid_opa_arg arg argno)
        then inr none
        else if argno + 1 == 5
        then inr (some saved)
        else inl (record { saved = saved; current = [] }))
    else inl (record st { current = st.current ++ c ∷ [] })

-- The text sent for the AID, or for -1.
unfoldable pub open_answer : Option ℕ × Conn × World → TcpResult
open_answer (none, conn, w) = ended 0 (codes "ROA NOK\n") conn w
open_answer (some aid, conn, w) = ended 0 (codes "ROA OK " ++ (aid_of aid ++ codes "\n")) conn w

-- The checks and calls behind the loop.
unfoldable pub open_auction : Bytes → Bytes → List Bytes → Conn → World → TcpResult
unfolding open_answer
open_auction uid passwd args conn w =
    let sv = pos_part (atoi (get_or args 1 [])) in
    let ta = pos_part (atoi (get_or args 2 [])) in
    let fsize = pos_part (atoi (get_or args 4 [])) in
    if sv == 999999
    then ended opa_bad_args [] conn w
    else if fsize == 0 || ltb 10000000 fsize
    then ended opa_bad_args [] conn w
    else if not (exists_user uid w) || not (is_user_logged_in uid w)
    then ended 0 (codes "ROA NLG\n") conn w
    else if is_zero (is_authentic_user uid passwd w)
    then ended 0 (codes "ROA NLG\n") conn w
    else open_answer
        (create_new_auction uid (get_or args 0 []) (get_or args 3 []) sv ta fsize conn w)

unfoldable pub open_args : Bytes → Bytes → End (Option (List Bytes)) × Conn → World → TcpResult
unfolding open_auction
open_args uid passwd (at_close, conn) w = ended 0 [] conn w
open_args uid passwd (at_failure, conn) w = ended opa_bad_args [] conn w
open_args uid passwd (result none, conn) w = ended opa_bad_args [] conn w
open_args uid passwd (result (some args), conn) w = open_auction uid passwd args conn w

unfoldable pub open_passwd : Bytes → Option Bytes → Conn → World → TcpResult
unfolding open_args
open_passwd uid none conn w = ended opa_bad_args [] conn w
open_passwd uid (some passwd) conn w =
    if not (is_valid_passwd passwd)
    then ended opa_bad_args [] conn w
    else open_args uid passwd (recv_bytes arg_byte (record { saved = []; current = [] }) conn) w

unfoldable pub open_uid : Option Bytes × Bytes → Conn → World → TcpResult
unfolding open_passwd
open_uid (none, rest) conn w = ended opa_bad_args [] conn w
open_uid (some uid, rest) conn w =
    if not (is_valid_uid uid)
    then ended opa_bad_args [] conn w
    else open_passwd uid (strtok b' ' rest).0 conn w

unfoldable pub open_read : ReadResult × Conn → World → TcpResult
unfolding open_uid
open_read (overrun, conn) w = crash
open_read (read_error e, conn) w =
    if e == err_tcp_read_closed then ended 0 [] conn w else ended opa_bad_args [] conn w
open_read (filled buff, conn) w =
    if not (get_or buff 15 0 == b' ')
    then ended opa_bad_args [] conn w
    else open_uid (strtok b' ' (c_string buff)) conn w

unfoldable pub handle_open : Conn → World → TcpResult
unfolding open_read
handle_open conn w = open_read (read_tcp_stream (zero_buff 128) 16 conn) w
