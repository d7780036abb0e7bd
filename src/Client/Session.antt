-- ===== src/Client/Session.antt =====
-- `handle_login`, `handle_logout`, `handle_unregister` and `handle_exit` of client/udp.c.
use auction_server.Common.{
  ℕ, true, false, not, Option, none, some, [], ◌∷◌, ◌++◌, if◌then◌else◌, Bytes, codes, take,
  bytes_eq,
}
use auction_server.Libc.{strtok}
use auction_server.Validators.{is_valid_uid, is_valid_passwd}
use auction_server.Client.{
  ClientState, Result, returned, exited, Network, request_udp, on_response, err_null_args,
  err_invalid_uid, err_invalid_passwd, err_unknown_answer, err_not_logged_in, err_already_logged_in,
  err_not_logged_out,
}

-- "OP %.6s %.8s\n"
unfoldable pub session_message : Bytes → Bytes → Bytes → Bytes
session_message op uid passwd = op ++ (take 6 uid ++ b' ' ∷ (take 8 passwd ++ b'\n' ∷ []))

-- The arguments of `login`, or the error code.
pub data LoginArgs : Type 0 where
  user : Bytes → Bytes → LoginArgs
  bad_args : ℕ → LoginArgs

unfoldable pub passwd_arg : Bytes → Option Bytes → LoginArgs
passwd_arg uid none = bad_args err_null_args
passwd_arg uid (some passwd) =
    if not (is_valid_passwd passwd) then bad_args err_invalid_passwd else user uid passwd

unfoldable pub uid_arg : Option Bytes × Bytes → LoginArgs
unfolding passwd_arg
uid_arg (none, rest) = bad_args err_null_args
uid_arg (some uid, rest) =
    if not (is_valid_uid uid) then bad_args err_invalid_uid else passwd_arg uid (strtok b' ' rest).0

unfoldable pub login_args : Bytes → LoginArgs
unfolding uid_arg
login_args input = uid_arg (strtok b' ' input)

unfoldable pub logged : Bytes → Bytes → ClientState → ClientState
logged uid passwd client = record client {
  logged_in = true;
  uid = take 6 uid;
  passwd = take 8 passwd;
}

-- The status of the answer to `LIN`.
unfoldable pub login_status : Bytes → Bytes → ClientState → Bytes → Result
unfolding logged
login_status uid passwd client buffer =
    if bytes_eq buffer (codes "RLI ERR\n")
    then returned 0 (codes "Server returned an error status for the login command\n") client
    else if bytes_eq buffer (codes "RLI NOK\n")
    then returned 0 (codes "Incorrect login attempt\n") client
    else if bytes_eq buffer (codes "RLI REG\n")
    then returned 0 (codes "New user registered\n") (logged uid passwd client)
    else if bytes_eq buffer (codes "RLI OK\n")
    then returned 0 (codes "Successful login\n") (logged uid passwd client)
    else returned err_unknown_answer [] client

-- The status of the answer to `LOU`.
unfoldable pub logout_status : ClientState → Bytes → Result
logout_status client buffer =
    if bytes_eq buffer (codes "RLO ERR\n")
    then returned 0 (codes "Server returned an error status for the logout command\n") client
    else if bytes_eq buffer (codes "RLO NOK\n")
    then returned 0 (codes "User not logged in\n") client
    else if bytes_eq buffer (codes "RLO UNR\n")
    then returned 0 (codes "Unknown user\n") client
    else if bytes_eq buffer (codes "RLO OK\n")
    then returned 0 (codes "Successful logout\n") (record client { logged_in = false })
    else returned err_unknown_answer [] client

-- The status of the answer to `UNR`.
unfoldable pub unregister_status : ClientState → Bytes → Result
unregister_status client buffer =
    if bytes_eq buffer (codes "RUR ERR\n")
    then returned 0 (codes "Server returned an error status for the unregister command\n") client
    else if bytes_eq buffer (codes "RUR UNR\n")
    then returned 0 (codes "Unknown user\n") client
    else if bytes_eq buffer (codes "RUR NOK\n")
    then returned 0 (codes "Incorrect unregister attempt\n") client
    else if bytes_eq buffer (codes "RUR OK\n")
    then returned 0 (codes "Successful unregister\n") (record client { logged_in = false })
    else returned err_unknown_answer [] client

module _ {N : Type 0} (net : Network N) where
  login_user : LoginArgs → ClientState → N → Result × N
  unfolding request_udp on_response session_message login_status
  login_user (bad_args e) client n = (returned e [] client, n)
  login_user (user uid passwd) client n =
      let (answer, n') = request_udp net 31 (session_message (codes "LIN ") uid passwd) n in
      (on_response (login_status uid passwd client) client answer, n')

  unfoldable pub handle_login : Bytes → ClientState → N → Result × N
  unfolding login_user login_args
  handle_login input client n =
      if client.logged_in
      then (returned err_already_logged_in [] client, n)
      else login_user (login_args input) client n

  unfoldable pub handle_logout : Bytes → ClientState → N → Result × N
  unfolding request_udp on_response session_message logout_status
  handle_logout input client n =
      let message = session_message (codes "LOU ") client.uid client.passwd in
      let (answer, n') = request_udp net 31 message n in
      if not client.logged_in
      then (returned err_not_logged_in [] client, n)
      else (on_response (logout_status client) client answer, n')

  unfoldable pub handle_unregister : Bytes → ClientState → N → Result × N
  unfolding request_udp on_response session_message unregister_status
  handle_unregister input client n =
      let message = session_message (codes "UNR ") client.uid client.passwd in
      let (answer, n') = request_udp net 31 message n in
      if not client.logged_in
      then (returned err_not_logged_in [] client, n)
      else (on_response (unregister_status client) client answer, n')

  unfoldable pub handle_exit : Bytes → ClientState → N → Result × N
  handle_exit input client n =
      if client.logged_in then (returned err_not_logged_out [] client, n) else (exited, n)
