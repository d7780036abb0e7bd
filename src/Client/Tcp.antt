-- ===== src/Client/Tcp.antt =====
-- `handle_open`, `handle_close` and `handle_bid` of client/tcp.c.
use auction_server.Common.{
  ℕ, Bool, true, false, not, Option, none, some, List, [], ◌∷◌, ◌++◌, ltb, if◌then◌else◌, Bytes,
  codes, join, take, bytes_eq, length,
}
use auction_server.Common.Int.{pos_part}
use auction_server.Libc.{strtok, atoi, print_dec}
use auction_server.Validators.{
  is_valid_aid, is_valid_name, is_valid_fname, is_valid_start_value, is_valid_time_active,
}
use auction_server.Stream.{Conn}
use auction_server.Client.{
  Errno, broken_pipe, Link, unread_asset, err_read_asset_file, ClientState, Result, returned,
  Network, err_null_args, err_invalid_aid, err_unknown_answer, err_invalid_asset_name,
  err_invalid_asset_fname, err_invalid_sv, err_invalid_ta, err_invalid_asset_file,
  err_not_logged_in, err_invalid_bid_val,
}
use auction_server.Client.Answer.{
  read_text, then_text, is_lf_in_stream, status_result, other_status, expect_command, with_link,
  send_error,
}

abbrev open_statuses : List (Bytes × Bytes)
open_statuses =
    (codes "ERR", codes "Received an error message for the open command from the server\n")
    ∷ (codes "NLG", codes "User is not logged in\n")
    ∷ (codes "NOK", codes "Auction could not be started by the AS\n")
    ∷ []

abbrev close_statuses : List (Bytes × Bytes)
close_statuses =
    (codes "ERR", codes "Received an error message for close command from the server\n")
    ∷ (codes "NLG", codes "User is not logged in\n")
    ∷ (codes "EAU", codes "Auction with given UID does not exist\n")
    ∷ (codes "EOW", codes "Auction is not owned by the user\n")
    ∷ (codes "END", codes "Auction has already ended\n")
    ∷ (codes "NOK", codes "Auction could not be closed by the AS\n")
    ∷ []

abbrev bid_statuses : List (Bytes × Bytes)
bid_statuses =
    (
      codes "ERR\n",
      codes
          "Received an error message for bid command from the server (auction might not exist or client parameters might be badly formatted!)\n",
    )
    ∷ (codes "NLG\n", codes "User is not logged in\n")
    ∷ (codes "ILG\n", codes "User cannot bid on an auction hosted by himself\n")
    ∷ (codes "REF\n", codes "The bid amound is too low\n")
    ∷ (codes "NOK\n", codes "The auction is not active\n")
    ∷ []

-- The AID of a new auction.
open_aid : Bytes → Conn → ClientState → Option Bytes → Result
open_aid buff conn client none = returned err_unknown_answer [] client
open_aid buff conn client (some aid) =
    if not (is_valid_aid aid)
    then returned err_unknown_answer [] client
    else returned 0 (codes "Asset " ++ (take 3 aid ++ codes " successfully started by the AS\n"))
        client

unfoldable open_started : ClientState → Bytes → Conn → Result
unfolding open_aid is_lf_in_stream
open_started client buff conn =
    if not (is_lf_in_stream conn)
    then returned err_unknown_answer [] client
    else open_aid buff conn client (strtok b'\n' buff).0

unfoldable open_status : ClientState → Errno → Bytes → Conn → Result
unfolding other_status read_text then_text open_started
open_status client e status conn =
    if not (bytes_eq status (codes "OK "))
    then other_status open_statuses status conn client
    else then_text (read_text 4 3 true e conn) client (open_started client)

-- The answer to `OPA`.
unfoldable pub open_answer : ClientState → Errno → Conn → Result
unfolding expect_command read_text then_text open_status
open_answer client e conn =
    expect_command (codes "ROA ") true e conn client
      (λ conn'. then_text (read_text 4 3 true e conn') client (open_status client e))

unfoldable close_status : ClientState → Bytes → Conn → Result
unfolding other_status
close_status client status conn =
    if not (bytes_eq status (codes "OK\n"))
    then other_status close_statuses status conn client
    else returned 0 (codes "Auction sucessfully closed by the AS!\n") client

-- The answer to `CLS`.
unfoldable pub close_answer : ClientState → Errno → Conn → Result
unfolding expect_command read_text then_text close_status
close_answer client e conn =
    expect_command (codes "RCL ") true e conn client
      (λ conn'. then_text (read_text 4 3 false e conn') client (close_status client))

unfoldable bid_status : Bytes → Bytes → ClientState → Bytes → Conn → Result
unfolding status_result
bid_status aid value client status conn =
    if not (bytes_eq status (codes "ACC\n"))
    then status_result bid_statuses status client
    else returned 0
        (join (codes "Sucessfully bidded " ∷ value ∷ codes " on auction " ∷ aid ∷ codes "\n" ∷ []))
        client

-- The answer to `BID`.
unfoldable pub bid_answer : Bytes → Bytes → ClientState → Errno → Conn → Result
unfolding expect_command read_text then_text bid_status
bid_answer aid value client e conn =
    expect_command (codes "RBD ") true e conn client
      (λ conn'. then_text (read_text 8 4 true e conn') client (bid_status aid value client))

-- "CLS %.6s %.8s %.3s\n"
abbrev pub close_message : ClientState → Bytes → Bytes
close_message client aid =
    codes "CLS "
    ++ (take 6 client.uid ++ b' ' ∷ (take 8 client.passwd ++ b' ' ∷ (take 3 aid ++ b'\n' ∷ [])))

-- "BID %.6s %.8s %.3s %d\n"
abbrev pub bid_message : ClientState → Bytes → Bytes → Bytes
bid_message client aid value =
    codes "BID "
    ++ (take 6 client.uid
        ++ b' '
          ∷ (take 8 client.passwd
              ++ b' ' ∷ (take 3 aid ++ b' ' ∷ (print_dec (pos_part (atoi value)) ++ b'\n' ∷ []))))

-- "OPA %.6s %.8s %s %d %d %s %ld ", the asset, and a newline
abbrev pub open_message : ClientState → Bytes → Bytes → Bytes → Bytes → Bytes → Bytes
open_message client name asset_fname start_value time_active content = join (
    codes "OPA "
    ∷ take 6 client.uid
    ∷ codes " "
    ∷ take 8 client.passwd
    ∷ codes " "
    ∷ name
    ∷ codes " "
    ∷ print_dec (pos_part (atoi start_value))
    ∷ codes " "
    ∷ print_dec (pos_part (atoi time_active))
    ∷ codes " "
    ∷ asset_fname
    ∷ codes " "
    ∷ print_dec (length content)
    ∷ codes " "
    ∷ content
    ∷ codes "\n"
    ∷ [])

-- A validated argument, with what follows it, or the code of its error.
pub data Arg : Type 0 where
  arg : Bytes → Bytes → Arg
  bad_arg : ℕ → Arg

checked_arg : (Bytes → Bool) → ℕ → Option Bytes × Bytes → Arg
checked_arg valid err (none, s) = bad_arg err_null_args
checked_arg valid err (some t, s) = if not (valid t) then bad_arg err else arg t s

-- `strtok` to the delimiter `d`, then the validator
unfoldable next_arg : ℕ → (Bytes → Bool) → ℕ → Bytes → Arg
unfolding checked_arg
next_arg d valid err s = checked_arg valid err (strtok d s)

-- What the handler does with the argument.
unfoldable pub then_arg : {R : Type 0} → Arg → (ℕ → R) → (Bytes → Bytes → R) → R
then_arg (arg t s) fail f = f t s
then_arg (bad_arg err) fail f = fail err

abbrev max_fsize : ℕ
max_fsize = 10000000

-- `open` tells an asset that cannot be read from other failures, but for EPIPE.
unfoldable asset_link : Link → ClientState → (Errno → Conn → Result) → Result
unfolding with_link send_error
asset_link (unread_asset broken_pipe) client f = returned (send_error broken_pipe) [] client
asset_link (unread_asset _) client f = returned err_read_asset_file [] client
asset_link link client f = with_link link client f

module _ {N : Type 0} (net : Network N) where
  -- The handlers after their request: the result, and the network.
  unfoldable pub dial_server : Bytes → ClientState → N → (Errno → Conn → Result) → Result × N
  unfolding with_link
  dial_server message client n f =
      let (link, n') = net.dial message n in (with_link link client f, n')

  unfoldable pub handle_close : Bytes → ClientState → N → Result × N
  unfolding next_arg then_arg dial_server close_answer
  handle_close input client n =
      if not client.logged_in
      then (returned err_not_logged_in [] client, n)
      else then_arg (next_arg b' ' is_valid_aid err_invalid_aid input)
          (λ err. (returned err [] client, n))
          (λ aid s. dial_server (close_message client aid) client n (close_answer client))

  unfoldable pub handle_bid : Bytes → ClientState → N → Result × N
  unfolding next_arg then_arg dial_server bid_answer
  handle_bid input client n =
      let fail : ℕ → Result × N = λ err. (returned err [] client, n) in
      if not client.logged_in
      then (returned err_not_logged_in [] client, n)
      else then_arg (next_arg b' ' is_valid_aid err_invalid_aid input) fail (λ aid s.
        then_arg (next_arg b'\n' is_valid_start_value err_invalid_bid_val s) fail (λ value s'.
          dial_server (bid_message client aid value) client n (bid_answer aid value client)))

  -- The asset is there and not too large.
  open_asset : (Bytes → Bytes) → Option Bytes → ClientState → N → Result × N
  unfolding asset_link open_answer
  open_asset message none client n = (returned err_invalid_asset_file [] client, n)
  open_asset message (some content) client n =
      if ltb max_fsize (length content)
      then (returned err_invalid_asset_file [] client, n)
      else (let (link, n') = net.dial (message content) n in
          (asset_link link client (open_answer client), n'))

  unfoldable pub handle_open : Bytes → ClientState → N → Result × N
  unfolding next_arg then_arg open_asset
  handle_open input client n =
      let fail : ℕ → Result × N = λ err. (returned err [] client, n) in
      if not client.logged_in
      then (returned err_not_logged_in [] client, n)
      else then_arg (next_arg b' ' is_valid_name err_invalid_asset_name input) fail (λ name s1.
        then_arg (next_arg b' ' is_valid_fname err_invalid_asset_fname s1) fail (λ asset_fname s2.
          then_arg (next_arg b' ' is_valid_start_value err_invalid_sv s2) fail (λ start_value s3.
            then_arg (next_arg b' ' is_valid_time_active err_invalid_ta s3) fail (λ time_active s4.
              open_asset (open_message client name asset_fname start_value time_active)
                (net.asset_file asset_fname n) client n))))
