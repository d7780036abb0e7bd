-- ===== src/Client/Commands.antt =====
-- The tables of client/command_table.c, client/handlers.c and the loop of client/client.c.
pub mod Messages
use auction_server.Common.{
  ℕ, ◌+◌, ◌-◌, Bool, true, false, not, ◌||◌, Option, none, some, List, [], ◌∷◌, ◌++◌, ◌==◌, ltb,
  if◌then◌else◌, Bytes, codes, take, drop, bytes_eq, get_or, length,
}
use auction_server.Libc.{strtok, skip}
use auction_server.Udp.Dispatch.{c_string}
use auction_server.Client.{
  ClientState, Result, returned, exited, overflow, Network, err_no_command, err_invalid_command,
}
use auction_server.Client.Session.{handle_login, handle_logout, handle_unregister, handle_exit}
use auction_server.Client.Lists.{handle_list, handle_my_auctions, handle_my_bids}
use auction_server.Client.Record.{handle_show_record}
use auction_server.Client.Tcp.{handle_open, handle_close, handle_bid}
use auction_server.Client.Asset.{handle_show_asset}

abbrev pub Command : Type 0 → Type 0
Command N = Bytes → ClientState → N → Result × N

abbrev help_msg : Bytes
help_msg =
    codes
      "Available commands:\n\nhelp or h:        Print this message\nformat or f:      Print formats of various command's messages\nclear:            Clear terminal window\nlogin:            Login to the AS\nopen:             Open a new auction\nclose:            Close an ongoing auction\nlist or l:        List all available auctions\nmyauctions or ma: List a user auctions\nmybids or mb:     List a user bids\nshowasset or sa:  Show asset of an auction\nshowrecord or sr: Show information of an auction\nbid or b:         Bid on an auction\nlogout:           Logout the currently logged in user\nunregister:       Unregister the currently logged in user\nexit or q:        Exit the program\n"

abbrev msg_format : Bytes
msg_format =
    codes
      "Messages format:\n\nlist\n  Format:\n  |{AID - Status}| (Up to 6 auctions per line)\n\n  Status Legend:\n  A - Active, C - Closed\n\nmyauctions\n  Format:\n  |{AID - Status}| (Up to 6 auctions per line)\n\n  Status Legend:\n  A - Active, C - Closed\n\nshowrecord\n  Format:\n  {Auction Information}\n  {Bids History}\n\n  Bids History Format:\n  |{Bidder UID - Bid Value - Bid Date - Bid Sec Time}| (Up to 2 per line)\n"

abbrev error_lookup_table : List Bytes
error_lookup_table =
    codes "Timed out waiting for server UDP response\n"
    ∷ codes "Failed sending UDP request to server\n"
    ∷ codes "Failed reading UDP response from server\n"
    ∷ codes "Missing arguments for command\n"
    ∷ codes "The UID must be numeric string of size 6\n"
    ∷ codes "The password must be an alphanumeric string of size 8\n"
    ∷ codes "The AID must be a numeric string of size 3 (0 padded)\n"
    ∷ codes "Got an unknown response message from the server\n"
    ∷ codes "Asset file doesn't exist\n"
    ∷ codes "Invalid asset name, must an alphanumeric with size less than 10\n"
    ∷ codes "Invalid asset fname, might contain ilegal characters\n"
    ∷ codes "Invalid start value, must be a number with up to 6 digits\n"
    ∷ codes "Invalid time active, must be a number represented with up to 5 digits\n"
    ∷ codes "Couldn't reach specified asset file\n"
    ∷ codes "Failed establishing a connection to the server\n"
    ∷ codes "Timed out waiting for server TCP response\n"
    ∷ codes "Failed reading TCP response from TCP server\n"
    ∷ codes "Failed sending TCP request to server\n"
    ∷ codes "Must be logged in to perform this operation\n"
    ∷ codes "A user is already logged in\n"
    ∷ codes "Please logout before performing this operation\n"
    ∷ codes ""
    ∷ codes "Invalid command, type `help` for more information\n"
    ∷ codes "Couldn't create asset file\n"
    ∷ codes "Failed writting contents to asset file\n"
    ∷ codes "Failed reading contents from asset file\n"
    ∷ codes "Invalid bid value, must be a number with up to 6 digits\n"
    ∷ codes "Server closed the connection\n"
    ∷ []

-- NULL is `none`. The codes of the handlers are at least 1, so the index is not negative.
unfoldable pub get_error_msg : ℕ → Option Bytes
get_error_msg errcode =
    if ltb (length error_lookup_table) errcode
    then none
    else some (get_or error_lookup_table (errcode - 1) [])

-- `user_input + strlen(cmd) + 1` as a string, once `strtok` has put a NUL behind the command.
unfoldable pub arguments : Bytes → Bytes → Bytes
unfolding skip c_string
arguments input cmd =
    let cut = length input - length (skip b' ' input) + length cmd in
    c_string (drop (length cmd + 1) (take cut input ++ 0 ∷ drop (cut + 1) input))

unfoldable pub search_table : {H : Type 0} → Bytes → List (Bytes × H) → Option H
search_table cmd [] = none
search_table cmd ((op, fn) ∷ table) = if bytes_eq cmd op then some fn else search_table cmd table

module _ {N : Type 0} (net : Network N) where
  unfoldable pub handle_help : Command N
  handle_help input client n = (returned 0 help_msg client, n)

  -- "\033[2J\033[H"
  unfoldable pub handle_clear : Command N
  handle_clear input client n = (returned 0 (27 ∷ codes "[2J" ++ 27 ∷ codes "[H") client, n)

  unfoldable pub handle_format : Command N
  handle_format input client n = (returned 0 msg_format client, n)

  unfoldable pub command_table : List (Bytes × Command N)
  unfolding handle_help handle_clear handle_format
  command_table =
      (codes "login", handle_login net)
      ∷ (codes "logout", handle_logout net)
      ∷ (codes "unregister", handle_unregister net)
      ∷ (codes "exit", handle_exit net)
      ∷ (codes "q", handle_exit net)
      ∷ (codes "quit", handle_exit net)
      ∷ (codes "open", handle_open net)
      ∷ (codes "close", handle_close net)
      ∷ (codes "myauctions", handle_my_auctions net)
      ∷ (codes "ma", handle_my_auctions net)
      ∷ (codes "mybids", handle_my_bids net)
      ∷ (codes "mb", handle_my_bids net)
      ∷ (codes "list", handle_list net)
      ∷ (codes "l", handle_list net)
      ∷ (codes "showasset", handle_show_asset net)
      ∷ (codes "sa", handle_show_asset net)
      ∷ (codes "bid", handle_bid net)
      ∷ (codes "b", handle_bid net)
      ∷ (codes "showrecord", handle_show_record net)
      ∷ (codes "sr", handle_show_record net)
      ∷ (codes "clear", handle_clear)
      ∷ (codes "help", handle_help)
      ∷ (codes "h", handle_help)
      ∷ (codes "?", handle_help)
      ∷ (codes "f", handle_format)
      ∷ (codes "format", handle_format)
      ∷ []

  unfoldable pub get_handler_func : Bytes → Option (Command N)
  unfolding search_table command_table
  get_handler_func cmd = search_table cmd command_table

  unfoldable pub run_handler : Option (Command N) → Bytes → ClientState → N → Result × N
  run_handler none args client n = (returned err_invalid_command [] client, n)
  run_handler (some handler) args client n = handler args client n

  unfoldable pub run_cmd : Option Bytes → Bytes → ClientState → N → Result × N
  unfolding run_handler arguments get_handler_func
  run_cmd none input client n = (returned err_no_command [] client, n)
  run_cmd (some cmd) input client n =
      run_handler (get_handler_func cmd) (arguments input cmd) client n

  unfoldable pub handle_cmd : Bytes → ClientState → N → Result × N
  unfolding run_cmd
  handle_cmd input client n = run_cmd (strtok b' ' input).0 input client n

-- What the loop does with a line, or how the process ends.
pub data Shown : Type 0 where
  shown : Bytes → Shown
  left : Shown
  died : Shown

-- The text of a result; `printf` of the NULL of `get_error_msg` is `died`.
unfoldable pub shown_error : Option Bytes → Shown
shown_error none = died
shown_error (some message) = shown message

unfoldable pub result_text : Result → Shown
unfolding shown_error get_error_msg
result_text (returned err text client) =
    if not (err == 0) then shown_error (get_error_msg err) else shown text
result_text exited = left
result_text overflow = died

unfoldable pub client_after : Result → ClientState → ClientState
client_after (returned err text client') client = client'
client_after _ client = client

abbrev too_large : Bytes
too_large = codes "Command too large! Type `help` for more information\n"

module _ {N : Type 0} (net : Network N) where
  -- The loop over the lines of the input, each given without its newline: what is printed for each,
  -- up to the end of the process. `fgets` takes 1023 bytes at most, and `strcspn` stops at a NUL;
  -- `clean_stdin_buffer` then drops the rest of the line, or, where all of it was taken, the next.
  unfoldable pub run_client : Bool → List Bytes → ClientState → N → List Shown × ClientState × N
  unfolding handle_cmd result_text client_after
  run_client clean [] client n = ([], client, n)
  run_client true (line ∷ lines) client n = run_client false lines client n
  run_client false (line ∷ lines) client n =
      let long = ltb 1022 (length line) in
      let (later, client1, n1) = run_client (not long) lines client n in
      let (r, n') = handle_cmd net line client n in
      let (next, client2, n2) = run_client false lines (client_after r client) n' in
      if long || ltb (length (c_string line)) (length line)
      then (shown too_large ∷ later, client1, n1)
      else elim (result_text r) [
        | shown text ↦ (shown text ∷ next, client2, n2)
        | left ↦ (left ∷ [], client, n')
        | died ↦ (died ∷ [], client, n')
      ]
