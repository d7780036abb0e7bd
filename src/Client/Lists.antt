-- ===== src/Client/Lists.antt =====
-- `handle_list`, `handle_my_auctions` and `handle_my_bids` of client/udp.c.
use auction_server.Common.{
  ℕ, ◌+◌, Bool, true, not, Option, none, some, List, [], ◌∷◌, ◌++◌, ◌==◌, if◌then◌else◌, Bytes,
  codes, take, bytes_eq,
}
use auction_server.Libc.{strtok}
use auction_server.Libc.Tokens.{tokens}
use auction_server.Validators.{is_valid_aid}
use auction_server.Client.{
  ClientState, Result, returned, Network, request_udp, on_response, err_unknown_answer,
  err_not_logged_in,
}

-- The newline behind every sixth entry, and the next count.
unfoldable pub line_end : ℕ → Bytes
line_end count = if count + 1 == 6 then codes "\n" else []

unfoldable pub next_count : ℕ → ℕ
next_count count = if count + 1 == 6 then 0 else count + 1

-- " - A| " or " - C| "
unfoldable pub status_text : Bytes → Option Bytes
status_text status =
    if bytes_eq status (codes "1")
    then some (codes " - A| ")
    else if bytes_eq status (codes "0")
    then some (codes " - C| ")
    else none

abbrev entry_text : ℕ → Bytes → Option Bytes → Option Bytes → Option Bytes
entry_text count auc_id (some status) (some rest) =
    some (b'|' ∷ (auc_id ++ (status ++ (line_end count ++ rest))))
entry_text count auc_id _ _ = none

-- The loop over the tokens of the data, which ends the text with a newline where the last line is
-- not full; `none` for the error of an unknown answer. `valid` is the check of an AID.
unfoldable pub entries : (Bytes → Bool) → ℕ → List Bytes → Option Bytes
unfolding status_text line_end next_count
entries valid count [] = some (if count == 0 then [] else codes "\n")
entries valid count (auc_id ∷ []) = none
entries valid count (auc_id ∷ status ∷ ts) =
    let rest = entries valid (next_count count) ts in
    if not (valid auc_id) then none else entry_text count auc_id (status_text status) rest

-- What the three handlers differ in: the answer's command, the texts for a status other than OK, how
-- the list is cut out behind OK, the header, and the check of an AID.
pub record Kind : Type 0 where
  pub command : Bytes
  pub texts : List (Bytes × Bytes)
  pub data_of : Bytes → Option Bytes
  pub header : Bytes
  pub valid : Bytes → Bool

-- The text for a status.
unfoldable pub lookup_text : List (Bytes × Bytes) → Bytes → Option Bytes
lookup_text [] payload = none
lookup_text ((status, text) ∷ texts) payload =
    let rest = lookup_text texts payload in if bytes_eq payload status then some text else rest

shown : Bytes → Option Bytes → ClientState → Result
shown header none client = returned err_unknown_answer [] client
shown header (some text) client = returned 0 (header ++ text) client

list_data : Kind → Option Bytes → ClientState → Result
unfolding shown entries
list_data kind none client = returned err_unknown_answer [] client
list_data kind (some data_text) client =
    shown kind.header (entries kind.valid 0 (tokens b' ' data_text)) client

list_status : Kind → Option Bytes × Bytes → ClientState → Result
unfolding list_data
list_status kind (none, rest) client = returned err_unknown_answer [] client
list_status kind (some status, rest) client =
    if not (bytes_eq status (codes "OK"))
    then returned err_unknown_answer [] client
    else list_data kind (kind.data_of rest) client

list_text : Kind → Option Bytes → Bytes → ClientState → Result
unfolding list_status
list_text kind (some text) payload client = returned 0 text client
list_text kind none payload client = list_status kind (strtok b' ' payload) client

list_payload : Kind → Option Bytes → ClientState → Result
unfolding list_text lookup_text
list_payload kind none client = returned err_unknown_answer [] client
list_payload kind (some payload) client =
    list_text kind (lookup_text kind.texts payload) payload client

list_command : Kind → Option Bytes × Bytes → ClientState → Result
unfolding list_payload
list_command kind (none, rest) client = returned err_unknown_answer [] client
list_command kind (some cmd_resp, rest) client =
    if not (bytes_eq cmd_resp kind.command)
    then returned err_unknown_answer [] client
    else list_payload kind (strtok b'\n' rest).0 client

-- From the answer's first token on.
unfoldable pub list_answer : Kind → ClientState → Bytes → Result
unfolding list_command
list_answer kind client buffer = list_command kind (strtok b' ' buffer) client

-- `strtok(NULL, "\n")`
abbrev to_newline : Bytes → Option Bytes
to_newline s = (strtok b'\n' s).0

-- `strtok(NULL, "\0")`
unfoldable pub to_end : Bytes → Option Bytes
to_end [] = none
to_end (c ∷ s) = some (c ∷ s)

abbrev any_aid : Bytes → Bool
any_aid s = true

abbrev list_header : Bytes
list_header = codes "Format: |{AID - Status}| 5* (6 per line)\nStatus: A - Active, C - Closed\n\n"

abbrev pub rls : Kind
rls = record {
  command = codes "RLS";
  texts =
      (codes "ERR", codes "Server returned an error status for the LST command\n")
      ∷ (codes "NOK", codes "No auctions currently available\n")
      ∷ [];
  data_of = to_newline;
  header = list_header ++ codes "AS Auctions:\n";
  valid = any_aid;
}

abbrev pub rma : Bytes → Kind
rma uid = record {
  command = codes "RMA";
  texts =
      (codes "ERR", codes "Server returned an error status for the myauctions command\n")
      ∷ (codes "NOK", codes "No auctions currently available\n")
      ∷ (codes "NLG", codes "User is not logged in\n")
      ∷ [];
  data_of = to_end;
  header = list_header ++ (codes "Auctions for user " ++ (take 6 uid ++ codes "\n"));
  valid = is_valid_aid;
}

abbrev pub rmb : Kind
rmb = record {
  command = codes "RMB";
  texts =
      (codes "ERR", codes "Server returned an error status for the mybids command\n")
      ∷ (codes "NOK", codes "No bids placed yet\n")
      ∷ [];
  data_of = to_end;
  header = list_header ++ codes "AS Auctions with user bids:\n";
  valid = any_aid;
}

module _ {N : Type 0} (net : Network N) where
  -- The exchange that the three handlers share.
  unfoldable ask_list : Kind → Bytes → ClientState → N → Result × N
  unfolding request_udp on_response list_answer to_end
  ask_list kind request client n =
      let (answer, n') = request_udp net 8191 request n in
      (on_response (list_answer kind client) client answer, n')

  unfoldable pub handle_list : Bytes → ClientState → N → Result × N
  unfolding ask_list
  handle_list input client n = ask_list rls (codes "LST\n") client n

  unfoldable pub handle_my_auctions : Bytes → ClientState → N → Result × N
  unfolding ask_list
  handle_my_auctions input client n =
      if not client.logged_in
      then (returned err_not_logged_in [] client, n)
      else ask_list (rma client.uid) (codes "LMA " ++ (take 6 client.uid ++ codes "\n")) client n

  unfoldable pub handle_my_bids : Bytes → ClientState → N → Result × N
  unfolding ask_list
  handle_my_bids input client n =
      if not client.logged_in
      then (returned err_not_logged_in [] client, n)
      else ask_list rmb (codes "LMB " ++ (take 6 client.uid ++ codes "\n")) client n
