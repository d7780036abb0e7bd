-- ===== src/Client/Record.antt =====
-- `handle_show_record` of client/udp.c.
pub mod Bounds
use auction_server.Common.{
  ℕ, zero, suc, ◌+◌, Bool, true, false, not, Option, none, some, [], ◌∷◌, ◌++◌, ◌==◌, ltb,
  if◌then◌else◌, Bytes, codes, join, take, bytes_eq, length,
}
use auction_server.Libc.{strtok}
use auction_server.Validators.{
  is_valid_uid, is_valid_aid, is_valid_name, is_valid_fname, is_valid_start_value,
  is_valid_time_active,
}
use auction_server.Validators.DateTime.{fits_date_time, is_valid_date_time}
use auction_server.Client.{
  ClientState, Result, returned, overflow, Network, request_udp, on_response, err_unknown_answer,
  err_null_args, err_invalid_aid,
}

-- A parser of the answer: `return ERR_UNKNOWN_ANSWER`, a write behind `bids_str`, a write behind
-- `date_time_str` in `is_valid_date_time`, or a value and where the next `strtok` goes on. The loop over
-- the bids is on fuel.
pub data Parsed {ℓ} (A : Type ℓ) : Type ℓ where
  parsed : A → Parsed A
  unknown : Parsed A
  past_end : Parsed A
  date_past_end : Parsed A
  no_fuel : Parsed A

infixl 5 ◌>>=◌
abbrev pub ◌>>=◌ {ℓ κ} : {A : Type ℓ} {B : Type κ} → Parsed A → (A → Parsed B) → Parsed B
parsed a >>= f = f a
unknown >>= f = unknown
past_end >>= f = past_end
date_past_end >>= f = date_past_end
no_fuel >>= f = no_fuel

accepted : (Bytes → Bool) → Option Bytes × Bytes → Parsed (Bytes × Bytes)
accepted valid (none, s) = unknown
accepted valid (some t, s) = if valid t then parsed (t, s) else unknown

-- `strtok(NULL, d)`, and the check of its token
unfoldable next : ℕ → (Bytes → Bool) → Bytes → Parsed (Bytes × Bytes)
unfolding accepted
next d valid s = accepted valid (strtok d s)

checked_time : Bytes → Option Bytes × Bytes → Parsed (Bytes × Bytes)
checked_time date (none, s) = unknown
checked_time date (some t, s) =
    if not (fits_date_time date t)
    then date_past_end
    else if is_valid_date_time date t
    then parsed (t, s)
    else unknown

-- The same for a time, with the date that is read already.
unfoldable next_time : Bytes → Bytes → Parsed (Bytes × Bytes)
unfolding checked_time
next_time date s = checked_time date (strtok b' ' s)

abbrev pub any_text : Bytes → Bool
any_text s = true

abbrev record_text : Bytes → Bytes → Bytes → Bytes → Bytes → Bytes → Bytes → Bytes → Bytes
record_text aid name host_uid fname sv start_date start_time time_active = join (
    codes "Auction:        "
    ∷ aid
    ∷ codes "\nAuction name:   "
    ∷ name
    ∷ codes "\nHosted by:      "
    ∷ host_uid
    ∷ codes "\nAsset:          "
    ∷ fname
    ∷ codes "\nStart Value:    "
    ∷ sv
    ∷ codes "\nDate started:   "
    ∷ start_date
    ∷ codes " "
    ∷ start_time
    ∷ codes "\nTime Active:    "
    ∷ time_active
    ∷ codes "\n"
    ∷ [])

-- The seven words on the auction, printed, and the rest of the data.
unfoldable record_head : Bytes → Bytes → Parsed (Bytes × Bytes)
unfolding next next_time
record_head aid s = do
  (host_uid, s1) ← next b' ' is_valid_uid s
  (name, s2) ← next b' ' is_valid_name s1
  (fname, s3) ← next b' ' is_valid_fname s2
  (sv, s4) ← next b' ' is_valid_start_value s3
  (start_date, s5) ← next b' ' any_text s4
  (start_time, s6) ← next_time start_date s5
  (time_active, s7) ← next b' ' is_valid_time_active s6
  parsed (record_text aid name host_uid fname sv start_date start_time time_active, s7)

abbrev bid_line : Bytes → Bytes → Bytes → Bytes → Bytes → Bytes
bid_line bidder_uid bid_value bid_date bid_time bid_sec = join (
    codes "|"
    ∷ bidder_uid
    ∷ codes " - "
    ∷ bid_value
    ∷ codes " - "
    ∷ bid_date
    ∷ codes " "
    ∷ bid_time
    ∷ codes " - "
    ∷ bid_sec
    ∷ codes "| "
    ∷ [])

-- One entry of a bid behind its `B`, as `bid_buff` holds it.
unfoldable bid_text : Bytes → Parsed (Bytes × Bytes)
unfolding next next_time
bid_text s = do
  (bidder_uid, s1) ← next b' ' is_valid_uid s
  (bid_value, s2) ← next b' ' is_valid_start_value s1
  (bid_date, s3) ← next b' ' any_text s2
  (bid_time, s4) ← next_time bid_date s3
  (bid_sec, s5) ← next b' ' is_valid_start_value s4
  parsed (bid_line bidder_uid bid_value bid_date bid_time bid_sec, s5)

abbrev bids_size : ℕ
bids_size = 16384

-- `strcat` into `bids_str`
unfoldable strcat : Bytes → Bytes → Parsed Bytes
strcat bids text =
    if ltb (length bids + length text) bids_size then parsed (bids ++ text) else past_end

-- The end of one round of the loop: a newline behind every second bid.
unfoldable bid_end : ℕ → Bytes
bid_end count = if count + 1 == 2 then codes "\n" else []

unfoldable bid_count : ℕ → ℕ
bid_count count = if count + 1 == 2 then 0 else count + 1

abbrev is_bid : Option Bytes → Bool
is_bid none = false
is_bid (some token) = bytes_eq token (codes "B")

-- The loop over the bids, from a token that is read already: `bids_str`, and the token that ends the
-- loop with what is left behind it.
unfoldable bids_loop : ℕ → Bytes → ℕ → Option Bytes × Bytes → Parsed (Bytes × Option Bytes × Bytes)
unfolding bid_text strcat bid_end bid_count
bids_loop zero bids count (token, s) = no_fuel
bids_loop (suc f) bids count (token, s) = if not (is_bid token) then parsed (bids, token, s) else do
  (text, s') ← bid_text s
  bids' ← strcat bids (text ++ bid_end count)
  bids_loop f bids' (bid_count count) (strtok b' ' s')

-- The `E` entry, or an active auction.
unfoldable auction_status : Option Bytes → Bytes → Parsed Bytes
unfolding next next_time
auction_status none s = parsed (codes "Status: Active\n")
auction_status (some token) s = if not (bytes_eq token (codes "E")) then unknown else do
  (end_date, s1) ← next b' ' any_text s
  (end_time, s2) ← next_time end_date s1
  (end_sec_time, s3) ← next b'\n' is_valid_start_value s2
  parsed (
      join (
        codes "Status:         Closed\nEnd Date:       "
        ∷ end_date
        ∷ codes " "
        ∷ end_time
        ∷ codes "\nEnd Sec Time:   "
        ∷ end_sec_time
        ∷ codes "\n"
        ∷ []))

-- `per_line_count` is never 2 behind the loop, so a newline always follows the bids.
unfoldable record_data : Bytes → Bytes → Parsed Bytes
unfolding record_head bids_loop auction_status strcat
record_data aid data_text = do
  (head, s) ← record_head aid data_text
  (bids, token, s') ← bids_loop (suc (length s)) [] 0 (strtok b' ' s)
  bids' ← strcat bids (codes "\n")
  status ← auction_status token s'
  parsed (head ++ (status ++ (codes "Bids:\n" ++ bids')))

-- From the payload on.
unfoldable record_payload : Bytes → Bytes → Parsed Bytes
unfolding next record_data
record_payload aid payload =
    if bytes_eq payload (codes "ERR")
    then parsed (codes "Server returned an error status for the showrecord command\n")
    else if bytes_eq payload (codes "NOK")
    then parsed (codes "Auction doesnt exist\n")
    else do
      (status, s1) ← next b' ' (λ t. bytes_eq t (codes "OK")) payload
      (data_text, s2) ← next b'\n' any_text s1
      record_data aid data_text

unfoldable pub record_answer : Bytes → Bytes → Parsed Bytes
unfolding next record_payload
record_answer aid buffer = do
  (command, s1) ← next b' ' (λ t. bytes_eq t (codes "RRC")) buffer
  (payload, s2) ← next b'\n' any_text s1
  record_payload aid payload

-- The loop's fuel is never used up.
finished : ClientState → Parsed Bytes → Result
finished client (parsed text) = returned 0 text client
finished client unknown = returned err_unknown_answer [] client
finished client past_end = overflow
finished client date_past_end = overflow
finished client no_fuel = overflow

module _ {N : Type 0} (net : Network N) where
  ask_record : Option Bytes → ClientState → N → Result × N
  unfolding request_udp on_response record_answer finished
  ask_record none client n = (returned err_null_args [] client, n)
  ask_record (some aid) client n =
      let (answer, n') = request_udp net 65534 (codes "SRC " ++ (take 3 aid ++ codes "\n")) n in
      if not (is_valid_aid aid)
      then (returned err_invalid_aid [] client, n)
      else (on_response (λ buffer. finished client (record_answer aid buffer)) client answer, n')

  unfoldable pub handle_show_record : Bytes → ClientState → N → Result × N
  unfolding ask_record
  handle_show_record input client n = ask_record (strtok b' ' input).0 client n
