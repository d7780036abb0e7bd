-- ===== src/Udp/Listing.antt =====
-- The handlers of server/udp.c for `LMA`, `LMB`, `LST` and `SRC`.
use auction_server.Common.{
  ℕ, ◌+◌, Bool, true, not, Option, none, some, ◌∷◌, ◌++◌, ◌==◌, if◌then◌else◌, Bytes, codes, length,
}
use auction_server.Libc.{strtok}
use auction_server.Validators.{
  is_valid_uid, is_valid_aid, is_valid_name, is_valid_fname, is_valid_start_value,
  is_valid_time_active,
}
use auction_server.Validators.DateTime.{is_valid_date_time}
use auction_server.Os.{World}
use auction_server.Database.Users.{exists_user, is_user_logged_in}
use auction_server.Database.Auctions.{exists_auction, get_auction_info, update_database}
use auction_server.Database.Lists.{
  get_user_auctions, get_user_bids, get_auctions_list, get_auction_bidders_list,
}
use auction_server.Udp.Session.{Reply, answer, refuse}

abbrev err_lma : ℕ
err_lma = 4

abbrev err_mb : ℕ
err_mb = 5

abbrev err_src : ℕ
err_src = 6

abbrev err_lst : ℕ
err_lst = 7

-- The end of the three list handlers: `written` is the length of the text appended, and 1 for a
-- list with no entry.
unfoldable pub list_reply : ℕ → Bytes → Bytes → Option Bytes → World → Reply × World
list_reply err ok nok none w = (record { err = err; response = ok; response_len = 6 }, w)
list_reply err ok nok (some text) w =
    if length text == 1 then answer nok 8 w else answer (ok ++ text) (6 + length text) w

unfoldable pub my_auctions : Option Bytes → World → Reply × World
unfolding list_reply
my_auctions none w = refuse err_lma w
my_auctions (some uid) w =
    let w' = update_database w in
    if not (is_valid_uid uid)
    then refuse err_lma w
    else if not (exists_user uid w)
    then answer (codes "RMA NOK\n") 8 w
    else if not (is_user_logged_in uid w)
    then answer (codes "RMA NLG\n") 8 w
    else list_reply err_lma (codes "RMA OK") (codes "RMA NOK\n") (get_user_auctions uid w') w'

unfoldable pub handle_my_auctions : Bytes → World → Reply × World
unfolding my_auctions
handle_my_auctions input w = my_auctions (strtok b'\n' input).0 w

unfoldable pub my_bids : Option Bytes → World → Reply × World
unfolding list_reply
my_bids none w = refuse err_mb w
my_bids (some uid) w =
    let w' = update_database w in
    if not (is_valid_uid uid)
    then refuse err_mb w
    else if not (exists_user uid w)
    then answer (codes "RMB NOK\n") 8 w
    else if not (is_user_logged_in uid w)
    then answer (codes "RMB NLG\n") 8 w
    else list_reply err_mb (codes "RMB OK") (codes "RMB NOK\n") (get_user_bids uid w') w'

unfoldable pub handle_my_bids : Bytes → World → Reply × World
unfolding my_bids
handle_my_bids input w = my_bids (strtok b'\n' input).0 w

unfoldable pub handle_list : Bytes → World → Reply × World
unfolding list_reply
handle_list input w =
    let w' = update_database w in
    list_reply err_lst (codes "RLS OK") (codes "RLS NOK\n") (get_auctions_list w') w'

infixl 5 ◌>>=◌
abbrev ◌>>=◌ {ℓ κ} : {A : Type ℓ} {B : Type κ} → Option A → (A → Option B) → Option B
none >>= f = none
some a >>= f = f a

-- The next token, where the validator accepts it.
token : ℕ → (Bytes → Bool) → Bytes → Option (Bytes × Bytes)
token d valid s = elim (strtok d s).0 [
  | none ↦ none
  | some t ↦ if valid t then some (t, (strtok d s).1) else none
]

abbrev any_text : Bytes → Bool
any_text s = true

-- "RRC OK %s %s %s %s %s %s %s" from the auction's START line; `none` for a line that is not well
-- formed.
unfoldable record_head : Bytes → Option Bytes
unfolding token
record_head line = do
  (host_uid, s1) ← token b' ' is_valid_uid line
  (asset_name, s2) ← token b' ' is_valid_name s1
  (fname, s3) ← token b' ' is_valid_fname s2
  (sv, s4) ← token b' ' is_valid_start_value s3
  (ta, s5) ← token b' ' is_valid_time_active s4
  (start_date, s6) ← token b' ' any_text s5
  (start_time, s7) ← token b' ' (λ t. is_valid_date_time start_date t) s6
  (start_sec_time, s8) ← token b'\n' any_text s7
  some (
      codes "RRC OK "
      ++ (host_uid
          ++ b' '
            ∷ (asset_name
                ++ b' '
                  ∷ (fname
                      ++ b' ' ∷ (sv ++ b' ' ∷ (start_date ++ b' ' ∷ (start_time ++ b' ' ∷ ta)))))))

-- The last newline is appended to the buffer, and not counted in the length.
unfoldable pub record_reply : Option Bytes → Option Bytes → World → Reply × World
record_reply none bids w = refuse err_src w
record_reply (some head) none w =
    (record { err = err_src; response = head; response_len = length head }, w)
record_reply (some head) (some text) w =
    answer (head ++ (text ++ codes "\n")) (length head + length text) w

head_of : Option Bytes → Option Bytes
unfolding record_head
head_of none = none
head_of (some line) = record_head line

unfoldable pub show_record : Option Bytes → World → Reply × World
unfolding record_reply head_of
show_record none w = refuse err_src w
show_record (some aid) w =
    let w' = update_database w in
    if not (is_valid_aid aid)
    then refuse err_src w
    else if not (exists_auction aid w)
    then answer (codes "RRC NOK\n") 8 w
    else record_reply (head_of (get_auction_info aid 128 w')) (get_auction_bidders_list aid w') w'

unfoldable pub handle_show_record : Bytes → World → Reply × World
unfolding show_record
handle_show_record input w = show_record (strtok b'\n' input).0 w
