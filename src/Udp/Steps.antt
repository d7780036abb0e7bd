-- ===== src/Udp/Steps.antt =====
-- What a datagram does to the database is a sequence of the calls of server/database.c.
use auction_server.Common.{
  ℕ, not, Option, none, some, List, [], ◌∷◌, if-all, Bytes, length, ltb, ◌==◌, bytes_eq, All, drop,
}
use auction_server.Common.Int.{is_zero}
use auction_server.Libc.{strtok}
use auction_server.Validators.{is_valid_uid, is_valid_aid}
use auction_server.Os.{World, take_bytes}
use auction_server.Database.Users.{
  exists_user, is_user_logged_in, is_authentic_user, log_in_user, log_out_user, register_user,
  unregister_user,
}
use auction_server.Database.Auctions.{exists_auction, update_database}
use auction_server.Database.Lists.{get_user_auctions, get_user_bids, get_auctions_list}
use auction_server.Database.Steps.{
  Run, stays, one, logs_in, logs_out, registers, unregisters, updates,
}
use auction_server.Udp.Session.{
  Reply, credentials, login, logout, unregister, handle_login, handle_logout, handle_unregister,
}
use auction_server.Udp.Listing.{
  list_reply, my_auctions, my_bids, record_reply, show_record, handle_my_auctions, handle_my_bids,
  handle_list, handle_show_record,
}
use auction_server.Udp.Dispatch.{
  Handler, udp_command_table, search_table, get_udp_handler_fn, Outcome, replied, unknown, crash,
  get_udp_error_msg, report, handled, run_handler, handle_udp_command, Sent, sent, died, send,
  serve_datagram, last_byte, c_string,
}

-- The world that a handler leaves is reached by steps.
abbrev Reaches : World → Reply × World → Type 0
Reaches w r = Run w r.1

login-Reaches : (c : Option (Bytes × Bytes)) (w : World) → Reaches w (login c w)
unfolding login
login-Reaches none w = stays w
login-Reaches (some (uid, passwd)) w =
    let new = one w _ (registers uid passwd w) in
    let back = one w _ (logs_in uid w) in
    if-all (Reaches w) (not (exists_user uid w)) _ _
      (if-all (Reaches w) (not (register_user uid passwd w).0) _ _ new new)
      (if-all (Reaches w) (is_zero (is_authentic_user uid passwd w)) _ _ (stays w)
        (if-all (Reaches w) (not (log_in_user uid w).0) _ _ back back))

logout-Reaches : (c : Option (Bytes × Bytes)) (w : World) → Reaches w (logout c w)
unfolding logout
logout-Reaches none w = stays w
logout-Reaches (some (uid, passwd)) w =
    let out = one w _ (logs_out uid w) in
    if-all (Reaches w) (not (exists_user uid w)) _ _ (stays w) (
      if-all (Reaches w) (not (is_user_logged_in uid w)) _ _ (stays w) (
        if-all (Reaches w) (is_zero (is_authentic_user uid passwd w)) _ _ (stays w)
          (if-all (Reaches w) (not (log_out_user uid w).0) _ _ out out)))

unregister-Reaches : (c : Option (Bytes × Bytes)) (w : World) → Reaches w (unregister c w)
unfolding unregister
unregister-Reaches none w = stays w
unregister-Reaches (some (uid, passwd)) w =
    let out = one w _ (unregisters uid w) in
    if-all (Reaches w) (not (exists_user uid w)) _ _ (stays w) (
      if-all (Reaches w) (not (is_user_logged_in uid w)) _ _ (stays w) (
        if-all (Reaches w) (is_zero (is_authentic_user uid passwd w)) _ _ (stays w)
          (if-all (Reaches w) (not (unregister_user uid w).0) _ _ out out)))

list_reply-Reaches :
    (err : ℕ) (ok nok : Bytes) (text : Option Bytes) (w : World)
    → Reaches w (list_reply err ok nok text (update_database w))
unfolding list_reply
list_reply-Reaches err ok nok none w = one w _ (updates w)
list_reply-Reaches err ok nok (some text) w =
    let update = one w _ (updates w) in if-all (Reaches w) (length text == 1) _ _ update update

my_auctions-Reaches : (uid : Option Bytes) (w : World) → Reaches w (my_auctions uid w)
unfolding my_auctions
my_auctions-Reaches none w = stays w
my_auctions-Reaches (some uid) w = if-all (Reaches w) (not (is_valid_uid uid)) _ _ (stays w) (
    if-all (Reaches w) (not (exists_user uid w)) _ _ (stays w) (
      if-all (Reaches w) (not (is_user_logged_in uid w)) _ _ (stays w)
        (list_reply-Reaches _ _ _ (get_user_auctions uid (update_database w)) w)))

my_bids-Reaches : (uid : Option Bytes) (w : World) → Reaches w (my_bids uid w)
unfolding my_bids
my_bids-Reaches none w = stays w
my_bids-Reaches (some uid) w = if-all (Reaches w) (not (is_valid_uid uid)) _ _ (stays w) (
    if-all (Reaches w) (not (exists_user uid w)) _ _ (stays w) (
      if-all (Reaches w) (not (is_user_logged_in uid w)) _ _ (stays w)
        (list_reply-Reaches _ _ _ (get_user_bids uid (update_database w)) w)))

record_reply-Reaches :
    (head bids : Option Bytes) (w : World) → Reaches w (record_reply head bids (update_database w))
unfolding record_reply
record_reply-Reaches none bids w = one w _ (updates w)
record_reply-Reaches (some head) none w = one w _ (updates w)
record_reply-Reaches (some head) (some text) w = one w _ (updates w)

show_record-Reaches : (aid : Option Bytes) (w : World) → Reaches w (show_record aid w)
unfolding show_record
show_record-Reaches none w = stays w
show_record-Reaches (some aid) w =
    if-all (Reaches w) (not (is_valid_aid aid)) _ _ (stays w)
      (if-all (Reaches w) (not (exists_auction aid w)) _ _ (stays w) (record_reply-Reaches _ _ w))

-- A handler, or none, from which every world is reached by steps.
abbrev Stepping : Option Handler → Type 0
Stepping none = Unit
Stepping (some fn) = (input : Bytes) (w : World) → Reaches w (fn input w)

search_table-Stepping :
    (cmd : Bytes) (table : List (Bytes × Handler))
    → All (λ e. Stepping (some e.1)) table
    → Stepping (search_table cmd table)
unfolding search_table
search_table-Stepping cmd [] h = tt
search_table-Stepping cmd ((op, fn) ∷ table) h =
    if-all Stepping (bytes_eq cmd op) (some fn) (search_table cmd table) h.0
      (search_table-Stepping cmd table h.1)

get_udp_handler_fn-Stepping : (cmd : Bytes) → Stepping (get_udp_handler_fn cmd)
unfolding get_udp_handler_fn handle_login handle_logout handle_unregister handle_my_auctions
    handle_my_bids handle_list handle_show_record
get_udp_handler_fn-Stepping cmd = search_table-Stepping cmd udp_command_table (
  λ input. login-Reaches (credentials input),
  (
    λ input. logout-Reaches (credentials input),
    (
      λ input. unregister-Reaches (credentials input),
      (
        λ input. my_auctions-Reaches (strtok b'\n' input).0,
        (
          λ input. my_bids-Reaches (strtok b'\n' input).0,
          (
            λ input w. list_reply-Reaches _ _ _ (get_auctions_list (update_database w)) w,
            (λ input. show_record-Reaches (strtok b'\n' input).0, tt),
          ),
        ),
      ),
    ),
  ),
)

-- The world that a request leaves, if the server survives it.
abbrev Left : World → Outcome → Type 0
Left w (replied text n w') = Run w w'
Left w unknown = Unit
Left w crash = Unit

report-Left : (msg : Option Bytes) (v w : World) → Run v w → Left v (report msg w)
unfolding report
report-Left none v w r = tt
report-Left (some msg) v w r = r

handled-Left : (r : Reply × World) (w : World) → Reaches w r → Left w (handled r)
unfolding handled
handled-Left (r, w') w h =
    if-all (Left w) (not (r.err == 0)) _ _ (report-Left (get_udp_error_msg r.err) w w' h) h

run_handler-Left :
    (fn : Option Handler) (rest : Bytes) (w : World) → Stepping fn → Left w (run_handler fn rest w)
unfolding run_handler
run_handler-Left none rest w h = tt
run_handler-Left (some fn) rest w h = handled-Left (fn rest w) w (h rest w)

-- The world behind a datagram, if the server survives it.
abbrev pub Served : World → Sent → Type 0
Served w (sent text w') = Run w w'
Served w died = Unit

send-Served : (o : Outcome) (w : World) → Left w o → Served w (send o w)
unfolding send
send-Served (replied text n w') w h = h
send-Served unknown w h = stays w
send-Served crash w h = tt

-- Whatever a datagram holds, the database that it leaves is reached by calls of server/database.c.
pub serve_datagram-Served : (datagram : Bytes) (w : World) → Served w (serve_datagram datagram w)
unfolding serve_datagram handle_udp_command
serve_datagram-Served datagram w =
    let request = c_string datagram in
    let cmd = take_bytes 4 request in
    if-all (Served w) (length datagram == 0) _ _ (stays w) (
      if-all (Served w) (ltb 20 (length datagram)) _ _ (stays w) (
        if-all (Served w) (not (last_byte datagram == b'\n')) _ _ (stays w) (
          send-Served _ w (
            run_handler-Left (get_udp_handler_fn cmd) (drop (length cmd) request) w
              (get_udp_handler_fn-Stepping cmd)))))
