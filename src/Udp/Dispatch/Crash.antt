-- ===== src/Udp/Dispatch/Crash.antt =====
-- Which requests end the process: `get_udp_error_msg` has no text for ERR_SRC and ERR_LST.
use auction_server.Common.{
  ◌≡◌, ◌≢◌, ◌≤◌, ◌⊎◌, inl, inr, false, none, some, arith, Bytes, codes, ◌++◌, bytes_eq, drop,
  length,
}
use auction_server.Libc.{strtok}
use auction_server.Validators.{is_valid_aid}
use auction_server.Os.{World, take_bytes}
use auction_server.Udp.Session.{Reply, handle_login, handle_logout, handle_unregister}
use auction_server.Udp.Listing.{handle_my_auctions, handle_my_bids, handle_show_record}
use auction_server.Udp.Dispatch.{
  Handler, crash, handle_udp_command, get_udp_handler_fn, get_udp_error_msg, run_handler, handled,
  search_table,
}

-- After `SRC ` an argument that is missing or is no AID ends the process, whatever the database
-- holds.
pub handle_udp_command-crash :
    (arg : Bytes) (w : World)
    → ((strtok b'\n' arg).0 ≡ none)
      ⊎ ((a : Bytes) × ((strtok b'\n' arg).0 ≡ some a) × (is_valid_aid a ≡ false))
    → handle_udp_command (codes "SRC " ++ arg) w ≡ crash
unfolding handle_udp_command get_udp_handler_fn take_bytes handle_show_record get_udp_error_msg
handle_udp_command-crash arg w (inl e) = rw e
handle_udp_command-crash arg w (inr (a, e, bad)) = rw (e, bad)

abbrev SmallError : Handler → Type 0
SmallError fn = (input : Bytes) (w : World) → (fn input w).0.err ≤ 5

handle_login-SmallError : SmallError handle_login
unfolding handle_login
handle_login-SmallError input w = ground arith

handle_logout-SmallError : SmallError handle_logout
unfolding handle_logout
handle_logout-SmallError input w = ground arith

handle_unregister-SmallError : SmallError handle_unregister
unfolding handle_unregister
handle_unregister-SmallError input w = ground arith

handle_my_auctions-SmallError : SmallError handle_my_auctions
unfolding handle_my_auctions
handle_my_auctions-SmallError input w = ground arith

handle_my_bids-SmallError : SmallError handle_my_bids
unfolding handle_my_bids
handle_my_bids-SmallError input w = ground arith

-- A small error code has a text.
handled-crash : (r : Reply × World) → r.0.err ≤ 5 → handled r ≢ crash
unfolding handled get_udp_error_msg
handled-crash (r, w) h = ground arith

-- A request for a command other than SRC and LST never ends the process, whatever its arguments.
pub handle_udp_command-ne-crash :
    (request : Bytes) (w : World)
    → bytes_eq (take_bytes 4 request) (codes "SRC ") ≡ false
    → bytes_eq (take_bytes 4 request) (codes "LST\n") ≡ false
    → handle_udp_command request w ≢ crash
unfolding handle_udp_command get_udp_handler_fn run_handler search_table
handle_udp_command-ne-crash request w h k =
    let rest = drop (length (take_bytes 4 request)) request in
    ground (
      arith,
      handled-crash (handle_login rest w) (handle_login-SmallError rest w),
      handled-crash (handle_logout rest w) (handle_logout-SmallError rest w),
      handled-crash (handle_unregister rest w) (handle_unregister-SmallError rest w),
      handled-crash (handle_my_auctions rest w) (handle_my_auctions-SmallError rest w),
      handled-crash (handle_my_bids rest w) (handle_my_bids-SmallError rest w),
    )
