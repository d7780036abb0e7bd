-- ===== src/Tests/Bids.antt =====
-- Bids placed on small databases.
use auction_server.Common.{◌≡◌, refl, true, some, arith, [], ◌∷◌, codes, map}
use auction_server.Common.Int.{pos}
use auction_server.Libc.{atoi, strtok, sscanf_d, print_padded}
use auction_server.Os.{
  lookup, path_eq, fopen_r, contents, fgets, scandir, alphasort, open_creat, fopen_w, fputs,
  children, insert, bids_dir, bidded_dir, bid_file, dir, file, World,
}
use auction_server.Validators.{
  is_valid_start_value, is_valid_time_active, is_valid_uid, is_valid_passwd, is_valid_aid,
  is_hidden,
}
use auction_server.Stream.{Conn, got, read_tcp_stream}
use auction_server.Database.Auctions.{
  exists_auction, is_auction_finished, get_auction_info, first_line, update_database,
}
use auction_server.Database.Bids.{get_last_bid, bid}
use auction_server.Database.Bids.Highest.{highest, get_last_bid-highest}
use auction_server.Database.Bids.Recorded.{bid-last}
use auction_server.Database.Hosting.{seconds_since}
use auction_server.Database.Names.{nth_token, bid_name}
use auction_server.Database.Users.{exists_user, is_user_logged_in, is_authentic_user, is_open}
use auction_server.Udp.Dispatch.{c_string}
use auction_server.Tcp.Bid.{bid_request, handle_bid, value_byte}
use auction_server.Tcp.Bid.Accept.{Placed, handle_bid-Placed}
use auction_server.Tcp.Close.{three_args}
use auction_server.Tcp.Reading.{ended, zero_buff, recv_bytes}
use auction_server.Tests.Worlds.{empty, market, market-Ready, aid, line, uid}

abbrev bid_request_bytes : Conn
bid_request_bytes = got b'1' (codes "23456 passw0rd 001 50\n") ∷ []

abbrev bid_world : World
bid_world = (bid aid uid 50 (update_database market)).1

handle_bid-Placed_example : Placed bid_request_bytes market bid_world
handle_bid-Placed_example = handle_bid-Placed bid_request_bytes [] market bid_world accepted
  where
    accepted : handle_bid bid_request_bytes market ≡ ended 0 (codes "RBD ACC\n") [] bid_world
    accepted =
        unfold handle_bid bid_request exists_user is_user_logged_in is_authentic_user exists_auction
          get_auction_info is_auction_finished fopen_r contents lookup path_eq fgets nth_token
          strtok atoi get_last_bid scandir alphasort sscanf_d bid is_open seconds_since insert
          is_valid_start_value children open_creat fopen_w bid_name print_padded fputs
          read_tcp_stream zero_buff recv_bytes value_byte c_string three_args update_database
          is_valid_uid is_valid_passwd is_valid_aid is_hidden is_valid_time_active in
        refl

bid-last_example :
    ((bid aid uid 50 market).0 ≡ true) × (get_last_bid aid (bid aid uid 50 market).1 ≡ pos 50)
bid-last_example =
    bid-last aid uid line 50 (pos 10) [] market market-Ready info seconds home bidded listed tt
      (omega arith) (unfold highest in omega arith)
  where
    info : get_auction_info aid 128 market ≡ some line
    info = unfold get_auction_info first_line fopen_r contents lookup insert path_eq fgets in refl

    seconds : seconds_since 1700000000 (some line) ≡ some (pos 10)
    seconds = unfold seconds_since nth_token strtok atoi in refl

    home : lookup (bids_dir aid) market.fs ≡ some dir
    home = unfold lookup insert path_eq in refl

    bidded : lookup (bidded_dir uid) market.fs ≡ some dir
    bidded = unfold lookup insert path_eq in refl

    listed : children (bids_dir aid) market.fs ≡ []
    listed = unfold children insert path_eq in refl

-- Three bids, in the order in which the directory happens to list them.
abbrev bids_made : World
bids_made = record empty {
  fs =
      (bid_file aid (bid_name 90), file [])
      ∷ (bid_file aid (bid_name 1000), file [])
      ∷ (bid_file aid (bid_name 100), file [])
      ∷ (bids_dir aid, dir)
      ∷ empty.fs;
}

get_last_bid-highest_example : get_last_bid aid bids_made ≡ pos (highest (90 ∷ 1000 ∷ 100 ∷ []))
get_last_bid-highest_example =
    get_last_bid-highest aid (90 ∷ 1000 ∷ 100 ∷ []) bids_made listed
      (omega arith, (omega arith, (omega arith, tt)))
  where
    listed :
        scandir (bids_dir aid) bids_made
        ≡ some (codes "." ∷ codes ".." ∷ map bid_name (90 ∷ 1000 ∷ 100 ∷ []))
    listed = unfold scandir lookup path_eq children in refl
