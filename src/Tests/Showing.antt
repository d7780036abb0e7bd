-- ===== src/Tests/Showing.antt =====
-- Lists, bids, assets and records between the client and the server.
use auction_server.Common.{
  ◌≡◌, ◌≢◌, refl, ap, true, none, some, [], ◌∷◌, ◌++◌, List, Bytes, codes, arith,
}
use auction_server.Common.Int.{pos_part}
use auction_server.Libc.{atoi, strtok, sscanf_d, print_padded, print_dec}
use auction_server.Os.{
  auctions, lookup, path_eq, fopen_r, contents, fgets, scandir, alphasort, open_creat, fopen_w,
  fputs, children, insert, text_of,
}
use auction_server.Validators.{
  is_valid_uid, is_valid_passwd, is_valid_aid, is_valid_start_value, is_valid_time_active,
  is_valid_fname, is_hidden,
}
use auction_server.Stream.{got, unread, read_tcp_stream}
use auction_server.Stream.Received.{arriving}
use auction_server.Stream.Send.{Piece, piece, Accepts, takes, delivered, send_tcp_message}
use auction_server.Stream.Send.Partial.{send_tcp_message_split}
use auction_server.Database.Auctions.{
  update_database, exists_auction, is_auction_finished, get_auction_info, first_line,
}
use auction_server.Database.Bids.{get_last_bid, bid}
use auction_server.Database.Hosting.{seconds_since}
use auction_server.Database.Names.{nth_token, bid_name}
use auction_server.Database.Users.{exists_user, is_user_logged_in, is_authentic_user, is_open}
use auction_server.Tcp.Bid.Accept.{Accepted}
use auction_server.Tcp.Bid.{bid_request, handle_bid, value_byte}
use auction_server.Tcp.Close.{three_args}
use auction_server.Tcp.Dispatch.{serve_tcp_connection, get_tcp_handler_fn}
use auction_server.Tcp.Reading.{zero_buff, recv_bytes}
use auction_server.Tcp.ShowAsset.{asset_text}
use auction_server.Udp.Dispatch.{c_string}
use auction_server.Client.{ClientState, Result, returned, Network, answering, other_errno}
use auction_server.Client.Asset.{handle_show_asset}
use auction_server.Client.Lists.{handle_list, rls}
use auction_server.Client.Record.{record_answer, no_fuel, past_end}
use auction_server.Client.Record.Bounds.{record_answer-ne-no_fuel, record_answer-ne-past_end}
use auction_server.Client.Tcp as Typed
use auction_server.Exchange.{Joint, server}
use auction_server.Exchange.Asset.{FileName, header_text, text_for, handle_show_asset-saved}
use auction_server.Exchange.Bid.Told.{success, handle_bid-Accepted}
use auction_server.Exchange.Lists.{board}
use auction_server.Exchange.Lists.Served.{items_of, visible, handle_list-board}
use auction_server.Exchange.Session.{Valid}
use auction_server.Tests.Worlds.{market, uid, passwd, aid}

abbrev bidder : ClientState
bidder = record { logged_in = true; uid = uid; passwd = passwd }

abbrev hall : Joint
hall = record { world = market; files = [] }

handle_list-board_example : handle_list server [] bidder hall ≡ (
  returned 0 (rls.header ++ board 0 (items_of (update_database market) (aid ∷ []))) bidder,
  record hall { world = update_database market },
)
unfolding text_of
handle_list-board_example =
    handle_list-board [] bidder hall (codes "." ∷ codes ".." ∷ aid ∷ []) aid [] listed sorted
      (valid_aid, tt) (omega arith)
  where
    listed : scandir auctions (update_database market) ≡ some (codes "." ∷ codes ".." ∷ aid ∷ [])
    listed =
        unfold scandir children lookup insert path_eq update_database is_hidden is_auction_finished
          fopen_r contents is_open get_auction_info first_line fgets seconds_since nth_token strtok
          atoi alphasort is_valid_time_active in
        refl

    sorted : visible (alphasort (codes "." ∷ codes ".." ∷ aid ∷ [])) ≡ aid ∷ []
    sorted = unfold alphasort is_hidden in refl

    valid_aid : is_valid_aid aid ≡ true
    valid_aid = unfold is_valid_aid in refl

abbrev placed : Result × Joint
placed = Typed.handle_bid server (aid ++ b' ' ∷ codes "050") bidder hall

bidder-Valid : Valid uid passwd
unfolding is_valid_uid is_valid_passwd
bidder-Valid = record { uid_ok = refl; passwd_ok = refl }

placed_told : placed.0 ≡ returned 0 (success (codes "050") aid) bidder
unfolding Typed.handle_bid Typed.bid_answer server serve_tcp_connection get_tcp_handler_fn
    handle_bid bid_request exists_user is_user_logged_in is_authentic_user exists_auction
    get_auction_info is_auction_finished fopen_r contents lookup path_eq fgets nth_token strtok atoi
    get_last_bid scandir alphasort sscanf_d bid is_open seconds_since insert is_valid_start_value
    children open_creat fopen_w bid_name print_padded fputs read_tcp_stream zero_buff recv_bytes
    value_byte c_string three_args update_database is_valid_uid is_valid_passwd is_valid_aid
    is_hidden is_valid_time_active print_dec unread
placed_told = refl

handle_bid-Accepted_example :
    (line : Bytes) × (owner : Bytes) × (start : Bytes) × Accepted uid passwd aid
      (pos_part (atoi (codes "050")))
      (update_database market)
      placed.1.world
      line
      owner
      start
unfolding is_valid_aid is_valid_start_value
handle_bid-Accepted_example =
    handle_bid-Accepted bidder aid (codes "050") hall placed.1 bidder-Valid refl refl refl
      (ap (λ r. (r, placed.1)) placed_told)

-- A network whose server sends one asset, cut in two; the client's files are a list.
abbrev shelf : Network (List (Bytes × Bytes))
shelf = record {
  ask = λ message n. (none, n);
  dial = λ message n. (
    answering other_errno (
        unread (header_text (codes "clock.png") (codes "tick"))
          (got b't' (codes "ic") ∷ got b'k' (codes "\n") ∷ [])),
    n,
  );
  asset_file = λ fname n. none;
  create = λ fname n. (true, n);
  save = λ fname content n. (true, (fname, content) ∷ n);
}

clock-FileName : FileName (codes "clock.png")
unfolding is_valid_fname
clock-FileName = record { accepted = refl; one_word = ground arith; no_nul = ground arith }

handle_show_asset-saved_example : handle_show_asset shelf aid bidder [] ≡ (
  returned 0 (text_for aid (codes "clock.png") 4) bidder,
  (codes "clock.png", codes "tick") ∷ [],
)
unfolding is_valid_aid arriving asset_text header_text print_dec
handle_show_asset-saved_example =
    handle_show_asset-saved shelf bidder [] [] [] ((codes "clock.png", codes "tick") ∷ []) aid
      (codes "clock.png") (codes "tick") other_errno
      (got b't' (codes "ic") ∷ got b'k' (codes "\n") ∷ []) refl clock-FileName (omega arith) tt refl
      refl refl refl

abbrev pieces : List Piece
pieces = piece b't' (codes "i") ∷ piece b'c' (codes "k") ∷ []

abbrev calls : List Accepts
calls = takes 0 ∷ takes 5 ∷ takes 1 ∷ takes 0 ∷ takes 0 ∷ []

send_tcp_message_split_example :
    send_tcp_message (codes "LST") (takes 0 ∷ takes 5 ∷ []) ≢ delivered (codes "LST")
send_tcp_message_split_example =
    send_tcp_message_split (codes "LST") 0 (takes 5 ∷ []) (codes "LST") (omega arith)

abbrev record_text : Bytes
record_text =
    codes
      "RRC OK 654321 clock clock.png 20 2023-11-14 22:13:10 3600 B 123456 50 2023-11-14 22:13:20 10\n"

record_answer-ne-no_fuel_example : record_answer aid record_text ≢ no_fuel
record_answer-ne-no_fuel_example = record_answer-ne-no_fuel aid record_text

record_answer-ne-past_end_example : record_answer aid record_text ≢ past_end
record_answer-ne-past_end_example = record_answer-ne-past_end aid record_text (omega arith)
