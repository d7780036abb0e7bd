-- ===== src/Tests/Auctions.antt =====
-- Auctions opened, bid on and closed, on small databases.
use auction_server.Common.{◌≡◌, refl, true, arith, [], codes, Bytes}
use auction_server.Libc.{atoi, strtok}
use auction_server.Os.{
  lookup, path_eq, fopen_r, contents, fgets, scandir, open_creat, fopen_w, fputs, children, insert,
}
use auction_server.Database.Auctions.{
  exists_auction, is_auction_finished, get_auction_info, create_auction_dir, end_auction,
}
use auction_server.Database.Hosting.{close_auction, seconds_since}
use auction_server.Database.Names.{aid_of, nth_token}
use auction_server.Database.Users.{exists_user, is_user_logged_in, is_authentic_user, is_open}
use auction_server.Database.Start.{init_database, visible_count}
use auction_server.Database.Start.Restart.{stopped, create_auction_dir-restart}
use auction_server.Database.Auctions.{update_database}
use auction_server.Database.Auctions.Update.{Updated, update_database-Updated}
use auction_server.Tcp.Close.{close_request}
use auction_server.Common.{◌∷◌}
use auction_server.Os.{World, scandir, children}
use auction_server.Stream.{Conn, got, read_tcp_stream}
use auction_server.Tcp.Reading.{zero_buff}
use auction_server.Udp.Dispatch.{c_string}
use auction_server.Validators.{
  is_valid_uid, is_valid_passwd, is_valid_aid, is_hidden, is_valid_time_active,
}
use auction_server.Tcp.Close.{handle_close, three_args}
use auction_server.Stream.{unread}
use auction_server.Tcp.Close.Accept.{Closed}
use auction_server.Tcp.Dispatch.{serve_tcp_connection, get_tcp_handler_fn}
use auction_server.Client.{ClientState, Result, returned}
use auction_server.Client.Tcp as Typed
use auction_server.Exchange.{Joint, server}
use auction_server.Exchange.Close.{success, handle_close-told_iff}
use auction_server.Exchange.Session.{Valid}
use auction_server.Tests.Worlds.{passwd, empty, empty-Serving, opened, opened-Ready, market, aid}
use auction_server.Common.{◌++◌}
use auction_server.Common.Int.{pos_part}
use auction_server.Database.Hosting.{create_new_auction}
use auction_server.Validators.{is_valid_name, is_valid_fname, is_valid_start_value}
use auction_server.Tcp.Open.{open_answer}
use auction_server.Client.Tcp.{open_message}
use auction_server.Exchange.Asset.{FileName}
use auction_server.Exchange.Open.Sent.{serve_tcp_connection-open}

create_auction_dir-restart_example :
    init_database (stopped (create_auction_dir empty).1) ≡ (true, (create_auction_dir empty).1)
unfolding visible_count children lookup path_eq aid_of
create_auction_dir-restart_example =
    create_auction_dir-restart empty empty-Serving.ready refl (omega arith) refl

update_database-Updated_example : Updated opened (update_database opened)
update_database-Updated_example = update_database-Updated opened opened-Ready

abbrev closing_bytes : Conn
closing_bytes = got b'6' (codes "54321 passw0rd 001\n") ∷ []

abbrev closed_world : World
closed_world = (close_auction aid (update_database market)).1

-- The owner of the auction types `close 001`.
abbrev hostess : ClientState
hostess = record { logged_in = true; uid = codes "654321"; passwd = passwd }

abbrev sale : Joint
sale = record { world = market; files = [] }

hostess-Valid : Valid hostess.uid passwd
unfolding is_valid_uid is_valid_passwd
hostess-Valid = record { uid_ok = refl; passwd_ok = refl }

abbrev closing : Result × Joint
closing = Typed.handle_close server aid hostess sale

closing_told : closing ≡ (returned 0 success hostess, record sale { world = closing.1.world })
unfolding Typed.handle_close Typed.close_answer server serve_tcp_connection get_tcp_handler_fn
    handle_close close_request exists_user is_user_logged_in is_authentic_user exists_auction
    get_auction_info is_auction_finished fopen_r contents lookup path_eq fgets nth_token strtok atoi
    close_auction seconds_since is_open insert end_auction open_creat fopen_w fputs read_tcp_stream
    zero_buff c_string three_args update_database is_valid_uid is_valid_passwd is_valid_aid
    is_hidden is_valid_time_active scandir children unread
closing_told = refl

handle_close-told_iff_example :
    (line : Bytes) × (owner : Bytes) × Closed
      (codes "654321")
      passwd
      aid
      (update_database market)
      closing.1.world
      line
      owner
unfolding is_valid_aid
handle_close-told_iff_example =
    (handle_close-told_iff hostess aid sale closing.1.world hostess-Valid refl refl).0 closing_told

vase-FileName : FileName (codes "vase.png")
unfolding is_valid_fname
vase-FileName = record { accepted = refl; one_word = ground arith; no_nul = ground arith }

serve_tcp_connection-open_example :
    serve_tcp_connection
      (unread
        (open_message hostess
          (codes "vase")
          (codes "vase.png")
          (codes "020")
          (codes "03600")
          (codes "abc"))
        [])
      market
    ≡ open_answer (
        create_new_auction
          (codes "654321")
          (codes "vase")
          (codes "vase.png")
          (pos_part (atoi (codes "020")))
          (pos_part (atoi (codes "03600")))
          3
          (unread (codes "abc" ++ b'\n' ∷ []) [])
          market)
unfolding is_valid_name is_valid_start_value is_valid_time_active exists_user is_user_logged_in
    is_authentic_user lookup path_eq insert is_open fopen_r contents fgets strtok
serve_tcp_connection-open_example =
    serve_tcp_connection-open hostess (codes "vase") (codes "vase.png") (codes "020")
      (codes "03600") (codes "abc") market hostess-Valid refl vase-FileName refl refl (omega arith)
      (omega arith) (unfold atoi in omega arith) refl refl refl
