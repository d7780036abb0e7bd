-- ===== src/Tests/Servers.antt =====
-- The whole server on small runs.
use auction_server.Common.{
  ◌≡◌, ◌↔◌, ◌<◌, refl, ap, true, none, some, List, [], ◌∷◌, ◌++◌, Bytes, codes, arith, inl,
}
use auction_server.Common.Int.{pos}
use auction_server.Libc.{atoi, strtok}
use auction_server.Os.{
  lookup, path_eq, insert, dir, file, bidded_dir, bid_file, user_dir, World, fopen_r, contents,
  fgets, children, open_creat, write_start, mkdir, mkdir, take_bytes,
}
use auction_server.Validators.{is_valid_uid, is_valid_passwd}
use auction_server.Database.Invariant.{insert-IsDatabase}
use auction_server.Database.Users.{exists_user, is_open, register_user, write_password}
use auction_server.Database.Auctions.{get_auction_info, first_line}
use auction_server.Database.Hosting.{seconds_since}
use auction_server.Database.Names.{bid_name, nth_token}
use auction_server.Database.Monad.{ensure_dir}
use auction_server.Database.Start.{init_database, visible_count}
use auction_server.Database.Bids.{bid}
use auction_server.Database.Bids.Race.{Takes, bid_text, bid-overwritten}
use auction_server.Database.Steps.{Run, Step, Preserved, Run-Preserved}
use auction_server.Queue.{TasksQueue, init_queue}
use auction_server.Queue.Fifo.{contents as waiting_tasks}
use auction_server.Queue.Run.{all_well}
use auction_server.Udp.Session.{handle_login, credentials}
use auction_server.Udp.Dispatch.{
  sent, serve_datagram, handle_udp_command, get_udp_handler_fn, c_string, send, handled, last_byte,
}
use auction_server.Server.{
  Launching, Accepted, Event, server, serve, step, receive_datagram, accept_connection, go_on,
  udp_round,
}
use auction_server.Server.Descriptors.{own, awake, Handed, accept_connection_iff}
use auction_server.Server.Lasting.{server-Preserved}
use auction_server.Server.Progress.{
  rounds, answer_all, seen, with_tasks, serve-rounds, wake_acceptor-placed,
}
use auction_server.Common.{ℕ, zero, suc, false}
use auction_server.Server.{ServerState, wake_acceptor, work, work_on, signal_acceptor, serve_task}
use auction_server.Stream.{Conn, got, read_tcp_stream}
use auction_server.Queue.{dequeue, TcpClient}
use auction_server.Queue.Fifo.{slots, IsQueue}
use auction_server.Tcp.Reading.{zero_buff}
use auction_server.Tcp.Dispatch.{serve_tcp_connection, get_tcp_handler_fn}
use auction_server.Tests.Queues.{blanks}
use auction_server.Tests.Worlds.{
  empty, market, market-Ready, opened, opened-Ready, aid, line, uid, passwd,
}

-- Nothing is there yet.
abbrev blank_world : World
blank_world = record empty { fs = [] }

abbrev smooth : Launching
smooth = record {
  signal_ok = true;
  queue_ok = true;
  workers_ok = true ∷ true ∷ [];
  udp_ok = true;
  tcp_ok = true;
}

-- A datagram that does not arrive, and then a kernel that refuses every call.
abbrev later : List Event
later = Event.datagram none ∷ Event.passes 1700000100 (λ c p. true) ∷ []

abbrev requests : List Event
requests = Event.datagram (some (codes "LIN 123456 passw0rd\n")) ∷ later

abbrev idle : TasksQueue
idle = init_queue (blanks 60)

abbrev served : World
served = (register_user uid passwd empty).1

launch : server smooth (blanks 60) blank_world ≡ some (awake empty idle)
unfolding server init_database insert lookup path_eq visible_count children
launch = refl

logged_in : serve_datagram (codes "LIN 123456 passw0rd\n") empty ≡ sent (codes "RLI REG\n") served
unfolding serve_datagram handle_udp_command get_udp_handler_fn take_bytes c_string handle_login
    credentials strtok is_valid_uid is_valid_passwd exists_user fopen_r contents is_open lookup
    insert path_eq register_user ensure_dir mkdir open_creat write_password write_start send handled
    last_byte
logged_in = refl

abbrev served_later : World
served_later = record served { now = 1700000100; refuses = λ c p. true }

server-Preserved_example : Preserved empty served_later
server-Preserved_example =
    server-Preserved smooth (blanks 60) blank_world requests (awake empty idle)
      (awake served_later idle) (inl refl) launch run
  where
    run : (serve requests (awake empty idle)).1 ≡ some (awake served_later idle)
    run =
        unfold serve step receive_datagram in
        ap (λ r. (go_on (udp_round r (awake empty idle)) (serve later)).1) logged_in

-- One thread registers a user while another brings the database up to date.
abbrev registered : World
registered = (register_user uid passwd opened).1

Run-Preserved_example : Preserved opened registered
Run-Preserved_example = Run-Preserved opened registered opened-Ready.database (
    Run.then opened registered registered (Step.registers uid passwd opened) (Run.stays registered))

abbrev far : Accepted
far = record { fd = 200; ipv4 = codes "127.0.0.1"; port = 50000 }

accept_connection_iff_example :
    ((waiting_tasks (accept_connection all_well (some far) (awake empty idle)).queue
        ≡ waiting_tasks idle ++ own far ∷ [])
      ↔ (200 < 128))
    × Handed far idle (accept_connection all_well (some far) (awake empty idle)).queue
unfolding init_queue
accept_connection_iff_example =
    accept_connection_iff far empty idle
      (record { room = refl; bound = omega arith; in_ring = omega arith; ahead = refl })
      (omega arith)

-- A market with one more bidder.
abbrev rival : Bytes
rival = codes "222222"

abbrev crowd : World
crowd = record market { fs = insert (bidded_dir rival) dir (insert (user_dir rival) dir market.fs) }

crowd-Takes : Takes aid uid line (pos 10) crowd
unfolding lookup insert path_eq get_auction_info first_line fopen_r contents fgets seconds_since
    nth_token strtok atoi
crowd-Takes = record {
  ready = record {
    database =
        insert-IsDatabase (bidded_dir rival) dir _
          (insert-IsDatabase (user_dir rival) dir market.fs market-Ready.database tt refl) tt refl;
    willing = λ c p. refl;
  };
  info = refl;
  since = refl;
  home = refl;
  bidded = refl;
}

bid-overwritten_example :
    ((bid aid uid 50 crowd).0 ≡ true)
    × ((bid aid rival 50 (bid aid uid 50 crowd).1).0 ≡ true)
    × (lookup (bid_file aid (bid_name 50)) (bid aid rival 50 (bid aid uid 50 crowd).1).1.fs
        ≡ some (file (bid_text rival 1700000000 (pos 10))))
unfolding lookup insert path_eq
bid-overwritten_example = bid-overwritten aid uid rival line 50 (pos 10) crowd crowd-Takes refl

-- One connection waits, whose peer sends no known command, and another is held.
abbrev caller : TcpClient
caller = record { ipv4 = codes "127.0.0.1"; port = 50001; conn_fd = 7 }

abbrev one_caller : TasksQueue
one_caller = record { tasks = caller ∷ blanks 59; size = 1; head = 1; tail = 0 }

one_caller-IsQueue : IsQueue one_caller
one_caller-IsQueue = record {
  room = refl;
  bound = omega arith;
  in_ring = omega arith;
  ahead = refl;
}

abbrev peers : ℕ → Conn
peers fd = got b'F' (codes "OO\n") ∷ []

serve-rounds_example :
    ((serve (rounds caller peers (caller ∷ [])) (awake empty one_caller)).0
      ≡ (answer_all peers (caller ∷ []) empty).0)
    × (seen (serve (rounds caller peers (caller ∷ [])) (awake empty one_caller)).1
        ≡ with_tasks [] (answer_all peers (caller ∷ []) empty).1)
unfolding waiting_tasks slots
serve-rounds_example =
    serve-rounds (caller ∷ []) caller peers (awake empty one_caller) one_caller-IsQueue refl

abbrev callers : ℕ → List TcpClient → List TcpClient
callers zero ts = ts
callers (suc n) ts = caller ∷ callers n ts

-- Thirty connections wait, and the accepting thread sleeps with one more.
abbrev full_queue : TasksQueue
full_queue = record { tasks = callers 30 (blanks 30); size = 30; head = 0; tail = 0 }

full_queue-IsQueue : IsQueue full_queue
full_queue-IsQueue = record {
  room = refl;
  bound = omega arith;
  in_ring = omega arith;
  ahead = refl;
}

abbrev asleep : ServerState
asleep = record { world = empty; queue = full_queue; held = some (own far); woken = false }

abbrev freed : ServerState
freed = record asleep { queue = record full_queue { size = 29; tail = 1 }; woken = true }

wake_acceptor-placed_example :
    ((wake_acceptor all_well freed).held ≡ none)
    × (waiting_tasks (wake_acceptor all_well freed).queue ≡ callers 29 [] ++ own far ∷ [])
unfolding waiting_tasks slots
wake_acceptor-placed_example =
    wake_acceptor-placed caller (own far) caller (callers 29 []) peers asleep freed (codes "ERR\n")
      full_queue-IsQueue refl refl ran
  where
    ran : work all_well caller peers asleep ≡ some (codes "ERR\n", freed)
    ran =
        unfold work work_on signal_acceptor serve_task dequeue serve_tcp_connection read_tcp_stream
          zero_buff get_tcp_handler_fn c_string in
        refl
