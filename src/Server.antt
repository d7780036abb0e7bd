-- ===== src/Server.antt =====
-- server/server.c: the start of the server, and one round of each thread's loop. Logging is left out,
-- so a call whose failure is only logged has no outcome here.
pub mod Options
pub mod Lasting
pub mod Progress
pub mod Descriptors
use auction_server.Common.{
  ℕ, ◌-◌, ◌%◌, Bool, true, false, not, ◌&&◌, Option, none, some, List, [], ◌∷◌, ltb, if◌then◌else◌,
  Bytes,
}
use auction_server.Common.Int.{ℤ, pos, negsuc}
use auction_server.Stream.{Conn}
use auction_server.Os.{World, Call, FilePath}
use auction_server.Database.Start.{init_database}
use auction_server.Udp.Dispatch.{Sent, sent, died, serve_datagram}
use auction_server.Tcp.Reading.{TcpResult, ended, crash}
use auction_server.Tcp.Dispatch.{serve_tcp_connection}
use auction_server.Queue.{
  TcpClient, TasksQueue, Pthread, Outcome, Signal, silent, signalled, waiting, returned, init_queue,
  enqueue, dequeue,
}

-- What all threads share, the client that the accepting thread waits to put into the queue, and
-- whether `not_full` has been signalled since it went to sleep.
pub record ServerState : Type 0 where
  pub world : World
  pub queue : TasksQueue
  pub held : Option TcpClient
  pub woken : Bool

-- One round of the loop of `udp_server_thread_fn`: `none` where `recvfrom` fails. What is sent back,
-- and the state, or the end of the process.
unfoldable pub udp_round : Sent → ServerState → Option (Bytes × ServerState)
udp_round died s = none
udp_round (sent text w) s = some (text, record s { world = w })

unfoldable pub receive_datagram : Option Bytes → ServerState → Option (Bytes × ServerState)
unfolding udp_round
receive_datagram none s = some ([], s)
receive_datagram (some datagram) s = udp_round (serve_datagram datagram s.world) s

-- A connection that `accept` returns: its descriptor, and the peer's address.
pub record Accepted : Type 0 where
  pub fd : ℕ
  pub ipv4 : Bytes
  pub port : ℕ

-- `char conn_fd = accept(...)`, where `char` is signed and has 8 bits
unfoldable pub as_char : ℕ → ℤ
as_char n = if ltb (n % 256) 128 then pos (n % 256) else negsuc (255 - n % 256)

-- The client that a round of the accepting loop hands to `enqueue`: none where `conn_fd < 0`.
unfoldable pub tcp_client : Option Accepted → Option TcpClient
unfolding as_char
tcp_client none = none
tcp_client (some a) = elim (as_char a.fd) [
  | pos fd ↦ some (record { ipv4 = a.ipv4; port = a.port; conn_fd = fd })
  | negsuc n ↦ none
]

-- `enqueue` sleeps with the client in hand, or the loop goes on; if it fails the connection is closed.
unfoldable put_client : TcpClient → Outcome Unit → ServerState → ServerState
put_client c waiting s = record s { held = some c; woken = false }
put_client c (returned done signal q u) s = record s { queue = q; held = none }

unfoldable hand_over : Pthread → Option TcpClient → ServerState → ServerState
unfolding put_client
hand_over os none s = s
hand_over os (some c) s = put_client c (enqueue os s.queue c) s

-- One round of the loop of `tcp_server_thread_fn`, if the thread is not asleep in the round before.
unfoldable pub accept_connection : Pthread → Option Accepted → ServerState → ServerState
unfolding hand_over
accept_connection os a s = elim s.held [ none ↦ hand_over os (tcp_client a) s | some c ↦ s ]

-- The accepting thread goes on in `enqueue`, once it has been signalled.
unfoldable pub wake_acceptor : Pthread → ServerState → ServerState
unfolding hand_over
wake_acceptor os s = if s.woken then hand_over os s.held s else s

unfoldable pub serve_task : TcpResult → ServerState → Option (Bytes × ServerState)
serve_task crash s = none
serve_task (ended err text conn w) s = some (text, record s { world = w })

-- A signal of `not_full` reaches the accepting thread if it sleeps, and is lost otherwise.
unfoldable pub reaches : Signal → Option TcpClient → Bool → Bool
reaches silent held woken = woken
reaches signalled none woken = woken
reaches signalled (some c) woken = true

unfoldable pub signal_acceptor : Signal → ServerState → ServerState
unfolding reaches
signal_acceptor signal s = record s { woken = reaches signal s.held s.woken }

-- The task is served where `dequeue` returned 0, on what its peer sends.
unfoldable pub work_on : Outcome TcpClient → (ℕ → Conn) → ServerState → Option (Bytes × ServerState)
unfolding serve_task signal_acceptor
work_on waiting peers s = some ([], s)
work_on (returned false signal q task) peers s =
    some ([], signal_acceptor signal (record s { queue = q }))
work_on (returned true signal q task) peers s =
    serve_task (serve_tcp_connection (peers task.conn_fd) s.world)
      (signal_acceptor signal (record s { queue = q }))

-- One round of the loop of `tcp_worker_thread_fn`, whose variable `task` holds `old`.
unfoldable pub work : Pthread → TcpClient → (ℕ → Conn) → ServerState → Option (Bytes × ServerState)
unfolding work_on
work os old peers s = work_on (dequeue os s.queue old) peers s

-- A round of some thread's loop; or time passes, and the kernel refuses other calls than before.
pub data Event : Type 0 where
  datagram : Option Bytes → Event
  connection : Pthread → Option Accepted → Event
  wakes : Pthread → Event
  works : Pthread → TcpClient → (ℕ → Conn) → Event
  passes : ℕ → (Call → FilePath → Bool) → Event

unfoldable pub step : Event → ServerState → Option (Bytes × ServerState)
unfolding receive_datagram accept_connection wake_acceptor work
step (datagram d) s = receive_datagram d s
step (connection os a) s = some ([], accept_connection os a s)
step (wakes os) s = some ([], wake_acceptor os s)
step (works os old peers) s = work os old peers s
step (passes now refuses) s =
    some ([], record s { world = record s.world { now = now; refuses = refuses } })

unfoldable pub go_on :
    Option (Bytes × ServerState)
    → (ServerState → List Bytes × Option ServerState)
    → List Bytes × Option ServerState
go_on none rest = ([], none)
go_on (some (text, s)) rest = let (texts, last) = rest s in (text ∷ texts, last)

-- The threads' rounds, one behind the other: what was sent, and the state if the process still runs.
unfoldable pub serve : List Event → ServerState → List Bytes × Option ServerState
unfolding step go_on
serve [] s = ([], some s)
serve (e ∷ es) s = go_on (step e s) (serve es)

-- Which calls at the start of the server succeed: `signal` finds the default handler, the queue is
-- made, and each thread is created.
pub record Launching : Type 0 where
  pub signal_ok : Bool
  pub queue_ok : Bool
  pub workers_ok : List Bool
  pub udp_ok : Bool
  pub tcp_ok : Bool

unfoldable all_true : List Bool → Bool
all_true [] = true
all_true (b ∷ bs) = b && all_true bs

-- `server`, up to the threads' start: `none` is `exit(1)`, and `tasks` the memory of the queue.
unfoldable pub server : Launching → List TcpClient → World → Option ServerState
unfolding all_true
server l tasks w =
    let (ready, w') = init_database w in
    let state : ServerState = record {
      world = w';
      queue = init_queue tasks;
      held = none;
      woken = false;
    } in
    if not ready
    then none
    else if not l.signal_ok
    then none
    else if not l.queue_ok
    then none
    else if not (all_true l.workers_ok)
    then none
    else if not l.udp_ok
    then none
    else if not l.tcp_ok
    then none
    else some state
