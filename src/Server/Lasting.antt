-- ===== src/Server/Lasting.antt =====
-- Whatever the threads are asked, the database lasts.
use auction_server.Common.{
  ℕ, ◌≡◌, ◌⊎◌, refl, sym, true, false, not, Option, none, some, List, [], ◌∷◌, if◌then◌else◌, Bytes,
  Bool, Bool-cases, inl, inr, if_true, if_false, ap, ◌∙◌,
}
use mathlib.Core.Path.{subst}
use auction_server.Stream.{Conn}
use auction_server.Os.{World}
use auction_server.Database.Invariant.{IsDatabase}
use auction_server.Database.Start.{init_database}
use auction_server.Database.Start.First.{init_database-IsDatabase}
use auction_server.Database.Steps.{Run, Step, one, Run-trans, stays, Preserved, Run-Preserved}
use auction_server.Udp.Dispatch.{Sent, sent, died, serve_datagram}
use auction_server.Udp.Steps.{Served, serve_datagram-Served}
use auction_server.Tcp.Reading.{TcpResult, ended, crash}
use auction_server.Tcp.Dispatch.{serve_tcp_connection}
use auction_server.Tcp.Steps.Reach.{Reaches}
use auction_server.Tcp.Steps.{serve_tcp_connection-Reaches}
use auction_server.Queue.{TcpClient, Pthread, Outcome, waiting, returned, enqueue, dequeue}
use auction_server.Server.{
  ServerState, udp_round, receive_datagram, put_client, hand_over, accept_connection, wake_acceptor,
  signal_acceptor, serve_task, work_on, work, Event, datagram, connection, wakes, works, passes,
  step, go_on, serve, tcp_client, Accepted, Launching, all_true, server,
}

-- The world of a state that is still there is reached by steps.
abbrev Goes : World → Option (Bytes × ServerState) → Type 0
Goes w none = Unit
Goes w (some (text, s)) = Run w s.world

udp_round-Goes : (r : Sent) (s : ServerState) → Served s.world r → Goes s.world (udp_round r s)
unfolding udp_round
udp_round-Goes died s h = tt
udp_round-Goes (sent text w) s h = h

receive_datagram-Goes : (d : Option Bytes) (s : ServerState) → Goes s.world (receive_datagram d s)
unfolding receive_datagram
receive_datagram-Goes none s = stays s.world
receive_datagram-Goes (some d) s =
    udp_round-Goes (serve_datagram d s.world) s (serve_datagram-Served d s.world)

put_client-world :
    (c : TcpClient) (o : Outcome Unit) (s : ServerState) → (put_client c o s).world ≡ s.world
unfolding put_client
put_client-world c waiting s = refl
put_client-world c (returned done signal q u) s = refl

hand_over-world :
    (os : Pthread) (c : Option TcpClient) (s : ServerState) → (hand_over os c s).world ≡ s.world
unfolding hand_over
hand_over-world os none s = refl
hand_over-world os (some c) s = put_client-world c (enqueue os s.queue c) s

accept_connection-world :
    (os : Pthread) (a : Option Accepted) (s : ServerState)
    → (accept_connection os a s).world ≡ s.world
unfolding accept_connection
accept_connection-world os a s =
    elim s.held
      as (λ h.
        (elim h as (λ x. ServerState) [ none ↦ hand_over os (tcp_client a) s | some c ↦ s ]).world
        ≡ s.world) [ none ↦ hand_over-world os (tcp_client a) s | some c ↦ refl ]

wake_acceptor-world : (os : Pthread) (s : ServerState) → (wake_acceptor os s).world ≡ s.world
unfolding wake_acceptor
wake_acceptor-world os s = elim (Bool-cases s.woken) [
  | inl e ↦
      ap (λ x. x.world) (if_true s.woken (hand_over os s.held s) s e) ∙ hand_over-world os s.held s
  | inr e ↦ ap (λ x. x.world) (if_false s.woken (hand_over os s.held s) s e)
]

-- A state with the same world is reached in no step.
same_world : (v w : World) → w ≡ v → Run v w
same_world v w e = subst (Run v) (sym e) (stays v)

serve_task-Goes :
    (r : TcpResult) (s : ServerState) → Reaches s.world r → Goes s.world (serve_task r s)
unfolding serve_task
serve_task-Goes crash s h = tt
serve_task-Goes (ended err text conn w) s h = h

work_on-Goes :
    (o : Outcome TcpClient) (peers : ℕ → Conn) (s : ServerState) → Goes s.world (work_on o peers s)
unfolding work_on signal_acceptor
work_on-Goes waiting peers s = stays s.world
work_on-Goes (returned false signal q task) peers s = stays s.world
work_on-Goes (returned true signal q task) peers s =
    serve_task-Goes (serve_tcp_connection (peers task.conn_fd) s.world)
      (signal_acceptor signal (record s { queue = q }))
      (serve_tcp_connection-Reaches (peers task.conn_fd) s.world)

step-Goes : (e : Event) (s : ServerState) → Goes s.world (step e s)
unfolding step work
step-Goes (datagram d) s = receive_datagram-Goes d s
step-Goes (connection os a) s =
    same_world s.world (accept_connection os a s).world (accept_connection-world os a s)
step-Goes (wakes os) s = same_world s.world (wake_acceptor os s).world (wake_acceptor-world os s)
step-Goes (works os old peers) s = work_on-Goes (dequeue os s.queue old) peers s
step-Goes (passes now refuses) s = one s.world _ (Step.passes now refuses s.world)

-- The world of a server that has not died.
abbrev Ends : World → Option ServerState → Type 0
Ends w none = Unit
Ends w (some s) = Run w s.world

Ends-trans : (v w : World) (o : Option ServerState) → Run v w → Ends w o → Ends v o
Ends-trans v w none r h = tt
Ends-trans v w (some s) r h = Run-trans v w s.world r h

go_on-Ends :
    (w : World) (o : Option (Bytes × ServerState))
    (rest : ServerState → List Bytes × Option ServerState)
    → Goes w o
    → ((s : ServerState) → Ends s.world (rest s).1)
    → Ends w (go_on o rest).1
unfolding go_on
go_on-Ends w none rest h k = tt
go_on-Ends w (some (text, s)) rest h k = Ends-trans w s.world (rest s).1 h (k s)

serve-Ends : (es : List Event) (s : ServerState) → Ends s.world (serve es s).1
unfolding serve
serve-Ends [] s = stays s.world
serve-Ends (e ∷ es) s =
    go_on-Ends s.world (step e s) (serve es) (step-Goes e s) (λ t. serve-Ends es t)

serve-Preserved :
    (es : List Event) (s s' : ServerState)
    → IsDatabase s.world.fs
    → (serve es s).1 ≡ some s'
    → Preserved s.world s'.world
serve-Preserved es s s' db e =
    Run-Preserved s.world s'.world db (subst (Ends s.world) e (serve-Ends es s))

-- A guard that has been passed.
passed :
    {A : Type 0} (b : Bool) (x : Option A) (a : A)
    → (if b then none else x) ≡ some a
    → (b ≡ false) × (x ≡ some a)
passed true x a e = cc e
passed false x a e = (refl, e)

some-injective : {A : Type 0} (a b : A) → some a ≡ some b → a ≡ b
some-injective a b e = cc e

not-false : (b : Bool) → not b ≡ false → b ≡ true
not-false true e = refl
not-false false e = cc e

pub server-IsDatabase :
    (l : Launching) (tasks : List TcpClient) (w : World) (s : ServerState)
    → (w.fs ≡ []) ⊎ IsDatabase w.fs
    → server l tasks w ≡ some s
    → IsDatabase s.world.fs
unfolding server
server-IsDatabase l tasks w s at_start e =
    let (ready, e1) = passed (not (init_database w).0) _ s e in
    let (_, e2) = passed (not l.signal_ok) _ s e1 in
    let (_, e3) = passed (not l.queue_ok) _ s e2 in
    let (_, e4) = passed (not (all_true l.workers_ok)) _ s e3 in
    let (_, e5) = passed (not l.udp_ok) _ s e4 in
    let (_, e6) = passed (not l.tcp_ok) _ s e5 in
    subst (λ t. IsDatabase t.world.fs) (some-injective _ s e6)
      (init_database-IsDatabase w at_start (not-false (init_database w).0 ready))

-- A server that has started, where ASDIR held nothing or a database, that has then served any
-- datagrams and connections in any order, while time passed and the kernel refused now these and now
-- those calls, and that still runs, has a database: since the start the
-- number of auctions has not decreased, no file or directory of an auction that was open is gone,
-- and its START file and its asset are as they were.
pub server-Preserved :
    (l : Launching) (tasks : List TcpClient) (w : World) (es : List Event) (s s' : ServerState)
    → (w.fs ≡ []) ⊎ IsDatabase w.fs
    → server l tasks w ≡ some s
    → (serve es s).1 ≡ some s'
    → Preserved s.world s'.world
server-Preserved l tasks w es s s' at_start e f =
    serve-Preserved es s s' (server-IsDatabase l tasks w s at_start e) f
