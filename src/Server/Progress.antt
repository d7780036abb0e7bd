-- ===== src/Server/Progress.antt =====
-- The workers of server/server.c serve what waits, and the accepting thread gets on.
use auction_server.Common.{
  ℕ, ◌<◌, ◌≤◌, ◌≡◌, ◌≢◌, refl, ap, sym, ◌∙◌, true, false, Option, none, some, List, [], ◌∷◌, ◌++◌,
  Bytes, arith, if_true, drop, length,
}
use mathlib.Core.Path.{subst}
use auction_server.Stream.{Conn}
use auction_server.Os.{World}
use auction_server.Tcp.Reading.{TcpResult, ended, crash}
use auction_server.Tcp.Dispatch.{serve_tcp_connection}
use auction_server.Queue.{
  TcpClient, TasksQueue, Outcome, Signal, signalled, waiting, returned, dequeue, enqueue,
}
use auction_server.Queue.Fifo.{
  IsQueue, contents, length-slots, DequeueSpec, dequeue-DequeueSpec, EnqueueSpec,
  enqueue-EnqueueSpec,
}
use auction_server.Queue.Run.{all_well}
use auction_server.Server.{
  ServerState, Event, works, serve_task, work_on, work, step, go_on, serve, hand_over, put_client,
  wake_acceptor, signal_acceptor, reaches,
}

-- Tasks served one behind the other: what was sent for each, and the world, if the process still runs.
abbrev pub answered : TcpResult → (World → List Bytes × Option World) → List Bytes × Option World
answered crash rest = ([], none)
answered (ended err text conn w) rest = let (texts, last) = rest w in (text ∷ texts, last)

unfoldable pub answer_all : (ℕ → Conn) → List TcpClient → World → List Bytes × Option World
answer_all peers [] w = ([], some w)
answer_all peers (t ∷ ts) w =
    answered (serve_tcp_connection (peers t.conn_fd) w) (answer_all peers ts)

-- A round of a worker for each task.
abbrev pub rounds : TcpClient → (ℕ → Conn) → List TcpClient → List Event
rounds old peers [] = []
rounds old peers (t ∷ ts) = works all_well old peers ∷ rounds old peers ts

-- What can be seen of a state: the files, and the tasks that wait.
abbrev pub seen : Option ServerState → Option (World × List TcpClient)
seen none = none
seen (some s) = some (s.world, contents s.queue)

abbrev pub with_tasks : List TcpClient → Option World → Option (World × List TcpClient)
with_tasks ts none = none
with_tasks ts (some w) = some (w, ts)

-- `dequeue` and `enqueue` fail only where a call of pthread does.
dequeue-ok :
    (q q' : TasksQueue) (s : Signal) (old t : TcpClient)
    → dequeue all_well q old ≢ returned false s q' t
unfolding dequeue
dequeue-ok q q' s old t e = ground (arith, e)

enqueue-ok :
    (q q' : TasksQueue) (s : Signal) (c : TcpClient) (u : Unit)
    → enqueue all_well q c ≢ returned false s q' u
unfolding enqueue
enqueue-ok q q' s c u e = ground (arith, e)

head-injective : (a b : TcpClient) (xs ys : List TcpClient) → a ∷ xs ≡ b ∷ ys → a ≡ b
head-injective a b xs ys e = cc e

-- While a task waits, `dequeue` takes the first.
dequeue-first :
    (q : TasksQueue) (old t : TcpClient) (ts : List TcpClient)
    → IsQueue q
    → contents q ≡ t ∷ ts
    → (q' : TasksQueue) × (dequeue all_well q old ≡ returned true signalled q' t)
      × IsQueue q'
      × (contents q' ≡ ts)
dequeue-first q old t ts v e =
    at (dequeue all_well q old) refl (dequeue-DequeueSpec q old all_well v)
  where
    at :
        (o : Outcome TcpClient)
        → dequeue all_well q old ≡ o
        → DequeueSpec all_well q old o
        → (q' : TasksQueue) × (dequeue all_well q old ≡ returned true signalled q' t)
          × IsQueue q'
          × (contents q' ≡ ts)
    at waiting h (_, _, k) = absurd (cc (sym e ∙ k))
    at (returned false s q' task) h k = absurd (dequeue-ok q q' s old task h)
    at (returned true s q' task) h (_, _, _, sig, k) =
        let whole : task ∷ contents q' ≡ t ∷ ts = sym k.first ∙ e in
        (
          q',
          h
              ∙ ap (λ x. returned true x q' task) sig
              ∙ ap (returned true signalled q') (head-injective task t (contents q') ts whole),
          k.valid,
          ap (drop 1) whole,
        )

-- The two runs say the same, and the first leaves no task.
abbrev Agree : List Bytes × Option ServerState → List Bytes × Option World → Type 0
Agree r k = (r.0 ≡ k.0) × (seen r.1 ≡ with_tasks [] k.1)

go_on-Agree :
    (r : TcpResult) (v : ServerState) (f : ServerState → List Bytes × Option ServerState)
    (g : World → List Bytes × Option World)
    → ((w : World) → Agree (f (record v { world = w })) (g w))
    → Agree (go_on (serve_task r v) f) (answered r g)
unfolding go_on serve_task
go_on-Agree crash v f g h = (refl, refl)
go_on-Agree (ended err text conn w) v f g h = (ap (◌∷◌ text) (h w).0, (h w).1)

-- Where every call of pthread succeeds, as many rounds of the workers as there are tasks that wait
-- serve those tasks in their order, each on what its peer sends, and leave none, unless a request
-- ends the process.
pub serve-rounds :
    (ts : List TcpClient) (old : TcpClient) (peers : ℕ → Conn) (s : ServerState)
    → IsQueue s.queue
    → contents s.queue ≡ ts
    → ((serve (rounds old peers ts) s).0 ≡ (answer_all peers ts s.world).0)
      × (seen (serve (rounds old peers ts) s).1 ≡ with_tasks [] (answer_all peers ts s.world).1)
unfolding serve answer_all step work work_on signal_acceptor
serve-rounds [] old peers s v e = (refl, ap (λ ts. some (s.world, ts)) e)
serve-rounds (t ∷ ts) old peers s v e =
    let (q, took, valid, left) = dequeue-first s.queue old t ts v e in
    let r = serve_tcp_connection (peers t.conn_fd) s.world in
    let served : work_on (dequeue all_well s.queue old) peers s
        ≡ serve_task r (signal_acceptor signalled (record s { queue = q })) =
      ap (λ o. work_on o peers s) took in
    subst (λ o. Agree (go_on o (serve (rounds old peers ts))) (answered r (answer_all peers ts)))
      (sym served)
      (go_on-Agree r (signal_acceptor signalled (record s { queue = q }))
        (serve (rounds old peers ts)) (answer_all peers ts)
        λ w.
          serve-rounds ts old peers
            (record (signal_acceptor signalled (record s { queue = q })) { world = w }) valid left)

-- A round that a worker's request survives leaves the queue without the task, and the rest as it was.
serve_task-kept :
    (r : TcpResult) (v s' : ServerState) (text : Bytes)
    → serve_task r v ≡ some (text, s')
    → (s'.queue ≡ v.queue) × (s'.held ≡ v.held) × (s'.woken ≡ v.woken)
unfolding serve_task
serve_task-kept crash v s' text e = absurd (cc e)
serve_task-kept (ended err sent conn w) v s' text e =
    let same : record v { world = w } ≡ s' = ap (λ o. state_of o v) e in
    (ap (λ x. x.queue) (sym same), ap (λ x. x.held) (sym same), ap (λ x. x.woken) (sym same))
  where
    state_of : Option (Bytes × ServerState) → ServerState → ServerState
    state_of none d = d
    state_of (some (text, x)) d = x

hand_over-placed :
    (s : ServerState) (c : TcpClient) (ts : List TcpClient)
    → IsQueue s.queue
    → contents s.queue ≡ ts
    → length ts < 30
    → ((hand_over all_well (some c) s).held ≡ none)
      × (contents (hand_over all_well (some c) s).queue ≡ ts ++ c ∷ [])
unfolding hand_over
hand_over-placed s c ts v e room =
    at (enqueue all_well s.queue c) refl (enqueue-EnqueueSpec s.queue c all_well v)
  where
    at :
        (o : Outcome Unit)
        → enqueue all_well s.queue c ≡ o
        → EnqueueSpec all_well s.queue c o
        → ((put_client c o s).held ≡ none) × (contents (put_client c o s).queue ≡ ts ++ c ∷ [])
    at waiting h (_, _, k) = absurd (omega (arith, k, room, ap length e))
    at (returned true sig q u) h (_, _, _, _, _, k) =
        unfold put_client in (refl, k.last ∙ ap (λ xs. xs ++ c ∷ []) e)
    at (returned false sig q u) h k = absurd (enqueue-ok s.queue q sig c u h)

contents_bound : (q : TasksQueue) → IsQueue q → length (contents q) ≤ 30
unfolding contents
contents_bound q v = omega (arith, length-slots q.tasks q.tail q.size, v.bound)

-- Where every call of pthread succeeds, an accepting thread that sleeps with a client in hand, signalled
-- or not, has been signalled after one round of a worker that takes a task and that the process
-- survives, and gets on: its client is then the last that waits.
pub wake_acceptor-placed :
    (old c t : TcpClient) (ts : List TcpClient) (peers : ℕ → Conn) (s s' : ServerState)
    (text : Bytes)
    → IsQueue s.queue
    → s.held ≡ some c
    → contents s.queue ≡ t ∷ ts
    → work all_well old peers s ≡ some (text, s')
    → ((wake_acceptor all_well s').held ≡ none)
      × (contents (wake_acceptor all_well s').queue ≡ ts ++ c ∷ [])
unfolding wake_acceptor work work_on signal_acceptor
wake_acceptor-placed old c t ts peers s s' text v asleep e ran =
    let (q, took, valid, left) = dequeue-first s.queue old t ts v e in
    let r = serve_tcp_connection (peers t.conn_fd) s.world in
    let served : work_on (dequeue all_well s.queue old) peers s
        ≡ serve_task r (signal_acceptor signalled (record s { queue = q })) =
      ap (λ o. work_on o peers s) took in
    let (same, held, woken) =
      serve_task-kept r (signal_acceptor signalled (record s { queue = q })) s' text
        (sym served ∙ ran) in
    let awoken : s'.woken ≡ true = woken ∙ rw asleep (unfold reaches in refl) in
    let full : length (t ∷ ts) ≤ 30 =
      subst (λ n. n ≤ 30) (ap length e) (contents_bound s.queue v) in
    let placed =
      hand_over-placed s' c ts (subst IsQueue (sym same) valid) (ap contents same ∙ left)
        (omega (arith, full)) in
    subst (λ x. (x.held ≡ none) × (contents x.queue ≡ ts ++ c ∷ []))
      (sym (if_true s'.woken (hand_over all_well s'.held s') s' awoken))
      (subst
        (λ o.
          ((hand_over all_well o s').held ≡ none)
          × (contents (hand_over all_well o s').queue ≡ ts ++ c ∷ []))
        (sym (held ∙ asleep)) placed)
