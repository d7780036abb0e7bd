-- ===== src/Server/Descriptors.antt =====
-- The accepting thread of server/server.c keeps a descriptor in a `char`.
use auction_server.Common.{
  ℕ, ◌≡◌, ◌≢◌, ◌<◌, ◌≤◌, ◌⊎◌, ◌%◌, refl, ap, ◌∙◌, sym, true, false, Option, none, some, List, [],
  ◌∷◌, ◌++◌, ltb, arith, length, length-append, drop, ◌↔◌, Bool-cases, inl, inr,
}
use mathlib.Core.Path.{subst}
use auction_server.Os.{World}
use auction_server.Queue.{
  TcpClient, TasksQueue, Pthread, Outcome, signalled, waiting, returned, enqueue, pushed,
}
use auction_server.Queue.Fifo.{IsQueue, contents, EnqueueSpec, enqueue-EnqueueSpec}
use auction_server.Queue.Run.{all_well}
use auction_server.Server.{
  ServerState, Accepted, as_char, tcp_client, put_client, hand_over, accept_connection,
}

-- The connection as a task.
abbrev pub own : Accepted → TcpClient
own a = record { ipv4 = a.ipv4; port = a.port; conn_fd = a.fd }

tcp_client-own : (a : Accepted) → a.fd < 128 → tcp_client (some a) ≡ some (own a)
unfolding tcp_client as_char
tcp_client-own a l =
    let small : ltb (a.fd % 256) 128 ≡ true = ground arith in
    let same : a.fd % 256 ≡ a.fd = omega arith in rw (tcp_client, as_char, small, same) refl

-- The state of a server whose accepting thread is not asleep.
abbrev pub awake : World → TasksQueue → ServerState
awake w q = record { world = w; queue = q; held = none; woken = false }

enqueue-room :
    (q : TasksQueue) (c : TcpClient)
    → q.size < 30
    → enqueue all_well q c ≡ returned true signalled (pushed c q) tt
unfolding enqueue
enqueue-room q c room = ground arith

hand_over-room :
    (w : World) (q : TasksQueue) (c : TcpClient)
    → q.size < 30
    → hand_over all_well (some c) (awake w q) ≡ awake w (pushed c q)
unfolding hand_over put_client
hand_over-room w q c room = ap (λ o. put_client c o (awake w q)) (enqueue-room q c room)

-- The number that `conn_fd` holds is never a descriptor of 128 or more.
tcp_client-foreign : (a : Accepted) (c : TcpClient) → tcp_client (some a) ≡ some c → c.conn_fd < 128
unfolding tcp_client as_char
tcp_client-foreign a c e = elim (Bool-cases (ltb (a.fd % 256) 128)) [
  | inl h ↦
      let small : a.fd % 256 < 128 = ground (arith, h) in
      let known : a.fd % 256 ≡ c.conn_fd =
        ap (λ o. fd_of o (a.fd % 256)) (rw (tcp_client, as_char, h) at e) in
      omega (arith, small, known)
  | inr h ↦ absurd (cc (rw (tcp_client, as_char, h) at e))
]
  where
    fd_of : Option TcpClient → ℕ → ℕ
    fd_of none d = d
    fd_of (some c) d = c.conn_fd

append-same : (xs : List TcpClient) (t : TcpClient) → xs ≢ xs ++ t ∷ []
append-same xs t e = omega (arith, ap length e, length-append xs (t ∷ []))

last-injective : (xs : List TcpClient) (t u : TcpClient) → xs ++ t ∷ [] ≡ xs ++ u ∷ [] → t ≡ u
last-injective [] t u e = cc e
last-injective (x ∷ xs) t u e = last-injective xs t u (ap (drop 1) e)

-- What an `enqueue` put behind the others is the task that it was given.
put_client-last :
    (os : Pthread) (w : World) (q : TasksQueue) (c t : TcpClient) (o : Outcome Unit)
    → EnqueueSpec os q c o
    → contents (put_client c o (awake w q)).queue ≡ contents q ++ t ∷ []
    → c ≡ t
unfolding put_client
put_client-last os w q c t waiting h e = absurd (append-same (contents q) t e)
put_client-last os w q c t (returned true s q' u) (_, _, _, _, _, k) e =
    last-injective (contents q) c t (sym k.last ∙ e)
put_client-last os w q c t (returned false s q' u) (_, inl (same, _)) e =
    absurd (append-same (contents q) t (ap contents (sym same) ∙ e))
put_client-last os w q c t (returned false s q' u) (_, inr (_, _, _, k)) e =
    last-injective (contents q) c t (sym k.last ∙ e)

hand_over-last :
    (os : Pthread) (w : World) (q : TasksQueue) (c : Option TcpClient) (t : TcpClient)
    → IsQueue q
    → contents (hand_over os c (awake w q)).queue ≡ contents q ++ t ∷ []
    → c ≡ some t
unfolding hand_over
hand_over-last os w q none t v e = absurd (append-same (contents q) t e)
hand_over-last os w q (some c) t v e =
    ap some (put_client-last os w q c t (enqueue os q c) (enqueue-EnqueueSpec q c os v) e)

-- What becomes of a connection, by its descriptor modulo 256.
abbrev pub Handed : Accepted → TasksQueue → TasksQueue → Type 0
Handed a q q' =
    ((a.fd % 256 < 128)
      × (contents q' ≡ contents q ++ record (own a) { conn_fd = a.fd % 256 } ∷ []))
    ⊎ ((128 ≤ a.fd % 256) × (contents q' ≡ contents q))

accept_connection-client :
    (a : Accepted) (w : World) (q : TasksQueue) (c : TcpClient)
    → IsQueue q
    → q.size < 30
    → tcp_client (some a) ≡ some c
    → contents (accept_connection all_well (some a) (awake w q)).queue ≡ contents q ++ c ∷ []
unfolding accept_connection
accept_connection-client a w q c v room e =
    let (_, _, _, _, _, k) =
      subst (EnqueueSpec all_well q c) (enqueue-room q c room)
        (enqueue-EnqueueSpec q c all_well v) in
    ap (λ x. contents (hand_over all_well x (awake w q)).queue) e
    ∙ ap (λ t. contents t.queue) (hand_over-room w q c room)
    ∙ k.last

accept_connection-Handed :
    (a : Accepted) (w : World) (q : TasksQueue)
    → IsQueue q
    → q.size < 30
    → Handed a q (accept_connection all_well (some a) (awake w q)).queue
accept_connection-Handed a w q v room = elim (Bool-cases (ltb (a.fd % 256) 128)) [
  | inl h ↦ inl (
    ground (arith, h),
    accept_connection-client a w q _ v room
        (unfold tcp_client as_char in rw (tcp_client, as_char, h) refl),
  )
  | inr h ↦
      let e : tcp_client (some a) ≡ none =
        unfold tcp_client as_char in rw (tcp_client, as_char, h) refl in
      inr (
        ground (arith, h),
        unfold accept_connection hand_over in
            ap (λ x. contents (hand_over all_well x (awake w q)).queue) e,
      )
]

-- While the accepting thread is awake, and if every call of pthread succeeds and the queue has room, a
-- connection goes to the queue's end with its own descriptor if and only if that is below 128; and
-- whatever the descriptor, the connection is put there with the descriptor modulo 256 where that is
-- below 128, and is forgotten, with the queue as it was, where it is not.
pub accept_connection_iff :
    (a : Accepted) (w : World) (q : TasksQueue)
    → IsQueue q
    → q.size < 30
    → ((contents (accept_connection all_well (some a) (awake w q)).queue ≡ contents q ++ own a ∷ [])
        ↔ (a.fd < 128))
      × Handed a q (accept_connection all_well (some a) (awake w q)).queue
unfolding accept_connection
accept_connection_iff a w q v room = (
  (
    λ e.
        tcp_client-foreign a (own a)
          (hand_over-last all_well w q (tcp_client (some a)) (own a) v e),
    λ l. accept_connection-client a w q (own a) v room (tcp_client-own a l),
  ),
  accept_connection-Handed a w q v room,
)
