-- ===== src/Queue.antt =====
-- server/tasks_queue.c: the queue between the thread that accepts TCP connections and the workers.
pub mod Fifo
pub mod Run
use auction_server.Common.{
  ℕ, ◌+◌, ◌-◌, ◌%◌, Bool, true, false, not, List, [], ◌==◌, if◌then◌else◌, Bytes, set, get_or,
}

-- THREAD_POOL_SZ
abbrev thread_pool_sz : ℕ
thread_pool_sz = 30

-- A connection to be served.
pub record TcpClient : Type 0 where
  pub ipv4 : Bytes
  pub port : ℕ
  pub conn_fd : ℕ

-- `tasks` has room for twice the pool's size.
pub record TasksQueue : Type 0 where
  pub tasks : List TcpClient
  pub size : ℕ
  pub head : ℕ
  pub tail : ℕ

-- Whether each call of pthread succeeds.
pub record Pthread : Type 0 where
  pub mutex_lock : Bool
  pub cond_wait : Bool
  pub mutex_unlock : Bool
  pub cond_signal : Bool

-- Whether a call has signalled the condition variable of the other side: `not_empty` for `enqueue`,
-- `not_full` for `dequeue`.
pub data Signal : Type 0 where
  silent signalled : Signal

-- A call goes to sleep in `pthread_cond_wait`, to run its loop's test again when it is woken, or it
-- returns: whether with 0, its signal, the queue, and what it gives back.
pub data Outcome (R : Type 0) : Type 0 where
  waiting : Outcome R
  returned : Bool → Signal → TasksQueue → R → Outcome R

-- The end of both calls: `pthread_cond_signal`, and its return.
unfoldable signals : {R : Type 0} → Pthread → TasksQueue → R → Outcome R
signals os q r =
    if not os.cond_signal then returned false silent q r else returned true signalled q r

-- The new queue's memory is as `malloc` leaves it.
unfoldable pub init_queue : List TcpClient → TasksQueue
init_queue tasks = record { tasks = tasks; size = 0; head = 0; tail = 0 }

unfoldable pub pushed : TcpClient → TasksQueue → TasksQueue
pushed task q = record q {
  tasks = set q.tasks q.head task;
  head = (q.head + 1) % thread_pool_sz;
  size = q.size + 1;
}

unfoldable pub enqueue : Pthread → TasksQueue → TcpClient → Outcome Unit
unfolding pushed signals
enqueue os q task =
    if not os.mutex_lock
    then returned false silent q tt
    else if q.size == thread_pool_sz
    then if os.cond_wait then waiting else returned false silent q tt
    else if not os.mutex_unlock
    then returned false silent (pushed task q) tt
    else signals os (pushed task q) tt

unfoldable popped : TasksQueue → TasksQueue
popped q = record q { tail = (q.tail + 1) % thread_pool_sz; size = q.size - 1 }

-- What a slot beyond the array would hold: no index reaches it.
abbrev pub no_client : TcpClient
no_client = record { ipv4 = []; port = 0; conn_fd = 0 }

-- The task is what the caller's variable holds, and `task` what it held before.
unfoldable pub dequeue : Pthread → TasksQueue → TcpClient → Outcome TcpClient
unfolding popped signals
dequeue os q task =
    let next = get_or q.tasks q.tail no_client in
    if not os.mutex_lock
    then returned false silent q task
    else if q.size == 0
    then if os.cond_wait then waiting else returned false silent q task
    else if not os.mutex_unlock
    then returned false silent (popped q) next
    else signals os (popped q) next
