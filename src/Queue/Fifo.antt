-- ===== src/Queue/Fifo.antt =====
-- The ring of server/tasks_queue.c is a queue of at most 30 tasks.
use auction_server.Common.{
  ℕ, zero, suc, ◌+◌, ◌-◌, ◌%◌, ◌≡◌, ◌≤◌, ◌<◌, refl, ap, ◌∙◌, Bool, true, false, ◌==◌, List, [], ◌∷◌,
  ◌++◌, arith, set, get_or, length, length-set, get_or-set_self, get_or-set_ne, ◌⊎◌,
}
use mathlib.Core.Path.{ap₂}
use auction_server.Queue.{
  TcpClient, TasksQueue, Pthread, Outcome, silent, signalled, waiting, returned, enqueue, dequeue,
  no_client, pushed, popped,
}

-- The array is whole, and the tail stands `size` slots behind the head.
pub record IsQueue (q : TasksQueue) : Type 0 where
  pub room : length q.tasks ≡ 60
  pub bound : q.size ≤ 30
  pub in_ring : q.tail < 30
  pub ahead : q.head ≡ (q.tail + q.size) % 30

-- the `n` slots from `t` on, around the ring
unfoldable pub slots : List TcpClient → ℕ → ℕ → List TcpClient
slots xs t zero = []
slots xs t (suc n) = get_or xs t no_client ∷ slots xs ((t + 1) % 30) n

-- The tasks that wait, the oldest first.
unfoldable pub contents : TasksQueue → List TcpClient
contents q = slots q.tasks q.tail q.size

-- A slot outside of the `n` from `t` on can be written.
slots-set :
    (xs : List TcpClient) (v : TcpClient) (t n k h : ℕ)
    → t < 30
    → n ≤ k
    → k < 30
    → h ≡ (t + k) % 30
    → slots (set xs h v) t n ≡ slots xs t n
unfolding slots
slots-set xs v t zero k h a b c e = refl
slots-set xs v t (suc n) k h a b c e = ap₂ ◌∷◌ (get_or-set_ne xs v no_client (λ e'. omega arith)) (
    slots-set xs v ((t + 1) % 30) n (k - 1) h (omega arith) (omega arith) (omega arith)
      (omega arith))

-- The slot behind the last is the next task's.
slots-set_end :
    (xs : List TcpClient) (v : TcpClient) (t n h : ℕ)
    → length xs ≡ 60
    → t < 30
    → n < 30
    → h ≡ (t + n) % 30
    → slots (set xs h v) t (suc n) ≡ slots xs t n ++ v ∷ []
unfolding slots
slots-set_end xs v t zero h r a b e =
    ap (λ x. x ∷ [])
      (ap (λ u. get_or (set xs h v) u no_client) t-is
        ∙ get_or-set_self xs h v no_client (omega arith))
  where
    t-is : t ≡ h
    t-is = omega arith
slots-set_end xs v t (suc n) h r a b e =
    ap₂ ◌∷◌ (get_or-set_ne xs v no_client (λ e'. omega arith))
      (slots-set_end xs v ((t + 1) % 30) n h r (omega arith) (omega arith) (omega arith))

-- `q'` is `q` with the task behind all others.
pub record Enqueued (q : TasksQueue) (task : TcpClient) (q' : TasksQueue) : Type 0 where
  pub valid : IsQueue q'
  pub last : contents q' ≡ contents q ++ task ∷ []

-- `q'` is `q` without its oldest task.
pub record Dequeued (q : TasksQueue) (q' : TasksQueue) (task : TcpClient) : Type 0 where
  pub valid : IsQueue q'
  pub first : contents q ≡ task ∷ contents q'

-- Which calls of pthread leave a call without a task put or taken: the lock fails, or the wait of a
-- call that has to sleep.
abbrev Blocked : Pthread → Bool → Type 0
Blocked os sleeps = (os.mutex_lock ≡ false) ⊎ ((sleeps ≡ true) × (os.cond_wait ≡ false))

-- Which calls of pthread make a call return -1 behind its work.
abbrev Unfinished : Pthread → Type 0
Unfinished os = (os.mutex_unlock ≡ false) ⊎ (os.cond_signal ≡ false)

-- A call sleeps where it gets the mutex and the queue is full. It returns 0, and has signalled, where
-- every call of pthread that it makes succeeds, with the task behind all others. It returns -1,
-- without a signal, with nothing changed where the lock fails, or the wait at a full queue; and with
-- the task there all the same where the mutex is not released or nobody can be signalled.
abbrev pub EnqueueSpec : Pthread → TasksQueue → TcpClient → Outcome Unit → Type 0
EnqueueSpec os q task waiting =
    (os.mutex_lock ≡ true) × (os.cond_wait ≡ true) × (length (contents q) ≡ 30)
EnqueueSpec os q task (returned true s q' r) =
    (os.mutex_lock ≡ true)
    × (os.mutex_unlock ≡ true)
    × (os.cond_signal ≡ true)
    × (s ≡ signalled)
    × (length (contents q) < 30)
    × Enqueued q task q'
EnqueueSpec os q task (returned false s q' r) =
    (s ≡ silent)
    × (((q' ≡ q) × Blocked os (length (contents q) == 30))
        ⊎ ((os.mutex_lock ≡ true)
            × Unfinished os
            × (length (contents q) < 30)
            × Enqueued q task q'))

-- The same for a call that takes a task, at an empty queue: the caller's variable is written only
-- with a task that has been taken.
abbrev pub DequeueSpec : Pthread → TasksQueue → TcpClient → Outcome TcpClient → Type 0
DequeueSpec os q old waiting = (os.mutex_lock ≡ true) × (os.cond_wait ≡ true) × (contents q ≡ [])
DequeueSpec os q old (returned true s q' task) =
    (os.mutex_lock ≡ true)
    × (os.mutex_unlock ≡ true)
    × (os.cond_signal ≡ true)
    × (s ≡ signalled)
    × Dequeued q q' task
DequeueSpec os q old (returned false s q' task) =
    (s ≡ silent)
    × (((q' ≡ q) × (task ≡ old) × Blocked os (length (contents q) == 0))
        ⊎ ((os.mutex_lock ≡ true) × Unfinished os × Dequeued q q' task))

pub length-slots : (xs : List TcpClient) (t n : ℕ) → length (slots xs t n) ≡ n
unfolding slots
length-slots xs t zero = refl
length-slots xs t (suc n) = ap suc (length-slots xs ((t + 1) % 30) n)

pushed-Enqueued :
    (q : TasksQueue) (task : TcpClient) → IsQueue q → q.size < 30 → Enqueued q task (pushed task q)
unfolding pushed contents
pushed-Enqueued q task v room = record {
  valid = record {
    room = length-set q.tasks q.head task ∙ v.room;
    bound = omega (arith, room);
    in_ring = v.in_ring;
    ahead = omega (arith, v.ahead, v.in_ring, room);
  };
  last =
      ap (slots (set q.tasks q.head task) q.tail) one_more
      ∙ slots-set_end q.tasks task q.tail q.size q.head v.room v.in_ring room v.ahead
      ∙ ap (λ xs. xs ++ task ∷ []) refl;
}
  where
    one_more : q.size + 1 ≡ suc q.size
    one_more = omega arith

slots-first :
    (xs : List TcpClient) (t n : ℕ)
    → 0 < n
    → slots xs t n ≡ get_or xs t no_client ∷ slots xs ((t + 1) % 30) (n - 1)
unfolding slots
slots-first xs t zero p = absurd (omega arith)
slots-first xs t (suc n) p = ap (λ m. get_or xs t no_client ∷ slots xs ((t + 1) % 30) m) same
  where
    same : n ≡ suc n - 1
    same = omega arith

popped-Dequeued :
    (q : TasksQueue)
    → IsQueue q
    → 0 < q.size
    → Dequeued q (popped q) (get_or q.tasks q.tail no_client)
unfolding popped contents
popped-Dequeued q v some_task = record {
  valid = record {
    room = v.room;
    bound = omega (arith, v.bound);
    in_ring = omega arith;
    ahead = omega (arith, v.ahead, v.in_ring, v.bound, some_task);
  };
  first = slots-first q.tasks q.tail q.size some_task;
}

pub enqueue-EnqueueSpec :
    (q : TasksQueue) (task : TcpClient) (os : Pthread)
    → IsQueue q
    → EnqueueSpec os q task (enqueue os q task)
unfolding enqueue contents
enqueue-EnqueueSpec q task os v =
    ground (arith, pushed-Enqueued q task v, v.bound, length-slots q.tasks q.tail q.size)

pub dequeue-DequeueSpec :
    (q : TasksQueue) (old : TcpClient) (os : Pthread)
    → IsQueue q
    → DequeueSpec os q old (dequeue os q old)
unfolding dequeue contents slots
dequeue-DequeueSpec q old os v =
    ground (arith, popped-Dequeued q v, v.bound, length-slots q.tasks q.tail q.size)
