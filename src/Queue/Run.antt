-- ===== src/Queue/Run.antt =====
-- The accepting thread and the workers around the queue of server/tasks_queue.c. A call holds the
-- mutex but while it sleeps, so the calls that return are a sequence of steps.
use auction_server.Common.{◌≡◌, refl, true, List, [], ◌∷◌, ◌++◌, arith, length}
use auction_server.Queue.{
  TcpClient, TasksQueue, Pthread, signalled, returned, init_queue, enqueue, dequeue,
}
use auction_server.Queue.Fifo.{
  IsQueue, contents, slots, EnqueueSpec, DequeueSpec, enqueue-EnqueueSpec, dequeue-DequeueSpec,
}
use mathlib.Core.List.{append_assoc}
use mathlib.Core.Path.{subst}

-- Every call of pthread succeeds.
abbrev pub all_well : Pthread
all_well = record { mutex_lock = true; cond_wait = true; mutex_unlock = true; cond_signal = true }

-- A queue that is reached from a new one by calls that return 0, with the tasks that were put and those that were taken, in
-- the order of the calls.
pub data Run : TasksQueue → List TcpClient → List TcpClient → Type 0 where
  start : (tasks : List TcpClient) → length tasks ≡ 60 → Run (init_queue tasks) [] []
  put :
      (q q' : TasksQueue) (task : TcpClient) (given taken : List TcpClient)
      → Run q given taken
      → enqueue all_well q task ≡ returned true signalled q' tt
      → Run q' (given ++ task ∷ []) taken
  take :
      (q q' : TasksQueue) (old task : TcpClient) (given taken : List TcpClient)
      → Run q given taken
      → dequeue all_well q old ≡ returned true signalled q' task
      → Run q' given (taken ++ task ∷ [])

pub record Served (q : TasksQueue) (given taken : List TcpClient) : Type 0 where
  pub valid : IsQueue q
  pub order : given ≡ taken ++ contents q

-- In a run in which every call of pthread succeeds, and every `enqueue` and `dequeue` returns 0, no
-- connection is lost and none overtakes another: the tasks taken, followed by those that wait, are the
-- tasks put, in the order in which they were put.
pub Run-Served :
    (q : TasksQueue) (given taken : List TcpClient) → Run q given taken → Served q given taken
unfolding init_queue contents slots
Run-Served q given taken (start tasks room) = record {
  valid = record { room = room; bound = omega arith; in_ring = omega arith; ahead = refl };
  order = refl;
}
Run-Served q given taken (put q0 _ task given0 _ r e) =
    let before = Run-Served q0 given0 taken r in
    let (_, _, _, _, _, k) =
      subst (EnqueueSpec all_well q0 task) e (enqueue-EnqueueSpec q0 task all_well before.valid) in
    record {
      valid = k.valid;
      order = cc (before.order, k.last, append_assoc taken (contents q0) (task ∷ []));
    }
Run-Served q given taken (take q0 _ old task _ taken0 r e) =
    let before = Run-Served q0 given taken0 r in
    let (_, _, _, _, k) =
      subst (DequeueSpec all_well q0 old) e (dequeue-DequeueSpec q0 old all_well before.valid) in
    record {
      valid = k.valid;
      order = cc (before.order, k.first, append_assoc taken0 (task ∷ []) (contents q));
    }
