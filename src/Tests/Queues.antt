-- ===== src/Tests/Queues.antt =====
-- The queue of connections, with a task put and taken.
use auction_server.Common.{ℕ, zero, suc, ◌≡◌, refl, true, List, [], ◌∷◌, codes}
use auction_server.Queue.{
  TcpClient, TasksQueue, signalled, returned, init_queue, enqueue, no_client, pushed,
}
use auction_server.Queue.Run.{Run, Served, Run-Served, all_well}

abbrev pub blanks : ℕ → List TcpClient
blanks zero = []
blanks (suc n) = no_client ∷ blanks n

abbrev new : TasksQueue
new = record { tasks = blanks 60; size = 0; head = 0; tail = 0 }

abbrev client : TcpClient
client = record { ipv4 = codes "127.0.0.1"; port = 58078; conn_fd = 4 }

-- One task waits in the second slot.
abbrev one_waits : TasksQueue
one_waits = record { tasks = no_client ∷ client ∷ blanks 58; size = 1; head = 2; tail = 1 }

abbrev with_client : TasksQueue
with_client = record { tasks = client ∷ blanks 59; size = 1; head = 1; tail = 0 }

Run-Served_example : Served with_client (client ∷ []) []
Run-Served_example =
    Run-Served with_client (client ∷ []) [] (
      Run.put (init_queue (blanks 60)) with_client client [] [] (Run.start (blanks 60) refl) put_it)
  where
    put_it :
        enqueue all_well (init_queue (blanks 60)) client ≡ returned true signalled with_client tt
    put_it = unfold enqueue init_queue pushed in refl
