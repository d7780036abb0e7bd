-- ===== src/Lib.antt =====
-- The auction server: users, auctions and bids kept in a directory tree, served over UDP and TCP.
--
-- The program. server/server.c starts a thread for UDP, a thread that accepts TCP connections, and
-- thirty workers that take connections from the queue of server/tasks_queue.c. server/udp.c answers
-- the short commands (login, logout, unregister and the lists) and server/tcp.c the long ones (open,
-- close, bid and the asset). Both keep everything in files, through server/database.c. Requests are
-- checked by utils/validators.c, and bytes moved by utils/utils.c. The client, client/client.c, reads
-- a line, finds its handler in client/command_table.c, and sends a request over UDP (client/udp.c) or
-- over a TCP connection of its own (client/tcp.c); it keeps the user who is logged in.
--
-- The modules.
--   Common      names, tests on numbers, lists, C's signed numbers
--   Libc        strtok, atoi, sscanf and printf as the sources use them, gmtime (Libc/Time)
--   Os          the files below ASDIR with the calls of the system: a path is a constructor, the
--               files an association list, and `refuses` says which calls fail for a reason that is
--               not in the files; every function of the database is explicit about each failure
--   Validators  utils/validators.c
--   Stream      utils/utils.c: a connection is the list of what successive `recv` calls find;
--               Stream/Send has the loops that send, on what successive `send` calls take
--   Database    server/database.c: Users, Auctions (with update_database), Hosting (opening, closing,
--               rolling back), Bids, Lists, Start (init_database); Effects says what a call does where
--               nothing is refused, Invariant what the tree keeps, Account what a user's files stand
--               for, Keeping what each call leaves alone whatever the kernel refuses, Steps the calls
--               of all threads in any order
--   Udp         server/udp.c and server/udp_command_table.c: Session (LIN, LOU, UNR), Listing (LMA,
--               LMB, LST, SRC), Dispatch (the tables and the treatment of a datagram)
--   Tcp         server/tcp.c and server/tcp_command_table.c: Open, Close, ShowAsset, Bid, Dispatch
--   Queue       server/tasks_queue.c: the ring, and runs of the threads around it
--   Server      server/server.c: the start, a round of each thread's loop, and runs of rounds; Options
--               is server/main.c, Descriptors the accepting loop, Lasting what the database keeps,
--               Progress how the workers empty the queue
--   Client      client/: the state, the error codes and the datagrams (Client), Session (login, logout,
--               unregister, exit), Lists (list, myauctions, mybids), Record (showrecord), Answer
--               (reading what the server answers over TCP), Tcp (open, close, bid), Asset (showasset),
--               Start (client/main.c), Commands (the tables, handle_cmd, the loop of client/client.c);
--               everything outside the process is a record Network of functions on a state, which the
--               handlers take as a parameter
--   Exchange    the client on a network that the server of this development answers: Session, Lists,
--               Words, Bid, Open, Close, Asset
--   Tests       small runs, and the theorems on concrete data
--
-- A handler is a function from its input and the world to its answer and the world that it leaves. A
-- function that returns 0 or an error is an action of Database/Monad. A NULL that a string function
-- would read, and a write behind a buffer, are results of their own. Loops are recursion on the list
-- that they walk over; only the digits of a number n are printed on fuel, n + 1, which is more than it
-- has digits, and the client's loop over the bids of a record on one round more than the text has
-- bytes, which is proved to be enough. Bytes are numbers; an `int` made from a `long` is wrapped
-- to 32 bits; values that a validator has bounded are natural numbers.
--
-- The threads. A function of server/database.c holds the mutex from its first line to its last, so the
-- calls of all threads are one sequence (Database/Steps), however the handlers interleave; Udp/Steps
-- and Tcp/Steps show that a handler changes the files by such calls only. In Server a request is served
-- whole before the next.
--
-- Not modelled: the making of the sockets, a setsockopt that fails on a served connection, logging,
-- what a download that fails leaves in the client's file, and the overflow of date_time_str in
-- is_valid_date_time on the server, which reads there only lines that it has written itself; the
-- client's is a result (Client/Record). A `write` to the client's file that fails is found once the
-- asset has arrived. A start time that wraps to a negative `int` is taken for 0 in the end that
-- update_database prints, and a thread that waits is not woken without a signal. The loops that send
-- are in Stream/Send; in a handler a message is sent whole. In Exchange a message arrives whole, and
-- one request is served at a time.
pub mod Common
pub mod Libc
pub mod Os
pub mod Validators
pub mod Stream
pub mod Database
pub mod Udp
pub mod Tcp
pub mod Queue
pub mod Server
pub mod Client
pub mod Exchange
pub mod Tests
