-- ===== src/Exchange.antt =====
-- The client and the server put together: a network whose datagrams and connections the server of
-- this development answers, one request at a time.
pub mod Session
pub mod Lists
pub mod Streams
pub mod Words
pub mod Bid
pub mod Close
pub mod Open
pub mod Asset
use auction_server.Common.{
  true, Option, none, some, List, [], ◌∷◌, if◌then◌else◌, Bytes, bytes_eq, ◌≡◌, ◌⊎◌,
}
use auction_server.Stream.{unread}
use auction_server.Os.{World}
use auction_server.Udp.Dispatch.{Sent, sent, died, serve_datagram}
use auction_server.Tcp.Dispatch.{serve_tcp_connection}
use auction_server.Tcp.Reading.{TcpResult, ended, crash}
use auction_server.Client.{
  Incoming, failed, datagram, Link, undelivered, answering, Network, would_block, broken_pipe,
  other_errno,
}

-- The server's files, and the client's with the last one first.
pub record Joint : Type 0 where
  pub world : World
  pub files : List (Bytes × Bytes)

abbrev pub find_file : Bytes → List (Bytes × Bytes) → Option Bytes
find_file fname [] = none
find_file fname ((name, content) ∷ files) =
    let rest = find_file fname files in if bytes_eq fname name then some content else rest

-- A server that has died does not answer, and the client's `recvfrom` times out.
abbrev answered : Joint → Sent → Option Incoming × Joint
answered j (sent text w) = (some (datagram other_errno text), record j { world = w })
answered j died = (some (failed would_block), j)

-- All the server sends arrives at once, and then the connection is closed.
abbrev replied : Joint → TcpResult → Link × Joint
replied j (ended err text conn w) = (answering other_errno (unread text []), record j { world = w })
replied j crash = (undelivered broken_pipe, j)

-- The text is one of a list's.
abbrev pub OneOf : Bytes → List Bytes → Type 0
OneOf text [] = ⊥
OneOf text (t ∷ ts) = (text ≡ t) ⊎ OneOf text ts

unfoldable pub server : Network Joint
unfolding serve_datagram serve_tcp_connection unread
server = record {
  ask = λ message j. answered j (serve_datagram message j.world);
  dial = λ message j. replied j (serve_tcp_connection (unread message []) j.world);
  asset_file = λ fname j. find_file fname j.files;
  create = λ fname j. (true, record j { files = (fname, []) ∷ j.files });
  save = λ fname content j. (true, record j { files = (fname, content) ∷ j.files });
}
