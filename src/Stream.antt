-- ===== src/Stream.antt =====
-- utils/utils.c: the loops that move bytes between a TCP connection, a buffer and a file. What a
-- peer sends is the list of what successive `recv` calls find.
pub mod Chunks
pub mod Received
pub mod Complete
pub mod Send
use auction_server.Common.{
  ℕ, ◌+◌, ◌-◌, ◌*◌, true, false, not, Option, none, some, List, [], ◌∷◌, ◌++◌, ltb, leb, ◌==◌,
  if◌then◌else◌, Bytes, length, take, drop,
}

-- One arrival: bytes, at least one, or a failure (a time-out among them). The end of the list is a
-- connection that the peer has closed.
pub data Event : Type 0 where
  got : ℕ → Bytes → Event
  broken : Event

abbrev pub Conn : Type 0
Conn = List Event

-- What is left of an arrival for the next `recv`.
unfoldable pub unread : Bytes → Conn → Conn
unread [] conn = conn
unread (c ∷ s) conn = got c s ∷ conn

abbrev pub err_tcp_read : ℕ
err_tcp_read = 1

abbrev pub err_tcp_read_closed : ℕ
err_tcp_read_closed = 2

-- A buffer, as far as it reaches.
unfoldable pub store : Bytes → ℕ → Bytes → Option Bytes
store buff at s =
    if leb (at + length s) (length buff)
    then some (take at buff ++ s ++ drop (at + length s) buff)
    else none

-- The buffer after a read that returned 0; an error code; or a write behind the buffer's end.
pub data ReadResult : Type 0 where
  filled : Bytes → ReadResult
  read_error : ℕ → ReadResult
  overrun : ReadResult

stored : Option Bytes → ReadResult
stored none = overrun
stored (some buff) = filled buff

-- The loop of `read_tcp_stream` where `total < n`. `ptr` has moved by `total`, and the call adds
-- `total_read` to it once more, so the bytes go to `2 * total`.
read_loop : ℕ → Bytes → ℕ → Conn → ReadResult × Conn
unfolding stored store unread
read_loop n buff total [] = (read_error err_tcp_read_closed, [])
read_loop n buff total (broken ∷ conn) = (read_error err_tcp_read, conn)
read_loop n buff total (got c s ∷ conn) =
    let chunk = take (n - total) (c ∷ s) in
    elim (store buff (2 * total) chunk) [
      | none ↦ (overrun, conn)
      | some buff' ↦ elim (leb n (total + length chunk)) [
        | true ↦ (filled buff', unread (drop (n - total) (c ∷ s)) conn)
        | false ↦ read_loop n buff' (total + length chunk) conn
      ]
    ]

unfoldable pub read_tcp_stream : Bytes → ℕ → Conn → ReadResult × Conn
unfolding read_loop
read_tcp_stream buff n conn = if n == 0 then (filled buff, conn) else read_loop n buff 0 conn

-- What `as_recv_asset_file` leaves in the asset file when it returns 0.
pub data Asset : Type 0 where
  asset : Bytes → Asset
  asset_error : ℕ → Asset

abbrev pub err_invalid_protocol : ℕ
err_invalid_protocol = 2

unfoldable last_of : Bytes → ℕ → ℕ
last_of [] d = d
last_of (c ∷ s) d = last_of s c

unfoldable but_last : Bytes → Bytes
but_last [] = []
but_last (c ∷ []) = []
but_last (c ∷ d ∷ s) = c ∷ but_last (d ∷ s)

-- The checks behind the loop, on the last arrival.
unfoldable last_block : ℕ → ℕ → Bytes → Bytes → Asset
unfolding last_of but_last
last_block fsize total acc chunk =
    if ltb (fsize + 1) total
    then asset_error err_invalid_protocol
    else if not (last_of chunk 0 == b'\n')
    then asset_error err_invalid_protocol
    else asset (acc ++ but_last chunk)

-- An arrival holds at most 64 KiB, the size of the buffer, and `write` writes all of it.
unfoldable recv_asset : ℕ → ℕ → Bytes → Conn → Asset × Conn
unfolding last_block
recv_asset fsize total acc [] = (asset_error err_tcp_read_closed, [])
recv_asset fsize total acc (broken ∷ conn) = (asset_error err_tcp_read, conn)
recv_asset fsize total acc (got c s ∷ conn) =
    let total' = total + length (c ∷ s) in
    elim (ltb fsize total') [
      | true ↦ (last_block fsize total' acc (c ∷ s), conn)
      | false ↦ recv_asset fsize total' (acc ++ c ∷ s) conn
    ]

unfoldable pub as_recv_asset_file : ℕ → Conn → Asset × Conn
unfolding recv_asset
as_recv_asset_file fsize conn = recv_asset fsize 0 [] conn
