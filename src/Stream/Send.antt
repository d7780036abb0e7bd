-- ===== src/Stream/Send.antt =====
-- `send_tcp_message` and `as_send_asset_file` of utils/utils.c, on what successive `send` and `read`
-- calls do.
pub mod Partial
pub mod Transfer
use auction_server.Common.{
  ℕ, suc, ◌+◌, ◌-◌, ◌*◌, List, [], ◌∷◌, ◌++◌, ltb, leb, ◌==◌, if◌then◌else◌, Bytes, length, take,
  drop,
}

-- A `send` call takes at least one byte, at most what it is offered, or fails: `takes k` takes
-- `k + 1` bytes. A loop that needs a call where the list has ended stops as if that call failed.
pub data Accepts : Type 0 where
  takes : ℕ → Accepts
  fails : Accepts

-- A `read` call finds bytes of the file, at least one, or fails. The end of the list is the end of
-- the file.
pub data Piece : Type 0 where
  piece : ℕ → Bytes → Piece
  unreadable : Piece

abbrev err_tcp_write : ℕ
err_tcp_write = 1

abbrev err_read_af : ℕ
err_read_af = 2

abbrev err_bad_fsize : ℕ
err_bad_fsize = 3

-- The error code of a loop, the bytes that it has sent, and the `send` calls that are left.
pub record Sending : Type 0 where
  pub err : ℕ
  pub bytes : Bytes
  pub left : List Accepts

abbrev pub after : Bytes → Sending → Sending
after s r = record r { bytes = s ++ r.bytes }

-- The `do` loop of `as_send_asset_file` over the bytes of one piece.
unfoldable pub send_piece : Bytes → List Accepts → Sending
send_piece s [] = record { err = err_tcp_write; bytes = []; left = [] }
send_piece s (fails ∷ calls) = record { err = err_tcp_write; bytes = []; left = calls }
send_piece s (takes k ∷ calls) =
    let next = send_piece (drop (suc k) s) calls in
    if leb (length s) (suc k)
    then record { err = 0; bytes = s; left = calls }
    else after (take (suc k) s) next

-- What `send_tcp_message` does: all is sent, a `send` fails, or bytes behind the message are read.
pub data Message : Type 0 where
  delivered : Bytes → Message
  stopped : Bytes → Message
  overread : Message

abbrev prepend : Bytes → Message → Message
prepend s (delivered t) = delivered (s ++ t)
prepend s (stopped t) = stopped (s ++ t)
prepend s overread = overread

abbrev smaller : ℕ → ℕ → ℕ
smaller a b = if ltb a b then a else b

-- `ptr` has moved by `total_sent`, and the call adds `total_sent` to it once more.
unfoldable pub send_loop : Bytes → ℕ → List Accepts → Message
send_loop message total [] = stopped []
send_loop message total (fails ∷ calls) = stopped []
send_loop message total (takes k ∷ calls) =
    let written = smaller (length message - total) (suc k) in
    let chunk = take written (drop (2 * total) message) in
    let next = send_loop message (total + written) calls in
    if ltb (length message) (2 * total + written)
    then overread
    else if leb (length message) (total + written)
    then delivered chunk
    else prepend chunk next

unfoldable pub send_tcp_message : Bytes → List Accepts → Message
unfolding send_loop
send_tcp_message message calls =
    if length message == 0 then delivered [] else send_loop message 0 calls

-- How `as_send_asset_file` ends behind its newline; one byte is never overread.
unfoldable pub ended : Message → Sending
ended (delivered s) = record { err = 0; bytes = s; left = [] }
ended (stopped s) = record { err = err_tcp_write; bytes = s; left = [] }
ended overread = record { err = err_tcp_write; bytes = []; left = [] }

unfoldable pub next_piece : Sending → Sending → Sending
next_piece r next = if r.err == 0 then after r.bytes next else r

-- The outer loop, with `total_read`, and the newline behind it.
unfoldable pub send_pieces : ℕ → ℕ → List Piece → List Accepts → Sending
unfolding send_piece send_tcp_message ended next_piece
send_pieces fsize total [] calls =
    if leb fsize total
    then ended (send_tcp_message (b'\n' ∷ []) calls)
    else record { err = err_bad_fsize; bytes = []; left = calls }
send_pieces fsize total (unreadable ∷ pieces) calls =
    if leb fsize total
    then ended (send_tcp_message (b'\n' ∷ []) calls)
    else record { err = err_read_af; bytes = []; left = calls }
send_pieces fsize total (piece c s ∷ pieces) calls =
    let r = send_piece (c ∷ s) calls in
    let next = send_pieces fsize (total + length (c ∷ s)) pieces r.left in
    if leb fsize total then ended (send_tcp_message (b'\n' ∷ []) calls) else next_piece r next

unfoldable pub as_send_asset_file : ℕ → List Piece → List Accepts → Sending
unfolding send_pieces
as_send_asset_file fsize pieces calls = send_pieces fsize 0 pieces calls
