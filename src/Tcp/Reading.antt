-- ===== src/Tcp/Reading.antt =====
-- What the TCP handlers share: a result, a zeroed buffer, and reading byte by byte.
pub mod Invariant
use auction_server.Common.{ℕ, zero, suc, [], ◌∷◌, Bytes, ◌⊎◌, inl, inr}
use auction_server.Stream.{got, broken, Conn, unread}
use auction_server.Os.{World}

-- A handler returns its code, having given `sent` to `send_tcp_message`, whose failures are only
-- logged. `crash` is a NULL that a string function reads, or a write behind a buffer.
pub data TcpResult : Type 0 where
  ended : ℕ → Bytes → Conn → World → TcpResult
  crash : TcpResult

-- `char buff[n] = {0}`
unfoldable pub zero_buff : ℕ → Bytes
zero_buff zero = []
zero_buff (suc n) = 0 ∷ zero_buff n

-- A loop that takes bytes one by one and stops in the middle of an arrival, with what is left of it.
pub data Feed (S R : Type 0) : Type 0 where
  more : S → Feed S R
  stop : R → Bytes → Feed S R

-- How such a loop ends: by itself, at a closed connection, or at a failed `recv`.
pub data End (R : Type 0) : Type 0 where
  result : R → End R
  at_close : End R
  at_failure : End R

module _ {S R : Type 0} where
  unfoldable pub feed : (S → ℕ → S ⊎ R) → S → Bytes → Feed S R
  feed step st [] = more st
  feed step st (c ∷ s) = elim (step st c) [ inl st' ↦ feed step st' s | inr r ↦ stop r s ]

  unfoldable pub recv_bytes : (S → ℕ → S ⊎ R) → S → Conn → End R × Conn
  unfolding feed unread
  recv_bytes step st [] = (at_close, [])
  recv_bytes step st (broken ∷ conn) = (at_failure, conn)
  recv_bytes step st (got c s ∷ conn) = elim (feed step st (c ∷ s)) [
    | more st' ↦ recv_bytes step st' conn
    | stop r rest ↦ (result r, unread rest conn)
  ]
