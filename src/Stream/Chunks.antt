-- ===== src/Stream/Chunks.antt =====
-- `read_tcp_stream` on a message that arrives whole, and on one that does not.
use auction_server.Common.{
  ℕ, zero, suc, ◌+◌, ◌-◌, ◌≡◌, ◌≤◌, ◌<◌, refl, ap, arith, Bytes, ◌++◌, [], ◌∷◌, length,
  length-append, take, drop, take_of_le,
}
use auction_server.Stream.{Conn, got, read_tcp_stream, read_loop, filled, overrun, unread, store}

length-take : (n : ℕ) (s : Bytes) → n ≤ length s → length (take n s) ≡ n
length-take zero s h = refl
length-take (suc n) [] h = absurd (omega arith)
length-take (suc n) (c ∷ s) h = ap suc (length-take n s (omega arith))

-- If the first arrival holds all `n` bytes, they are read, in order, to the start of the buffer, and
-- what follows them waits for the next call.
pub read_tcp_stream_whole :
    (buff : Bytes) (n c : ℕ) (s : Bytes) (conn : Conn)
    → 0 < n
    → n ≤ length (c ∷ s)
    → n ≤ length buff
    → read_tcp_stream buff n (got c s ∷ conn)
      ≡ (filled (take n (c ∷ s) ++ drop n buff), unread (drop n (c ∷ s)) conn)
unfolding read_tcp_stream read_loop store
read_tcp_stream_whole buff n c s conn p h k = ground (arith, length-take n (c ∷ s) h)

length-drop : (n : ℕ) (s : Bytes) → length (drop n s) ≡ length s - n
length-drop zero s = omega arith
length-drop (suc n) [] = omega arith
length-drop (suc n) (c ∷ s) = omega (arith, length-drop n s)

-- Where a message of `n` bytes arrives in two pieces, and the buffer has room for the message but not
-- for the message and its first piece together, `read_tcp_stream` writes behind the buffer's end.
pub read_tcp_stream_split :
    (buff : Bytes) (n c d : ℕ) (s t : Bytes) (conn : Conn)
    → length (c ∷ s) < n
    → n ≤ length (c ∷ s) + length (d ∷ t)
    → n ≤ length buff
    → length buff < n + length (c ∷ s)
    → read_tcp_stream buff n (got c s ∷ got d t ∷ conn) ≡ (overrun, conn)
unfolding read_tcp_stream read_loop store
read_tcp_stream_split buff n c d s t conn h k l m = ground (
  arith,
  take_of_le (n - 0) (c ∷ s),
  length-take (n - length (c ∷ s)) (d ∷ t),
  length-append (c ∷ s) (drop (length (c ∷ s)) buff),
  length-drop (length (c ∷ s)) buff,
)
