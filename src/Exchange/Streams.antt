-- ===== src/Exchange/Streams.antt =====
-- The parts of a message that arrives whole.
use auction_server.Common.{
  ℕ, zero, suc, ◌+◌, ◌-◌, ◌≤◌, ◌<◌, ◌≡◌, refl, ap, ◌∙◌, Bool, [], ◌∷◌, ◌++◌, arith, Bytes, length,
  length-append, take, drop, get_or, sym, append_assoc, append-nil, ◌≢◌, ◌⊎◌, inl,
}
use auction_server.Libc.Strtok.{Lacks}
use auction_server.Stream.{Conn, unread, read_tcp_stream, filled}
use auction_server.Stream.Chunks.{read_tcp_stream_whole}
use auction_server.Tcp.Reading.{zero_buff, feed}
use auction_server.Udp.Dispatch.{c_string}
use auction_server.Client.{Errno}
use auction_server.Client.Answer.{text, read_text, got_of}

take-append : (a b : Bytes) → take (length a) (a ++ b) ≡ a
take-append [] b = refl
take-append (c ∷ a) b = ap (◌∷◌ c) (take-append a b)

drop-append : (a b : Bytes) → drop (length a) (a ++ b) ≡ b
drop-append [] b = refl
drop-append (c ∷ a) b = drop-append a b

length-zero_buff : (n : ℕ) → length (zero_buff n) ≡ n
unfolding zero_buff
length-zero_buff zero = refl
length-zero_buff (suc n) = ap suc (length-zero_buff n)

drop-zero_buff : (n m : ℕ) → drop n (zero_buff m) ≡ zero_buff (m - n)
unfolding zero_buff
drop-zero_buff zero m = grind arith
drop-zero_buff (suc n) zero = grind arith
drop-zero_buff (suc n) (suc m) = grind (arith, drop-zero_buff n m)

-- A string read into a zeroed buffer ends there.
pub c_string-zero_buff : (a : Bytes) (n : ℕ) → Lacks 0 a → c_string (a ++ zero_buff n) ≡ a
unfolding c_string zero_buff
c_string-zero_buff [] zero h = refl
c_string-zero_buff [] (suc n) h = refl
c_string-zero_buff (c ∷ a) n h = ground (arith, c_string-zero_buff a n h.1)

-- `read_tcp_stream` takes the front of what has arrived.
pub read_tcp_stream-front :
    (size c : ℕ) (a b : Bytes) (conn : Conn)
    → length (c ∷ a) ≤ size
    → read_tcp_stream (zero_buff size) (length (c ∷ a)) (unread (c ∷ a ++ b) conn)
      ≡ (filled (c ∷ a ++ zero_buff (size - length (c ∷ a))), unread b conn)
unfolding unread
read_tcp_stream-front size c a b conn h =
    read_tcp_stream_whole (zero_buff size) (length (c ∷ a)) c (a ++ b) conn (omega arith)
      (omega (arith, length-append a b)) (omega (arith, h, length-zero_buff size))
    ∙ rw (take-append a b, drop-append a b, drop-zero_buff (suc (length a)) size) refl

-- The same, as the client reads.
pub read_text-front :
    (size c : ℕ) (a b : Bytes) (conn : Conn) (tells : Bool) (e : Errno)
    → length (c ∷ a) ≤ size
    → Lacks 0 (c ∷ a)
    → read_text size (length (c ∷ a)) tells e (unread (c ∷ a ++ b) conn)
      ≡ text (c ∷ a) (unread b conn)
unfolding read_text
read_text-front size c a b conn tells e h clean =
    ap (got_of tells e) (read_tcp_stream-front size c a b conn h)
    ∙ ap (λ s. text s (unread b conn)) (c_string-zero_buff (c ∷ a) (size - length (c ∷ a)) clean)

-- `read_tcp_stream` takes the first `n` bytes of what has arrived.
pub read_tcp_stream-prefix :
    (size n : ℕ) (a b : Bytes) (conn : Conn)
    → length a ≡ n
    → 0 < n
    → n ≤ size
    → read_tcp_stream (zero_buff size) n (unread (a ++ b) conn)
      ≡ (filled (a ++ zero_buff (size - n)), unread b conn)
read_tcp_stream-prefix size n [] b conn e p l = absurd (omega (arith, e, p))
read_tcp_stream-prefix size n (c ∷ a) b conn e p l =
    rw (← e) (read_tcp_stream-front size c a b conn (omega (arith, e, l)))

-- A byte behind a front of the text.
pub get_or-skip :
    (xs ys : Bytes) (k n d : ℕ) → k ≡ length xs + n → get_or (xs ++ ys) k d ≡ get_or ys n d
get_or-skip [] ys k n d e = ap (λ i. get_or ys i d) (omega (arith, e))
get_or-skip (x ∷ xs) ys zero n d e = absurd (omega (arith, e))
get_or-skip (x ∷ xs) ys (suc k) n d e = get_or-skip xs ys k n d (omega (arith, e))

-- A loop that takes an argument byte by byte, up to its space: `state arg` is its state behind the
-- bytes `arg`.
pub feed-word :
    {S R : Type 0} (step : S → ℕ → S ⊎ R) (state : Bytes → S) (limit : ℕ)
    → ((arg : Bytes) (c : ℕ)
        → c ≢ b' '
        → length arg ≤ limit
        → step (state arg) c ≡ inl (state (arg ++ c ∷ [])))
    → (arg r current : Bytes) → Lacks b' ' arg
    → length current + length arg ≤ limit
    → feed step (state current) (arg ++ b' ' ∷ r) ≡ feed step (state (current ++ arg)) (b' ' ∷ r)
unfolding feed
feed-word step state limit next [] r current h l =
    ap (λ c. feed step (state c) (b' ' ∷ r)) (sym (append-nil current))
feed-word step state limit next (c ∷ arg) r current h l =
    rw (feed, next current c h.0 (omega (arith, l)))
      (feed-word step state limit next arg r (current ++ c ∷ []) h.1
          (omega (arith, l, length-append current (c ∷ [])))
        ∙ ap (λ t. feed step (state t) (b' ' ∷ r)) (append_assoc current (c ∷ []) arg))
