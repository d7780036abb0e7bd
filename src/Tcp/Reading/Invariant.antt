-- ===== src/Tcp/Reading/Invariant.antt =====
-- An invariant of a loop that reads byte by byte holds of what it returns.
use auction_server.Common.{ℕ, ◌⊎◌, inl, inr, Bytes, [], ◌∷◌}
use auction_server.Stream.{Conn, got, broken, unread}
use auction_server.Tcp.Reading.{
  Feed, more, stop, feed, End, result, at_close, at_failure, recv_bytes,
}

module _ {S R : Type 0} (P : S → Type 0) (Q : R → Type 0) where
  abbrev pub Next : S ⊎ R → Type 0
  Next (inl st) = P st
  Next (inr r) = Q r

  abbrev FeedOk : Feed S R → Type 0
  FeedOk (more st) = P st
  FeedOk (stop r s) = Q r

  abbrev pub EndOk : End R → Type 0
  EndOk (result r) = Q r
  EndOk at_close = Unit
  EndOk at_failure = Unit

  module _ (step : S → ℕ → S ⊎ R) (keep : (st : S) (c : ℕ) → P st → Next (step st c)) where
    feed-FeedOk : (s : Bytes) (st : S) → P st → FeedOk (feed step st s)
    unfolding feed
    feed-FeedOk [] st p = p
    feed-FeedOk (c ∷ s) st p = at (step st c) (keep st c p) (λ st'. feed-FeedOk s st')
      where
        at :
            (n : S ⊎ R)
            → Next n
            → ((st' : S) → P st' → FeedOk (feed step st' s))
            → FeedOk (elim n [ inl st' ↦ feed step st' s | inr r ↦ stop r s ])
        at (inl st') h ih = ih st' h
        at (inr r) h ih = h

    pub recv_bytes-EndOk : (conn : Conn) (st : S) → P st → EndOk (recv_bytes step st conn).0
    unfolding recv_bytes
    recv_bytes-EndOk [] st p = tt
    recv_bytes-EndOk (broken ∷ conn) st p = tt
    recv_bytes-EndOk (got c s ∷ conn) st p =
        at (feed step st (c ∷ s)) (feed-FeedOk (c ∷ s) st p) (recv_bytes-EndOk conn)
      where
        at :
            (f : Feed S R)
            → FeedOk f
            → ((st' : S) → P st' → EndOk (recv_bytes step st' conn).0)
            → EndOk
                (elim f as (λ _. End R × Conn) [
                  | more st' ↦ recv_bytes step st' conn
                  | stop r rest ↦ (result r, unread rest conn)
                ]).0
        at (more st') h ih = ih st' h
        at (stop r rest) h ih = h
