-- ===== src/Stream/Complete.antt =====
-- An asset that is sent as announced is received, however the network cuts it.
use auction_server.Common.{
  true, false, ℕ, ◌+◌, ◌≡◌, ◌≤◌, ◌<◌, refl, sym, ap, ◌∙◌, arith, Bytes, ◌++◌, [], ◌∷◌, length,
  length-append, append-nil, append_assoc, Bool-cases, inl, inr, ltb, ltb→lt, if_false, drop,
  get_or,
}
use auction_server.Stream.{
  Conn, got, broken, asset, last_of, but_last, last_block, recv_asset, as_recv_asset_file,
}
use auction_server.Stream.Received.{arriving}

-- No `recv` fails.
abbrev pub Unbroken : Conn → Type 0
Unbroken [] = Unit
Unbroken (broken ∷ conn) = ⊥
Unbroken (got c s ∷ conn) = Unbroken conn

last_of-append : (s : Bytes) (c d : ℕ) → last_of (s ++ c ∷ []) d ≡ c
unfolding last_of
last_of-append [] c d = refl
last_of-append (x ∷ s) c d = last_of-append s c x

but_last-append : (s : Bytes) (c : ℕ) → but_last (s ++ c ∷ []) ≡ s
unfolding but_last
but_last-append [] c = refl
but_last-append (x ∷ []) c = refl
but_last-append (x ∷ y ∷ s) c = ap (◌∷◌ x) (but_last-append (y ∷ s) c)

-- A text in front of another is that text's beginning.
front :
    (a b s : Bytes) (c : ℕ)
    → a ++ b ≡ s ++ c ∷ []
    → length a ≤ length s
    → (t : Bytes) × (s ≡ a ++ t) × (b ≡ t ++ c ∷ [])
front [] b s c e l = (s, refl, e)
front (x ∷ a) b [] c e l = absurd (omega (arith, l))
front (x ∷ a) b (y ∷ s) c e l =
    let (t, h, k) = front a b s c (ap (drop 1) e) (omega (arith, l)) in
    (t, cc (ap (λ u. get_or u 0 0) e, h), k)

-- Nothing arrives on a connection on which no `recv` fails: it is closed.
closed : (conn : Conn) → Unbroken conn → arriving conn ≡ [] → conn ≡ []
unfolding arriving
closed [] u e = refl
closed (broken ∷ conn) u e = absurd u
closed (got c s ∷ conn) u e = absurd (omega (arith, ap length e))

last_block-whole :
    (acc s : Bytes)
    → last_block (length (acc ++ s)) (length acc + length (s ++ b'\n' ∷ [])) acc (s ++ b'\n' ∷ [])
      ≡ asset (acc ++ s)
unfolding last_block
last_block-whole acc s =
    rw (last_of-append s b'\n' 0, but_last-append s b'\n')
      (if_false (ltb (length (acc ++ s) + 1) (length acc + length (s ++ b'\n' ∷ []))) _ _
        (ground (arith, length-append acc s, length-append s (b'\n' ∷ []))))

-- The arrival that holds the newline is the last one.
last-arrival :
    (c : ℕ) (chunk s : Bytes) (conn : Conn)
    → Unbroken conn
    → c ∷ chunk ++ arriving conn ≡ s ++ b'\n' ∷ []
    → length s < length (c ∷ chunk)
    → (c ∷ chunk ≡ s ++ b'\n' ∷ []) × (conn ≡ [])
last-arrival c chunk s conn u e l =
    let none_left : arriving conn ≡ [] = empty (arriving conn) (
      omega (
        arith,
        ap length e,
        l,
        length-append (c ∷ chunk) (arriving conn),
        length-append s (b'\n' ∷ []),
      )) in
    (
      sym (append-nil (c ∷ chunk)) ∙ ap (◌++◌ (c ∷ chunk)) (sym none_left) ∙ e,
      closed conn u none_left,
    )
  where
    empty : (t : Bytes) → length t ≡ 0 → t ≡ []
    empty [] h = refl
    empty (x ∷ t) h = absurd (omega (arith, h))

recv_asset-whole :
    (conn : Conn) (acc s : Bytes)
    → Unbroken conn
    → arriving conn ≡ s ++ b'\n' ∷ []
    → recv_asset (length (acc ++ s)) (length acc) acc conn ≡ (asset (acc ++ s), [])
unfolding recv_asset arriving
recv_asset-whole [] acc s u e = absurd (omega (arith, ap length e, length-append s (b'\n' ∷ [])))
recv_asset-whole (broken ∷ conn) acc s u e = absurd u
recv_asset-whole (got c chunk ∷ conn) acc s u e =
    elim (Bool-cases (ltb (length s) (length (c ∷ chunk)))) [
      | inl l ↦
          let (whole, done) = last-arrival c chunk s conn u e (ltb→lt _ _ l) in
          let over : ltb (length (acc ++ s)) (length acc + length (c ∷ chunk)) ≡ true =
            ground (arith, l, length-append acc s) in
          rw (recv_asset, over)
            (ap (λ x. (x, conn))
                (ap (λ m. last_block (length (acc ++ s)) (length acc + length m) acc m) whole
                  ∙ last_block-whole acc s)
              ∙ ap (λ x. (asset (acc ++ s), x)) done)
      | inr l ↦
          let (t, h, k) = front (c ∷ chunk) (arriving conn) s b'\n' e (ground (arith, l)) in
          let under : ltb (length (acc ++ s)) (length acc + length (c ∷ chunk)) ≡ false =
            ground (arith, l, length-append acc s) in
          let both : acc ++ s ≡ (acc ++ c ∷ chunk) ++ t =
            ap (◌++◌ acc) h ∙ sym (append_assoc acc (c ∷ chunk) t) in
          rw (recv_asset, under)
            (ap
                (λ x.
                  recv_asset (length x) (length acc + length (c ∷ chunk)) (acc ++ c ∷ chunk) conn)
                both
              ∙ ap (λ n. recv_asset (length ((acc ++ c ∷ chunk) ++ t)) n (acc ++ c ∷ chunk) conn)
                  (sym (length-append acc (c ∷ chunk)))
              ∙ recv_asset-whole conn (acc ++ c ∷ chunk) t u k
              ∙ ap (λ x. (asset x, [])) (sym both))
    ]

-- An asset that arrives as announced, with its newline and nothing more, however the network cuts
-- it into arrivals, is received whole.
pub as_recv_asset_file-whole :
    (conn : Conn) (s : Bytes)
    → Unbroken conn
    → arriving conn ≡ s ++ b'\n' ∷ []
    → as_recv_asset_file (length s) conn ≡ (asset s, [])
unfolding as_recv_asset_file
as_recv_asset_file-whole conn s u e = recv_asset-whole conn [] s u e
