-- ===== src/Stream/Send/Partial.antt =====
-- What `send_tcp_message` of utils/utils.c does when a `send` takes a part of the message.
use auction_server.Common.{
  ℕ, suc, ◌+◌, ◌-◌, ◌*◌, ◌<◌, ◌≡◌, ◌≢◌, refl, ap, sym, ◌∙◌, if_false, Bool, true, false, List, [],
  ◌∷◌, arith, ltb, leb, ◌==◌, Bytes, length, take, drop, Bool-cases, inl, inr,
}
use auction_server.Stream.Send.{
  Accepts, takes, fails, Message, delivered, stopped, overread, prepend, smaller, send_loop,
  send_tcp_message,
}

is_delivered : Message → Bool
is_delivered (delivered s) = true
is_delivered (stopped s) = false
is_delivered overread = false

is_delivered-prepend : (t : Bytes) (m : Message) → is_delivered (prepend t m) ≡ is_delivered m
unfolding is_delivered
is_delivered-prepend t (delivered s) = refl
is_delivered-prepend t (stopped s) = refl
is_delivered-prepend t overread = refl

abbrev written : Bytes → ℕ → ℕ → ℕ
written message total k = smaller (length message - total) (suc k)

-- A round that leaves the message unfinished delivers it only where the next one does.
round-lost :
    (message : Bytes) (total k : ℕ) (calls : List Accepts)
    → total + written message total k < length message
    → is_delivered (send_loop message (total + written message total k) calls) ≡ false
    → is_delivered (send_loop message total (takes k ∷ calls)) ≡ false
unfolding send_loop is_delivered
round-lost message total k calls inside later =
    let unfinished : leb (length message) (total + written message total k) ≡ false =
      ground (arith, inside) in
    elim (Bool-cases (ltb (length message) (2 * total + written message total k))) [
      | inl e ↦ rw (send_loop, e) refl
      | inr e ↦
          rw (send_loop, e, unfinished)
            (is_delivered-prepend (take (written message total k) (drop (2 * total) message)) _
              ∙ later)
    ]

send_loop-lost :
    (calls : List Accepts) (message : Bytes) (total : ℕ)
    → 0 < total
    → total < length message
    → is_delivered (send_loop message total calls) ≡ false
unfolding send_loop is_delivered
send_loop-lost [] message total p l = refl
send_loop-lost (fails ∷ calls) message total p l = refl
send_loop-lost (takes k ∷ calls) message total p l =
    elim (Bool-cases (ltb (length message) (2 * total + written message total k))) [
      | inl e ↦ rw (send_loop, e) refl
      | inr e ↦
          let inside : total + written message total k < length message = ground (arith, e, p) in
          round-lost message total k calls inside (
            send_loop-lost calls message (total + written message total k) (omega (arith, p))
              inside)
    ]

-- Where the first `send` takes some bytes of the message and not all of them, `send_tcp_message`
-- never returns 0 without reading behind the message, whatever the later calls take.
pub send_tcp_message_split :
    (message : Bytes) (k : ℕ) (calls : List Accepts) (s : Bytes)
    → suc k < length message
    → send_tcp_message message (takes k ∷ calls) ≢ delivered s
unfolding send_tcp_message is_delivered
send_tcp_message_split message k calls s l e =
    let some_bytes : 0 < 0 + written message 0 k = ground (arith, l) in
    let inside : 0 + written message 0 k < length message = ground (arith, l) in
    let lost =
      round-lost message 0 k calls inside
        (send_loop-lost calls message (0 + written message 0 k) some_bytes inside) in
    let started : (length message == 0) ≡ false = ground (arith, l) in
    let same : true ≡ false =
      ap is_delivered (sym e)
      ∙ ap is_delivered (if_false (length message == 0) _ _ started)
      ∙ lost in
    cc same
