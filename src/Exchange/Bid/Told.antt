-- ===== src/Exchange/Bid/Told.antt =====
-- What the client shows for a bid, and what the server did.
use auction_server.Common.{
  ℕ, ◌≡◌, ◌≢◌, ◌⊎◌, refl, sym, ap, ◌∙◌, true, List, [], ◌∷◌, ◌++◌, arith, Bytes, codes, join, inl,
  inr, length, bytes_eq, if_false, not,
}
use auction_server.Common.Int.{pos_part}
use auction_server.Libc.{atoi}
use auction_server.Libc.Strtok.{strtok-append, strtok-Lacks}
use auction_server.Validators.{is_valid_aid, is_valid_start_value}
use auction_server.Validators.Laws.{is_valid_aid_iff, is_valid_start_value_iff}
use auction_server.Os.{World}
use auction_server.Stream.{Conn, unread, read_tcp_stream}
use auction_server.Database.Auctions.{update_database}
use auction_server.Tcp.Bid.{bid_request}
use auction_server.Tcp.Bid.Accept.{Accepted, bid_request-Accepted}
use auction_server.Tcp.Dispatch.{handled, get_tcp_error_msg}
use auction_server.Tcp.Reading.{TcpResult, ended, crash, zero_buff}
use auction_server.Udp.Dispatch.{c_string}
use auction_server.Client.{ClientState, Result, returned, other_errno}
use auction_server.Client.Tcp.{bid_answer, bid_message}
use auction_server.Client.Answer.{with_link}
use auction_server.Client.Tcp as Typed
use auction_server.Exchange.{Joint, OneOf, server, replied}
use auction_server.Exchange.Session.{Valid, digits-Lacks}
use auction_server.Exchange.Bid.{serve_tcp_connection-bid}
use auction_server.Exchange.Lists.Board.{aid-Lacks}

-- What `BID` is answered with, other than an acceptance.
abbrev refusals : List Bytes
refusals =
    codes "RBD NOK\n"
    ∷ codes "RBD NLG\n"
    ∷ codes "RBD ERR\n"
    ∷ codes "RBD ILG\n"
    ∷ codes "RBD REF\n"
    ∷ []

-- The results of `bid_request` that are not an acceptance.
abbrev Refused : TcpResult → Type 0
Refused crash = Unit
Refused (ended err text conn w) = ((err ≡ 0) × OneOf text refusals) ⊎ ((err ≡ 4) × (text ≡ []))

bid_request-Refused :
    (uid passwd aid : Bytes) (value : ℕ) (conn : Conn) (w : World) (r : TcpResult)
    → bid_request uid passwd aid value conn w ≡ r
    → Refused r ⊎ ((w' : World) × (r ≡ ended 0 (codes "RBD ACC\n") conn w'))
unfolding bid_request
bid_request-Refused uid passwd aid value conn w crash h = inl tt
bid_request-Refused uid passwd aid value conn w (ended err text conn' w') h = elim (parts h) [
  | inl k ↦ inl k
  | inr k ↦ inr (w', k)
]
  where
    parts :
        bid_request uid passwd aid value conn w ≡ ended err text conn' w'
        → Refused (ended err text conn' w')
          ⊎ (ended err text conn' w' ≡ ended 0 (codes "RBD ACC\n") conn w')
    parts h = ground (arith, h)

-- "Sucessfully bidded %s on auction %s\n"
abbrev pub success : Bytes → Bytes → Bytes
success value aid =
    join (codes "Sucessfully bidded " ∷ value ∷ codes " on auction " ∷ aid ∷ codes "\n" ∷ [])

module _ (client : ClientState) (aid value : Bytes) where
  -- What the client shows for a text that the server sent.
  abbrev shown : Bytes → Result
  shown text = bid_answer aid value client other_errno (unread text [])

  refusal-shown :
      (text : Bytes) → OneOf text refusals → shown text ≢ returned 0 (success value aid) client
  unfolding bid_answer unread read_tcp_stream zero_buff c_string bytes_eq
  refusal-shown text (inl e) h = absurd (ground (arith, rw e at h))
  refusal-shown text (inr (inl e)) h = absurd (ground (arith, rw e at h))
  refusal-shown text (inr (inr (inl e))) h = absurd (ground (arith, rw e at h))
  refusal-shown text (inr (inr (inr (inl e)))) h = absurd (ground (arith, rw e at h))
  refusal-shown text (inr (inr (inr (inr (inl e))))) h = absurd (ground (arith, rw e at h))
  refusal-shown text (inr (inr (inr (inr (inr x))))) h = elim x [ ]

  -- The client's result once the server is done with the connection.
  abbrev told : Joint → TcpResult → Result × Joint
  told j r =
      let (link, j') = replied j (handled r) in
      (with_link link client (bid_answer aid value client), j')

  Refused-told :
      (j : Joint) (r : TcpResult) → Refused r → (told j r).0 ≢ returned 0 (success value aid) client
  unfolding handled with_link get_tcp_error_msg
  Refused-told j crash k h = absurd (ground (arith, h))
  Refused-told j (ended err text conn w) (inl (e, k)) h = refusal-shown text k (rw e at h)
  Refused-told j (ended err text conn w) (inr (e, k)) h =
      refusal-shown (codes "RBD ERR\n") (inr (inr (inl refl))) (rw (e, k) at h)

module _ (client : ClientState) (v : Valid client.uid client.passwd) (aid value : Bytes)
    (ha : is_valid_aid aid ≡ true) (hv : is_valid_start_value value ≡ true) (j : Joint) where
  handle_bid-typed :
      client.logged_in ≡ true
      → Typed.handle_bid server (aid ++ b' ' ∷ value) client j
        ≡ Typed.dial_server server
            (bid_message client aid value)
            client
            j
            (bid_answer aid value client)
  unfolding Typed.handle_bid
  handle_bid-typed on =
      let (some_digit, short, digits) = (is_valid_start_value_iff value).0 hv in
      let (three, aid_digits) = (is_valid_aid_iff aid).0 ha in
      if_false (not client.logged_in) _ _ (ap not on)
      ∙ rw
          (
            strtok-append b' ' aid value (λ e. absurd (omega (arith, ap length e, three)))
                (aid-Lacks b' ' aid (omega arith) ha),
            ha,
            strtok-Lacks b'\n' value (λ e. absurd (omega (arith, ap length e, some_digit)))
                (digits-Lacks b'\n' value (omega arith) digits),
            hv,
          )
          refl

  abbrev request : Bytes → TcpResult
  request rest =
      bid_request client.uid client.passwd aid (pos_part (atoi value)) (unread rest [])
        (update_database j.world)

  dial_server-bid :
      (rest : Bytes) × (Typed.dial_server server
          (bid_message client aid value)
          client
          j
          (bid_answer aid value client)
        ≡ told client aid value j (request rest))
  unfolding Typed.dial_server server
  dial_server-bid =
      let (rest, e) = serve_tcp_connection-bid client v aid value ha hv j.world in (rest, rw e refl)

-- A user who types `bid` with a valid AID and value is told that the bid succeeded only if the
-- server accepted it: the user is logged in there with that password, the auction exists, is not
-- finished and is not the user's own, the value, as typed, is above the last bid (above the start
-- value if there is none), and the bid has been recorded.
pub handle_bid-Accepted :
    (client : ClientState) (aid value : Bytes) (j j' : Joint)
    → Valid client.uid client.passwd
    → is_valid_aid aid ≡ true
    → is_valid_start_value value ≡ true
    → client.logged_in ≡ true
    → Typed.handle_bid server (aid ++ b' ' ∷ value) client j
      ≡ (returned 0 (success value aid) client, j')
    → (line : Bytes) × (owner : Bytes) × (start : Bytes) × Accepted client.uid client.passwd aid
        (pos_part (atoi value))
        (update_database j.world)
        j'.world
        line
        owner
        start
unfolding handled
handle_bid-Accepted client aid value j j' v ha hv on h =
    let (rest, e) = dial_server-bid client v aid value ha hv j in
    let k : told client aid value j (request client v aid value ha hv j rest)
        ≡ (returned 0 (success value aid) client, j') =
      sym e ∙ sym (handle_bid-typed client v aid value ha hv j on) ∙ h in
    elim (bid_request-Refused client.uid client.passwd aid (pos_part (atoi value)) (unread rest [])
      (update_database j.world) _ refl) [
        | inl refused ↦ absurd (Refused-told client aid value j _ refused (ap (λ x. x.0) k))
        | inr (w', done) ↦
            let same : w' ≡ j'.world =
              ap (λ x. x.1.world) (sym (ap (told client aid value j) done) ∙ k) in
            rw (← same) (bid_request-Accepted _ _ _ _ _ _ _ w' done)
      ]
