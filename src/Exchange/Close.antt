-- ===== src/Exchange/Close.antt =====
-- `close`, typed by a user: the server's `close_request`, and what the client shows.
use auction_server.Common.{
  ◌≡◌, ◌≢◌, ◌⊎◌, ◌↔◌, refl, sym, ap, ◌∙◌, true, not, List, [], ◌∷◌, ◌++◌, arith, Bytes, codes, inl,
  inr, length, bytes_eq, get_or, take_of_le, append-nil, if_false,
}
use auction_server.Libc.Strtok.{strtok-Lacks}
use auction_server.Validators.{is_valid_aid}
use auction_server.Validators.Laws.{is_valid_aid_iff}
use auction_server.Os.{World}
use auction_server.Stream.{Conn, unread, read_tcp_stream}
use auction_server.Database.Auctions.{update_database}
use auction_server.Tcp.Close.{close_request, close_read, handle_close}
use auction_server.Tcp.Close.Accept.{Closed, close_request-Closed}
use auction_server.Tcp.Dispatch.{
  serve_tcp_connection, get_tcp_handler_fn, handled, get_tcp_error_msg,
}
use auction_server.Tcp.Reading.{TcpResult, ended, crash, zero_buff}
use auction_server.Udp.Dispatch.{c_string}
use auction_server.Client.{ClientState, Result, returned, other_errno}
use auction_server.Client.Tcp.{close_answer, close_message}
use auction_server.Client.Answer.{with_link}
use auction_server.Client.Tcp as Typed
use auction_server.Exchange.{Joint, OneOf, server, replied}
use auction_server.Exchange.Words.{
  three_words, three_words-append, length-three_words, three_words-Lacks, three_args-three_words,
}
use auction_server.Exchange.Lists.Board.{aid-Lacks}
use auction_server.Exchange.Session.{Valid, uid_form, passwd_form}
use auction_server.Exchange.Streams.{read_tcp_stream-prefix, c_string-zero_buff, get_or-skip}

-- "Auction sucessfully closed by the AS!\n"
abbrev pub success : Bytes
success = codes "Auction sucessfully closed by the AS!\n"

-- What `CLS` is answered with, other than OK.
abbrev refusals : List Bytes
refusals =
    codes "RCL NLG\n"
    ∷ codes "RCL EAU\n"
    ∷ codes "RCL NOK\n"
    ∷ codes "RCL EOW\n"
    ∷ codes "RCL END\n"
    ∷ []

-- The results of `close_request` that are not OK.
abbrev Refused : TcpResult → Type 0
Refused crash = Unit
Refused (ended err text conn w) = (err ≡ 0) × OneOf text refusals

close_request-Refused :
    (uid passwd aid : Bytes) (conn : Conn) (w : World) (r : TcpResult)
    → close_request uid passwd aid conn w ≡ r
    → Refused r ⊎ ((w' : World) × (r ≡ ended 0 (codes "RCL OK\n") conn w'))
unfolding close_request
close_request-Refused uid passwd aid conn w crash h = inl tt
close_request-Refused uid passwd aid conn w (ended err text conn' w') h = elim (parts h) [
  | inl k ↦ inl k
  | inr k ↦ inr (w', k)
]
  where
    parts :
        close_request uid passwd aid conn w ≡ ended err text conn' w'
        → Refused (ended err text conn' w')
          ⊎ (ended err text conn' w' ≡ ended 0 (codes "RCL OK\n") conn w')
    parts h = ground (arith, h)

-- The rules of `CLS` are all it takes.
Closed-close_request :
    (uid passwd aid : Bytes) (conn : Conn) (w w' : World) (line owner : Bytes)
    → Closed uid passwd aid w w' line owner
    → close_request uid passwd aid conn w ≡ ended 0 (codes "RCL OK\n") conn w'
unfolding close_request
Closed-close_request uid passwd aid conn w w' line owner c =
    rw
      (
        c.user, c.logged, c.authentic, c.auction, c.info, c.owner_word, c.is_owner, c.running,
        c.recorded,
      )
      refl

module _ (client : ClientState) (v : Valid client.uid client.passwd) (aid : Bytes)
    (ha : is_valid_aid aid ≡ true) where
  abbrev words : Bytes
  words = three_words client.uid client.passwd aid b'\n'

  close_message-words : close_message client aid ≡ codes "CLS " ++ words
  close_message-words =
      rw
        (
          take_of_le 6 client.uid (omega (arith, (uid_form v).0)),
          take_of_le 8 client.passwd (omega (arith, (passwd_form v).0)),
          take_of_le 3 aid (omega (arith, ((is_valid_aid_iff aid).0 ha).0)),
        )
        refl

  -- The byte in which the server looks for the newline.
  last_byte : (r : Bytes) → get_or (words ++ r) 19 0 ≡ b'\n'
  last_byte r =
      ap (λ s. get_or s 19 0) (three_words-append client.uid client.passwd aid b'\n' r)
      ∙ get_or-skip client.uid _ 19 13 0 (omega (arith, (uid_form v).0))
      ∙ get_or-skip client.passwd _ 12 4 0 (omega (arith, (passwd_form v).0))
      ∙ get_or-skip aid _ 3 0 0 (omega (arith, ((is_valid_aid_iff aid).0 ha).0))

  handle_close-words :
      (w : World)
      → handle_close (unread words []) w
        ≡ close_request client.uid client.passwd aid [] (update_database w)
  unfolding handle_close unread
  handle_close-words w =
      ap (λ c. close_read c w)
        (ap (read_tcp_stream (zero_buff 128) 20) (ap (λ s. unread s []) (sym (append-nil words)))
          ∙ read_tcp_stream-prefix 128 20 words [] [] (length-three_words aid v ha b'\n')
              (omega arith) (omega arith))
      ∙ rw
          (
            last_byte (zero_buff 108),
            c_string-zero_buff words 108 (three_words-Lacks aid v ha b'\n' (omega arith)),
            three_args-three_words aid v ha b'\n' (omega arith),
          )
          refl

  -- The server calls `close_request` with what the user typed and logged in with.
  serve_tcp_connection-close :
      (w : World)
      → serve_tcp_connection (unread (close_message client aid) []) w
        ≡ handled (close_request client.uid client.passwd aid [] (update_database w))
  unfolding serve_tcp_connection get_tcp_handler_fn c_string zero_buff
  serve_tcp_connection-close w =
      rw
        (
          close_message-words,
          read_tcp_stream-prefix 8 4 (codes "CLS ") words [] refl (omega arith) (omega arith),
        )
        (ap handled (handle_close-words w))

module _ (client : ClientState) where
  -- What the client shows for a text that the server sent.
  abbrev shown : Bytes → Result
  shown text = close_answer client other_errno (unread text [])

  refusal-shown : (text : Bytes) → OneOf text refusals → shown text ≢ returned 0 success client
  unfolding close_answer unread read_tcp_stream zero_buff c_string bytes_eq
  refusal-shown text (inl e) h = absurd (ground (arith, rw e at h))
  refusal-shown text (inr (inl e)) h = absurd (ground (arith, rw e at h))
  refusal-shown text (inr (inr (inl e))) h = absurd (ground (arith, rw e at h))
  refusal-shown text (inr (inr (inr (inl e)))) h = absurd (ground (arith, rw e at h))
  refusal-shown text (inr (inr (inr (inr (inl e))))) h = absurd (ground (arith, rw e at h))
  refusal-shown text (inr (inr (inr (inr (inr x))))) h = elim x [ ]

  success-shown : shown (codes "RCL OK\n") ≡ returned 0 success client
  unfolding close_answer unread read_tcp_stream zero_buff c_string bytes_eq
  success-shown = refl

  -- The client's result once the server is done with the connection.
  abbrev told : Joint → TcpResult → Result × Joint
  told j r =
      let (link, j') = replied j (handled r) in (with_link link client (close_answer client), j')

  Refused-told : (j : Joint) (r : TcpResult) → Refused r → (told j r).0 ≢ returned 0 success client
  unfolding handled with_link get_tcp_error_msg
  Refused-told j crash k h = absurd (ground (arith, h))
  Refused-told j (ended err text conn w) (e, k) h = refusal-shown text k (rw e at h)

  handle_close-told :
      (aid : Bytes) (j : Joint)
      → Valid client.uid client.passwd
      → is_valid_aid aid ≡ true
      → client.logged_in ≡ true
      → Typed.handle_close server aid client j
        ≡ told j (close_request client.uid client.passwd aid [] (update_database j.world))
  unfolding Typed.handle_close Typed.dial_server server
  handle_close-told aid j v ha on =
      if_false (not client.logged_in) _ _ (ap not on)
      ∙ rw
          (
            strtok-Lacks b' ' aid
                (λ e. absurd (omega (arith, ap length e, ((is_valid_aid_iff aid).0 ha).0)))
                (aid-Lacks b' ' aid (omega arith) ha),
            ha,
            serve_tcp_connection-close client v aid ha j.world,
          )
          refl

-- A logged-in user who types `close` with a valid AID is told that the auction has been closed if
-- and only if the server, after bringing its database up to date, knows the user, has them logged in
-- under that password, knows the auction, has it as the user's own and as not finished, and has
-- recorded its end; the server's files are then those that record the end, and the client's files
-- are as before.
pub handle_close-told_iff :
    (client : ClientState) (aid : Bytes) (j : Joint) (w' : World)
    → Valid client.uid client.passwd
    → is_valid_aid aid ≡ true
    → client.logged_in ≡ true
    → (Typed.handle_close server aid client j
        ≡ (returned 0 success client, record j { world = w' }))
      ↔ ((line : Bytes) × (owner : Bytes) × Closed client.uid client.passwd aid
            (update_database j.world)
            w'
            line
            owner)
unfolding handled with_link
handle_close-told_iff client aid j w' v ha on =
    let told_so = handle_close-told client aid j v ha on in
    (
      λ h.
          elim (close_request-Refused client.uid client.passwd aid [] (update_database j.world) _
            refl) [
              | inl refused ↦
                  absurd (Refused-told client j _ refused (ap (λ x. x.0) (sym told_so ∙ h)))
              | inr (w'', done) ↦
                  let same : w'' ≡ w' =
                    ap (λ x. x.1.world) (sym (ap (told client j) done) ∙ sym told_so ∙ h) in
                  rw (← same) (close_request-Closed _ _ _ _ _ _ w'' done)
            ],
      λ (line, owner, c).
          told_so
          ∙ ap (told client j) (Closed-close_request _ _ _ [] _ w' line owner c)
          ∙ ap (λ r. (r, record j { world = w' })) (success-shown client),
    )
