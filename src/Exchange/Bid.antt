-- ===== src/Exchange/Bid.antt =====
-- `bid`, typed by a user, up to the server's `bid_request`.
pub mod Told
use auction_server.Common.{
  ℕ, ◌+◌, ◌≤◌, ◌<◌, ◌≡◌, ◌⊎◌, refl, sym, ap, ◌∙◌, true, Option, some, [], ◌∷◌, ◌++◌, arith, Bytes,
  codes, All, length, length-append, append_assoc, append-nil, take_of_le, inl, inr,
}
use auction_server.Common.Int.{pos_part}
use auction_server.Libc.{atoi, digits_value, print_dec, isdigit}
use mathlib.Core.Path.{subst}
use auction_server.Libc.Numbers.{
  digits_value-print_dec, length-print_dec, length-print_dec_pos, IsDigit, print_dec-IsDigit,
  atoi-digits,
}
use auction_server.Validators.{is_valid_aid, is_valid_start_value}
use auction_server.Validators.Laws.{is_valid_aid_iff, is_valid_start_value_iff}
use auction_server.Os.{World}
use auction_server.Stream.{unread}
use auction_server.Tcp.Bid.Value.{small_value}
use auction_server.Tcp.Dispatch.{serve_tcp_connection, handled, get_tcp_handler_fn}
use auction_server.Database.Auctions.{update_database}
use auction_server.Client.{ClientState}
use auction_server.Client.Tcp.{bid_message}
use auction_server.Exchange.Streams.{read_tcp_stream-prefix, c_string-zero_buff}
use auction_server.Tcp.Bid.{value_byte, bid_request, handle_bid}
use auction_server.Udp.Dispatch.{c_string}
use auction_server.Tcp.Reading.{zero_buff, feed, Feed, stop, recv_bytes, result}
use auction_server.Exchange.Session.{Valid, uid_form, passwd_form}
use auction_server.Exchange.Words.{
  three_words, three_words-append, length-three_words, three_words-Lacks, three_args-three_words,
}

-- A value sent is a value read: the loop drops leading zeros, and stops at the newline or after six
-- digits.
record ReadBack (kept s : Bytes) (f : Feed Bytes (Option Bytes)) : Type 0 where
  value : Bytes
  rest : Bytes
  stopped : f ≡ stop (some value) rest
  same : digits_value 0 value ≡ digits_value 0 (kept ++ s)
  digits : All IsDigit value

All-concat : (xs : Bytes) (c : ℕ) → All IsDigit xs → IsDigit c → All IsDigit (xs ++ c ∷ [])
All-concat [] c h k = (k, tt)
All-concat (x ∷ xs) c h k = (h.0, All-concat xs c h.1 k)

value_byte-digit :
    (kept : Bytes) (c : ℕ)
    → IsDigit c
    → length kept < 6
    → ((value_byte kept c ≡ inl kept) × (length kept ≡ 0) × (c ≡ b'0'))
      ⊎ ((value_byte kept c ≡ inr (some (kept ++ c ∷ []))) × (length kept ≡ 5))
      ⊎ ((value_byte kept c ≡ inl (kept ++ c ∷ [])) × (length kept < 5))
unfolding value_byte
value_byte-digit kept c d m = ground (arith, length-append kept (c ∷ []))

empty-of-length : (s : Bytes) → length s ≡ 0 → s ≡ []
empty-of-length [] e = refl
empty-of-length (c ∷ s) e = absurd (omega (arith, e))

feed-ReadBack :
    (s kept : Bytes)
    → All IsDigit kept
    → All IsDigit s
    → length kept + length s ≤ 6
    → length kept < 6
    → ReadBack kept s (feed value_byte kept (s ++ b'\n' ∷ []))
unfolding feed
feed-ReadBack [] kept k h l m = record {
  value = kept;
  rest = [];
  stopped = unfold value_byte in refl;
  same = ap (digits_value 0) (sym (append-nil kept));
  digits = k;
}
feed-ReadBack (c ∷ s) kept k h l m =
    let longer = length-append kept (c ∷ []) in
    elim (value_byte-digit kept c h.0 m) [
      | inl (e, zero_kept, zero_digit) ↦
          let r = feed-ReadBack s kept k h.1 (omega (arith, l)) m in
          rw (feed, e)
            (record {
              value = r.value;
              rest = r.rest;
              stopped = r.stopped;
              same =
                  r.same
                  ∙ rw (empty-of-length kept zero_kept, zero_digit)
                      (unfold digits_value isdigit in refl);
              digits = r.digits;
            })
      | inr (inl (e, five)) ↦
          rw (feed, e)
            (record {
              value = kept ++ c ∷ [];
              rest = s ++ b'\n' ∷ [];
              stopped = refl;
              same =
                  ap (λ t. digits_value 0 (kept ++ c ∷ t))
                    (sym (empty-of-length s (omega (arith, l, five))));
              digits = All-concat kept c k h.0;
            })
      | inr (inr (e, few)) ↦
          let r =
            feed-ReadBack s (kept ++ c ∷ []) (All-concat kept c k h.0) h.1
              (omega (arith, l, longer)) (omega (arith, few, longer)) in
          rw (feed, e)
            (record {
              value = r.value;
              rest = r.rest;
              stopped = r.stopped;
              same = r.same ∙ ap (digits_value 0) (append_assoc kept (c ∷ []) s);
              digits = r.digits;
            })
    ]

-- What the server's loop makes of the digits of a value.
recv_bytes-value :
    (c : ℕ) (s : Bytes)
    → All IsDigit (c ∷ s)
    → length (c ∷ s) ≤ 6
    → (value : Bytes) × (rest : Bytes) × (recv_bytes value_byte [] (unread (c ∷ s ++ b'\n' ∷ []) [])
        ≡ (result (some value), unread rest []))
      × (pos_part (atoi value) ≡ digits_value 0 (c ∷ s))
unfolding recv_bytes unread
recv_bytes-value c s h l =
    let r = feed-ReadBack (c ∷ s) [] tt h (omega (arith, l)) (omega arith) in
    (
      r.value,
      r.rest,
      rw (recv_bytes, r.stopped) refl,
      ap pos_part (atoi-digits r.value r.digits) ∙ r.same,
    )

-- The same for a printed number.
recv_bytes-print_dec :
    (n : ℕ) (t : Bytes)
    → print_dec n ≡ t
    → n ≤ 999999
    → (value : Bytes) × (rest : Bytes) × (recv_bytes value_byte [] (unread (t ++ b'\n' ∷ []) [])
        ≡ (result (some value), unread rest []))
      × (pos_part (atoi value) ≡ n)
recv_bytes-print_dec n [] e h = absurd (omega (arith, ap length e, length-print_dec_pos n))
recv_bytes-print_dec n (c ∷ s) e h =
    let (value, rest, got_value, same) =
      recv_bytes-value c s (subst (All IsDigit) e (print_dec-IsDigit n))
        (omega (arith, ap length e, length-print_dec n 6 (omega (arith, h)) (omega arith))) in
    (value, rest, got_value, same ∙ ap (digits_value 0) (sym e) ∙ digits_value-print_dec n)

module _ (client : ClientState) (v : Valid client.uid client.passwd) (aid value : Bytes)
    (ha : is_valid_aid aid ≡ true) (hv : is_valid_start_value value ≡ true) where
  abbrev amount : ℕ
  amount = pos_part (atoi value)

  abbrev arguments : Bytes
  arguments = three_words client.uid client.passwd aid b' ' ++ (print_dec amount ++ b'\n' ∷ [])

  bid_message-words : bid_message client aid value ≡ codes "BID " ++ arguments
  bid_message-words =
      rw
        (
          take_of_le 6 client.uid (omega (arith, (uid_form v).0)),
          take_of_le 8 client.passwd (omega (arith, (passwd_form v).0)),
          take_of_le 3 aid (omega (arith, ((is_valid_aid_iff aid).0 ha).0)),
          three_words-append client.uid client.passwd aid b' ' (print_dec amount ++ b'\n' ∷ []),
        )
        refl

  amount_small : amount ≤ 999999
  amount_small =
      let (p, short, digits) = (is_valid_start_value_iff value).0 hv in
      small_value value short digits

  handle_bid-arguments :
      (w : World)
      → (rest : Bytes) × (handle_bid (unread arguments []) w
          ≡ bid_request client.uid client.passwd aid amount (unread rest []) (update_database w))
  unfolding handle_bid
  handle_bid-arguments w =
      let (text, rest, received, same) =
        recv_bytes-print_dec amount (print_dec amount) refl amount_small in
      let words = three_words client.uid client.passwd aid b' ' in
      (
        rest,
        rw
            (
              read_tcp_stream-prefix 32 20 words (print_dec amount ++ b'\n' ∷ []) []
                  (length-three_words aid v ha b' ') (omega arith) (omega arith),
              received,
              c_string-zero_buff words 12 (three_words-Lacks aid v ha b' ' (omega arith)),
              three_args-three_words aid v ha b' ' (omega arith),
              same,
            )
            refl,
      )

  -- The server calls `bid_request` with what the user typed and logged in with.
  pub serve_tcp_connection-bid :
      (w : World)
      → (rest : Bytes) × (serve_tcp_connection (unread (bid_message client aid value) []) w
          ≡ handled (
              bid_request client.uid client.passwd aid amount (unread rest []) (update_database w)))
  unfolding serve_tcp_connection get_tcp_handler_fn c_string zero_buff
  serve_tcp_connection-bid w =
      let (rest, e) = handle_bid-arguments w in
      (
        rest,
        rw
            (
              bid_message-words,
              read_tcp_stream-prefix 8 4 (codes "BID ") arguments [] refl (omega arith)
                  (omega arith),
            )
            (ap handled e),
      )
