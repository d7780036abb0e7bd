-- ===== src/Exchange/Open/Sent.antt =====
-- `open`, typed by a user, up to the server's `create_new_auction`.
use auction_server.Common.{
  ℕ, ◌≤◌, ◌<◌, ◌≡◌, ◌≢◌, refl, ap, ◌∙◌, true, false, ◌||◌, Option, none, some, List, [], ◌∷◌, ◌++◌,
  arith, ltb, ◌==◌, Bytes, codes, length, length-append, append_assoc, take_of_le, if_false, get_or,
}
use auction_server.Common.Int.{is_zero, pos_part}
use auction_server.Libc.{atoi, print_dec}
use auction_server.Libc.Strtok.{Lacks, strtok-append}
use auction_server.Validators.{is_valid_name, is_valid_start_value, is_valid_time_active}
use auction_server.Os.{World}
use auction_server.Stream.{Conn, unread}
use auction_server.Database.Hosting.{create_new_auction}
use auction_server.Database.Users.{exists_user, is_user_logged_in, is_authentic_user}
use auction_server.Validators.Laws.{
  is_valid_fname_iff, is_valid_start_value_iff, is_valid_time_active_iff, is_valid_fsize_iff,
  is_valid_name-visible,
}
use auction_server.Tcp.Open.{
  arg_byte, get_opa_arg_len, is_valid_opa_arg, open_auction, open_answer, handle_open,
}
use auction_server.Tcp.Dispatch.{serve_tcp_connection, get_tcp_handler_fn, handled}
use auction_server.Udp.Dispatch.{c_string}
use auction_server.Client.{ClientState}
use auction_server.Client.Tcp.{open_message}
use auction_server.Exchange.Asset.{FileName}
use auction_server.Exchange.Streams.{read_tcp_stream-prefix, c_string-zero_buff, get_or-skip}
use auction_server.Tcp.Reading.{zero_buff, feed, stop}
use auction_server.Exchange.Session.{
  Valid, uid_form, passwd_form, digits-Lacks, alnum-Lacks, Lacks-append,
}
use auction_server.Exchange.Open.{
  feed-args, atoi-lt, atoi-print_dec, visible-Lacks, number-OpaArg, recv_bytes-stop,
}

module _ (client : ClientState) (v : Valid client.uid client.passwd)
    (name fname start_value time_active content : Bytes) (hn : is_valid_name name ≡ true)
    (k : FileName fname) (hs : is_valid_start_value start_value ≡ true)
    (ht : is_valid_time_active time_active ≡ true) (small : length content ≤ 10000000) where
  abbrev sv : ℕ
  sv = pos_part (atoi start_value)

  abbrev ta : ℕ
  ta = pos_part (atoi time_active)

  abbrev arguments : List Bytes
  arguments = name ∷ print_dec sv ∷ print_dec ta ∷ fname ∷ print_dec (length content) ∷ []

  abbrev tail : Bytes
  tail = content ++ b'\n' ∷ []

  abbrev text : Bytes
  text =
      name
      ++ b' '
        ∷ (print_dec sv
            ++ b' '
              ∷ (print_dec ta
                  ++ b' ' ∷ (fname ++ b' ' ∷ (print_dec (length content) ++ b' ' ∷ tail))))

  feed-text : feed arg_byte (record { saved = []; current = [] }) text ≡ stop (some arguments) tail
  unfolding get_opa_arg_len is_valid_opa_arg
  feed-text =
      let (short_name, visible) = is_valid_name-visible name hn in
      let (_, short_sv, sv_digits) = (is_valid_start_value_iff start_value).0 hs in
      let (_, short_ta, ta_digits) = (is_valid_time_active_iff time_active).0 ht in
      let (_, short_fname, _, _) = (is_valid_fname_iff fname).0 k.accepted in
      feed-args name (print_dec sv) (print_dec ta) fname (print_dec (length content)) tail
        (record {
          one_word = visible-Lacks b' ' name (omega arith) visible;
          no_nul = visible-Lacks 0 name (omega arith) visible;
          short = short_name;
          accepted = hn;
        })
        (number-OpaArg 1 sv 6 (atoi-lt 6 start_value short_sv sv_digits) (omega arith) (omega arith)
          (is_valid_start_value_iff (print_dec sv)).1)
        (number-OpaArg 2 ta 5 (atoi-lt 5 time_active short_ta ta_digits) (omega arith) (omega arith)
          (is_valid_time_active_iff (print_dec ta)).1)
        (record {
          one_word = k.one_word;
          no_nul = k.no_nul;
          short = short_fname;
          accepted = k.accepted;
        })
        (number-OpaArg 4 (length content) 8 (omega (arith, small)) (omega arith) (omega arith)
          (is_valid_fsize_iff (print_dec (length content))).1)

  abbrev head : Bytes
  head = client.uid ++ b' ' ∷ (client.passwd ++ b' ' ∷ [])

  open_message-words :
      open_message client name fname start_value time_active content
      ≡ codes "OPA " ++ (head ++ text)
  open_message-words =
      rw
        (
          take_of_le 6 client.uid (omega (arith, (uid_form v).0)),
          take_of_le 8 client.passwd (omega (arith, (passwd_form v).0)),
          append_assoc client.uid (b' ' ∷ (client.passwd ++ b' ' ∷ [])) text,
          append_assoc client.passwd (b' ' ∷ []) text,
        )
        refl

  length-head : length head ≡ 16
  length-head = omega (
    arith,
    (uid_form v).0,
    (passwd_form v).0,
    length-append client.uid (b' ' ∷ (client.passwd ++ b' ' ∷ [])),
    length-append client.passwd (b' ' ∷ []),
  )

  head-Lacks : Lacks 0 head
  head-Lacks =
      Lacks-append 0 client.uid _ (digits-Lacks 0 client.uid (omega arith) (uid_form v).1) (
        omega arith,
        Lacks-append 0 client.passwd _ (alnum-Lacks 0 client.passwd (omega arith) (passwd_form v).1)
            (omega arith, tt),
      )

  -- The byte in which the server looks for the second space.
  last_byte : (r : Bytes) → get_or (head ++ r) 15 0 ≡ b' '
  last_byte r =
      ap (λ s. get_or s 15 0)
        (append_assoc client.uid _ r
          ∙ ap (λ s. client.uid ++ b' ' ∷ s) (append_assoc client.passwd _ r))
      ∙ get_or-skip client.uid _ 15 9 0 (omega (arith, (uid_form v).0))
      ∙ get_or-skip client.passwd _ 8 0 0 (omega (arith, (passwd_form v).0))

  -- The server takes the request apart.
  handle_open-text :
      (w : World)
      → handle_open (unread (head ++ text) []) w
        ≡ open_auction client.uid client.passwd arguments (unread tail []) w
  unfolding handle_open
  handle_open-text w =
      rw
        (
          read_tcp_stream-prefix 128 16 head text [] length-head (omega arith) (omega arith),
          last_byte (zero_buff 112),
          c_string-zero_buff head 112 head-Lacks,
          strtok-append b' ' client.uid (client.passwd ++ b' ' ∷ [])
              (λ e. absurd (omega (arith, ap length e, (uid_form v).0)))
              (digits-Lacks b' ' client.uid (omega arith) (uid_form v).1),
          v.uid_ok,
          strtok-append b' ' client.passwd []
              (λ e. absurd (omega (arith, ap length e, (passwd_form v).0)))
              (alnum-Lacks b' ' client.passwd (omega arith) (passwd_form v).1),
          v.passwd_ok,
          recv_bytes-stop text (some arguments) tail feed-text,
        )
        refl

  serve_tcp_connection-text :
      (w : World)
      → serve_tcp_connection
          (unread (open_message client name fname start_value time_active content) [])
          w
        ≡ handled (open_auction client.uid client.passwd arguments (unread tail []) w)
  unfolding serve_tcp_connection get_tcp_handler_fn c_string zero_buff
  serve_tcp_connection-text w =
      rw
        (
          open_message-words,
          read_tcp_stream-prefix 8 4 (codes "OPA ") (head ++ text) [] refl (omega arith)
              (omega arith),
        )
        (ap handled (handle_open-text w))

  -- The checks of a user who may open an auction.
  open_auction-allowed :
      (w : World)
      → exists_user client.uid w ≡ true
      → is_user_logged_in client.uid w ≡ true
      → is_zero (is_authentic_user client.uid client.passwd w) ≡ false
      → sv ≢ 999999
      → 0 < length content
      → open_auction client.uid client.passwd arguments (unread tail []) w
        ≡ open_answer
            (create_new_auction client.uid name fname sv ta (length content) (unread tail []) w)
  unfolding open_auction
  open_auction-allowed w user logged authentic ne p =
      rw
        (
          atoi-print_dec sv,
          atoi-print_dec ta,
          atoi-print_dec (length content),
          user,
          logged,
          authentic,
        )
        (if_false (sv == 999999) _ _ (ground (arith, ne))
          ∙ if_false (length content == 0 || ltb 10000000 (length content)) _ _
              (ground (arith, small, p)))

handled-open_answer : (r : Option ℕ × Conn × World) → handled (open_answer r) ≡ open_answer r
unfolding handled open_answer
handled-open_answer (none, conn, w) = refl
handled-open_answer (some aid, conn, w) = refl

-- What `open` prints is what the server reads: for a user whom it knows and has logged in under that
-- password, valid arguments, a start value other than 999999 and an asset of one to 10000000 bytes,
-- it takes the client's message apart and calls `create_new_auction` with the name, the file's name,
-- the start value and the duration that the user typed, the asset's size, and a connection that
-- holds the asset with its newline; what it answers is that call's result.
pub serve_tcp_connection-open :
    (client : ClientState) (name fname start_value time_active content : Bytes) (w : World)
    → Valid client.uid client.passwd
    → is_valid_name name ≡ true
    → FileName fname
    → is_valid_start_value start_value ≡ true
    → is_valid_time_active time_active ≡ true
    → 0 < length content
    → length content ≤ 10000000
    → pos_part (atoi start_value) ≢ 999999
    → exists_user client.uid w ≡ true
    → is_user_logged_in client.uid w ≡ true
    → is_zero (is_authentic_user client.uid client.passwd w) ≡ false
    → serve_tcp_connection
        (unread (open_message client name fname start_value time_active content) [])
        w
      ≡ open_answer (
          create_new_auction client.uid name fname
            (pos_part (atoi start_value))
            (pos_part (atoi time_active))
            (length content)
            (unread (content ++ b'\n' ∷ []) [])
            w)
serve_tcp_connection-open client name fname start_value time_active content w v hn k hs ht p small
      ne user logged authentic =
    serve_tcp_connection-text client v name fname start_value time_active content hn k hs ht small w
    ∙ ap handled (
        open_auction-allowed client v name fname start_value time_active content hn k hs ht small w
          user logged authentic ne p)
    ∙ handled-open_answer _
