-- ===== src/Exchange/Session.antt =====
-- `login`, `logout` and `unregister` from the user's words to the server's files and back.
pub mod Login
pub mod Logout
pub mod Agreement
use auction_server.Common.{
  ℕ, ◌≡◌, ◌≤◌, refl, sym, ap, ◌∙◌, true, [], ◌∷◌, ◌++◌, arith, Bytes, length, length-append,
  take_of_le, if_false, ◌==◌, ◌<◌, append_assoc, All,
}
use auction_server.Libc.Strtok.{Lacks}
use auction_server.Libc.Numbers.{IsDigit}
use auction_server.Validators.{is_valid_uid, is_valid_passwd}
use auction_server.Validators.Laws.{is_valid_uid_iff, is_valid_passwd_iff, IsAlnum}
use auction_server.Os.{World}
use auction_server.Database.Account.{Account}
use auction_server.Udp.Session.{Reply}
use auction_server.Udp.Session.Spec.{Refines}
use auction_server.Udp.Dispatch.{
  c_string, last_byte, serve_datagram, handled, handle_udp_command, send, sent,
}
use auction_server.Client.{response, receive_udp_response, Errno, datagram}
use auction_server.Client.Session.{session_message}

pub last_byte-append : (s : Bytes) (c : ℕ) → last_byte (s ++ c ∷ []) ≡ c
unfolding last_byte
last_byte-append [] c = refl
last_byte-append (x ∷ []) c = refl
last_byte-append (x ∷ y ∷ s) c = last_byte-append (y ∷ s) c

pub c_string-Lacks : (s : Bytes) → Lacks 0 s → c_string s ≡ s
unfolding c_string
c_string-Lacks [] h = refl
c_string-Lacks (c ∷ s) h = ground (arith, c_string-Lacks s h.1)

pub Lacks-append : (d : ℕ) (s t : Bytes) → Lacks d s → Lacks d t → Lacks d (s ++ t)
Lacks-append d [] t h k = k
Lacks-append d (c ∷ s) t h k = (h.0, Lacks-append d s t h.1 k)

-- A request that the server's UDP thread takes is handed to the command's handler.
pub serve_datagram-handled :
    (message : Bytes) (w : World)
    → length message ≤ 19
    → Lacks 0 message
    → serve_datagram (message ++ b'\n' ∷ []) w
      ≡ send (handle_udp_command (message ++ b'\n' ∷ []) w) w
unfolding serve_datagram
serve_datagram-handled message w l h =
    rw
      (
        last_byte-append message b'\n',
        c_string-Lacks (message ++ b'\n' ∷ []) (Lacks-append 0 message _ h (omega arith, tt)),
        length-append message (b'\n' ∷ []),
      )
      (ground arith)

-- A line that fits into the client's buffer is received as it is.
pub receive_udp_response-line :
    (size : ℕ) (e : Errno) (message : Bytes)
    → length message < size
    → Lacks 0 message
    → receive_udp_response size (datagram e (message ++ b'\n' ∷ []))
      ≡ response (message ++ b'\n' ∷ [])
unfolding receive_udp_response
receive_udp_response-line size e message l h =
    rw
      (
        take_of_le size (message ++ b'\n' ∷ [])
            (omega (arith, l, length-append message (b'\n' ∷ []))),
        last_byte-append message b'\n',
        c_string-Lacks (message ++ b'\n' ∷ []) (Lacks-append 0 message _ h (omega arith, tt)),
      )
      (if_false (length (message ++ b'\n' ∷ []) == 0) _ _
        (ground (arith, length-append message (b'\n' ∷ []))))

-- What the handler of `UID password\n` answers is what the client's `recvfrom` finds.
handled-Refines :
    (uid : Bytes) (spec : Bytes × Account) (w : World) (r : Reply × World)
    → Refines uid spec w r
    → send (handled r) w ≡ sent spec.0 r.1
unfolding send handled
handled-Refines uid spec w r k =
    rw (k.no_error, k.text, k.text_len) (rw (take_of_le (length spec.0) spec.0 (omega arith)) refl)

-- The two words of a session command, as the client sends them.
abbrev words : Bytes → Bytes → Bytes
words uid passwd = uid ++ b' ' ∷ (passwd ++ b'\n' ∷ [])

-- A valid UID and password.
pub record Valid (uid passwd : Bytes) : Type 0 where
  pub uid_ok : is_valid_uid uid ≡ true
  pub passwd_ok : is_valid_passwd passwd ≡ true

pub digits-Lacks : (d : ℕ) (s : Bytes) → d ≤ b' ' → All IsDigit s → Lacks d s
digits-Lacks d [] l h = tt
digits-Lacks d (c ∷ s) l h = (omega (arith, h.0), digits-Lacks d s l h.1)

pub alnum-Lacks : (d : ℕ) (s : Bytes) → d ≤ b' ' → All IsAlnum s → Lacks d s
alnum-Lacks d [] l h = tt
alnum-Lacks d (c ∷ s) l h = (ground (arith, h.0), alnum-Lacks d s l h.1)

module _ {uid passwd : Bytes} (v : Valid uid passwd) where
  pub uid_form : (length uid ≡ 6) × All IsDigit uid
  uid_form = (is_valid_uid_iff uid).0 v.uid_ok

  pub passwd_form : (length passwd ≡ 8) × All IsAlnum passwd
  passwd_form = (is_valid_passwd_iff passwd).0 v.passwd_ok

  session_message-words : (op : Bytes) → session_message op uid passwd ≡ op ++ words uid passwd
  unfolding session_message
  session_message-words op =
      rw
        (
          take_of_le 6 uid (omega (arith, uid_form.0)),
          take_of_le 8 passwd (omega (arith, passwd_form.0)),
        )
        refl

  words-end : words uid passwd ≡ (uid ++ b' ' ∷ passwd) ++ b'\n' ∷ []
  words-end = sym (append_assoc uid (b' ' ∷ passwd) (b'\n' ∷ []))

  words-Lacks : Lacks 0 (uid ++ b' ' ∷ passwd)
  words-Lacks =
      Lacks-append 0 uid (b' ' ∷ passwd) (digits-Lacks 0 uid (omega arith) uid_form.1)
        (omega arith, alnum-Lacks 0 passwd (omega arith) passwd_form.1)

  length-words : length (uid ++ b' ' ∷ passwd) ≡ 15
  length-words = omega (arith, length-append uid (b' ' ∷ passwd), uid_form.0, passwd_form.0)

  -- One of the three requests, and the datagram that the server sends back.
  serve_datagram-session :
      (op : Bytes) (fn : Bytes → World → Reply × World) (spec : Bytes × Account) (w : World)
      → length op ≡ 4
      → Lacks 0 op
      → handle_udp_command (op ++ words uid passwd) w ≡ handled (fn (words uid passwd) w)
      → Refines uid spec w (fn (words uid passwd) w)
      → serve_datagram (session_message op uid passwd) w ≡ sent spec.0 (fn (words uid passwd) w).1
  serve_datagram-session op fn spec w four clean h k =
      let message = op ++ (uid ++ b' ' ∷ passwd) in
      let whole : op ++ words uid passwd ≡ message ++ b'\n' ∷ [] =
        ap (◌++◌ op) words-end ∙ sym (append_assoc op (uid ++ b' ' ∷ passwd) (b'\n' ∷ [])) in
      ap (λ m. serve_datagram m w) (session_message-words op ∙ whole)
      ∙ serve_datagram-handled message w
          (omega (arith, length-append op (uid ++ b' ' ∷ passwd), four, length-words))
          (Lacks-append 0 op _ clean words-Lacks)
      ∙ ap (λ m. send (handle_udp_command m w) w) (sym whole)
      ∙ ap (λ o. send o w) h
      ∙ handled-Refines uid spec w (fn (words uid passwd) w) k
