-- ===== src/Exchange/Session/Agreement.antt =====
-- Client and server agree on who is logged in, over any sequence of session commands.
use auction_server.Common.{
  ℕ, ◌≡◌, refl, ap, ◌∙◌, true, false, not, Option, none, some, List, [], ◌∷◌, arith, Bytes, codes,
  bytes_eq, bytes_eq_refl, bytes_eq_iff, Bool-cases, inl, inr, if_false, if_true,
}
use auction_server.Libc.{strtok}
use auction_server.Validators.{is_valid_uid, is_valid_passwd}
use auction_server.Database.Account.{Account, account}
use auction_server.Udp.Session.Spec.{Serving}
use auction_server.Client.{ClientState, Result, returned, err_already_logged_in, err_not_logged_in}
use auction_server.Client.Commands.{client_after}
use auction_server.Client.Session.{
  LoginArgs, user, bad_args, login_args, uid_arg, passwd_arg, handle_login, handle_logout,
  handle_unregister,
}
use auction_server.Exchange.{Joint, server}
use auction_server.Exchange.Session.{Valid}
use auction_server.Exchange.Session.Login.{Ends, login_outcome, login-Ends}
use auction_server.Exchange.Session.Logout.{
  logout_outcome, unregister_outcome, handle_logout_unregister-Ends,
}

-- A session command with its arguments.
pub data Typing : Type 0 where
  login : Bytes → Typing
  logout : Bytes → Typing
  unregister : Bytes → Typing

abbrev run_typing : Typing → ClientState → Joint → Result × Joint
run_typing (login input) client j = handle_login server input client j
run_typing (logout input) client j = handle_logout server input client j
run_typing (unregister input) client j = handle_unregister server input client j

-- The client's state and the world after the commands, one after the other.
unfoldable pub session : List Typing → ClientState → Joint → ClientState × Joint
unfolding client_after
session [] client j = (client, j)
session (t ∷ ts) client j =
    let (r, j') = run_typing t client j in session ts (client_after r client) j'

-- A client that is logged in holds a valid UID and password, and the server's account has that
-- password and a session.
pub record Agrees (client : ClientState) (j : Joint) : Type 0 where
  pub serving : Serving j.world
  pub valid : client.logged_in ≡ true → Valid client.uid client.passwd
  pub on_server : client.logged_in ≡ true → account client.uid j.world ≡ some (client.passwd, true)

-- Only a valid UID and a valid password are arguments of `login`.
passwd_arg-Valid :
    (uid : Bytes) (o : Option Bytes) {u p : Bytes}
    → is_valid_uid uid ≡ true
    → passwd_arg uid o ≡ user u p
    → Valid u p
unfolding passwd_arg
passwd_arg-Valid uid none v h = absurd (ground arith)
passwd_arg-Valid uid (some q) {u} {p} v h = elim (Bool-cases (is_valid_passwd q)) [
  | inl e ↦ record { uid_ok = ground (arith, e, v, h); passwd_ok = ground (arith, e, h) }
  | inr e ↦ absurd (ground (arith, e, h))
]

uid_arg-Valid : (o : Option Bytes × Bytes) {u p : Bytes} → uid_arg o ≡ user u p → Valid u p
unfolding uid_arg
uid_arg-Valid (none, rest) h = absurd (ground arith)
uid_arg-Valid (some uid, rest) {u} {p} h = elim (Bool-cases (is_valid_uid uid)) [
  | inl e ↦ passwd_arg-Valid uid (strtok b' ' rest).0 e (rw e at h)
  | inr e ↦ absurd (ground (arith, e, h))
]

login_args-Valid : (input : Bytes) {u p : Bytes} → login_args input ≡ user u p → Valid u p
unfolding login_args
login_args-Valid input h = uid_arg-Valid (strtok b' ' input) h

-- The state behind a handler that shows a text.
after-Ends :
    (uid : Bytes) (out : Bytes × ClientState × Account) (client : ClientState) (j : Joint)
    (r : Result × Joint)
    → Ends uid out j r
    → (out.1.logged_in ≡ true → Valid out.1.uid out.1.passwd)
    → (out.1.logged_in ≡ true → (out.1.uid ≡ uid) × (out.2 ≡ some (out.1.passwd, true)))
    → Agrees (client_after r.0 client) r.1
unfolding client_after
after-Ends uid out client j r k v h = rw k.result (record {
  serving = k.serving;
  valid = v;
  on_server = λ on. k.accounts out.1.uid ∙ rw ((h on).0, bytes_eq_refl uid) (h on).1;
})

-- A command that only reports an error.
unchanged :
    (e : ℕ) (client : ClientState) (j : Joint) (r : Result × Joint)
    → Agrees client j
    → r ≡ (returned e [] client, j)
    → Agrees (client_after r.0 client) r.1
unfolding client_after
unchanged e client j r a h = rw h a

login_outcome-Agrees :
    (a : Account) (uid passwd : Bytes) (client : ClientState) (j : Joint) (r : Result × Joint)
    → Valid uid passwd
    → client.logged_in ≡ false
    → Ends uid (login_outcome a uid passwd client) j r
    → Agrees (client_after r.0 client) r.1
login_outcome-Agrees none uid passwd client j r v off k =
    after-Ends uid _ client j r k (λ on. v) (λ on. (refl, refl))
login_outcome-Agrees (some (stored, s)) uid passwd client j r v off k =
    elim (Bool-cases (bytes_eq stored passwd)) [
      | inl same ↦
          after-Ends uid _ client j r (rw same at k) (λ on. v)
            (λ on. (refl, ap (λ x. some (x, true)) ((bytes_eq_iff stored passwd).0 same)))
      | inr other ↦
          after-Ends uid _ client j r (rw other at k) (λ on. absurd (ground (arith, on, off)))
            (λ on. absurd (ground (arith, on, off)))
    ]

login-Agrees :
    (input : Bytes) (client : ClientState) (j : Joint)
    → Agrees client j
    → Agrees
        (client_after (handle_login server input client j).0 client)
        (handle_login server input client j).1
unfolding handle_login
login-Agrees input client j a = elim (Bool-cases client.logged_in) [
  | inl on ↦
      unchanged err_already_logged_in client j (handle_login server input client j) a
        (if_true client.logged_in _ _ on)
  | inr off ↦ parsed (login_args input) refl off
]
  where
    parsed :
        (args : LoginArgs)
        → login_args input ≡ args
        → client.logged_in ≡ false
        → Agrees
            (client_after (handle_login server input client j).0 client)
            (handle_login server input client j).1
    parsed (bad_args e) g off =
        unchanged e client j _ a
          (unfold handle_login in if_false client.logged_in _ _ off ∙ rw g refl)
    parsed (user u p) g off =
        let v = login_args-Valid input g in
        login_outcome-Agrees _ u p client j _ v off
          (login-Ends v client j a.serving _ input g refl off)

-- The state of a client whose session may end.
off-Agrees :
    (out : Bytes × ClientState × Account) (client : ClientState) (j : Joint) (r : Result × Joint)
    → Ends client.uid out j r
    → out.1.logged_in ≡ false
    → Agrees (client_after r.0 client) r.1
off-Agrees out client j r k off =
    after-Ends client.uid out client j r k (λ b. absurd (ground (arith, b, off)))
      (λ b. absurd (ground (arith, b, off)))

logout_outcome-off :
    (client : ClientState) (j : Joint)
    → Agrees client j
    → client.logged_in ≡ true
    → (logout_outcome (account client.uid j.world) client).1.logged_in ≡ false
logout_outcome-off client j a on = rw (a.on_server on, bytes_eq_refl client.passwd) refl

unregister_outcome-off :
    (client : ClientState) (j : Joint)
    → Agrees client j
    → client.logged_in ≡ true
    → (unregister_outcome (account client.uid j.world) client).1.logged_in ≡ false
unregister_outcome-off client j a on = rw (a.on_server on, bytes_eq_refl client.passwd) refl

logout-Agrees :
    (input : Bytes) (client : ClientState) (j : Joint)
    → Agrees client j
    → Agrees
        (client_after (handle_logout server input client j).0 client)
        (handle_logout server input client j).1
unfolding handle_logout
logout-Agrees input client j a = elim (Bool-cases client.logged_in) [
  | inl on ↦
      off-Agrees _ client j _
        (handle_logout_unregister-Ends input client j (a.valid on) a.serving on).0
        (logout_outcome-off client j a on)
  | inr off ↦
      unchanged err_not_logged_in client j (handle_logout server input client j) a
        (if_true (not client.logged_in) _ _ (ap not off))
]

unregister-Agrees :
    (input : Bytes) (client : ClientState) (j : Joint)
    → Agrees client j
    → Agrees
        (client_after (handle_unregister server input client j).0 client)
        (handle_unregister server input client j).1
unfolding handle_unregister
unregister-Agrees input client j a = elim (Bool-cases client.logged_in) [
  | inl on ↦
      off-Agrees _ client j _
        (handle_logout_unregister-Ends input client j (a.valid on) a.serving on).1
        (unregister_outcome-off client j a on)
  | inr off ↦
      unchanged err_not_logged_in client j (handle_unregister server input client j) a
        (if_true (not client.logged_in) _ _ (ap not off))
]

-- Where the server's kernel refuses nothing and every message arrives, a client and a server that agree
-- keep agreeing over any sequence of session commands, with any arguments: while the client is logged in, it
-- holds the UID and the password of an account that the server has logged in.
pub session-Agrees :
    (ts : List Typing) (client : ClientState) (j : Joint)
    → Agrees client j
    → Agrees (session ts client j).0 (session ts client j).1
unfolding session
session-Agrees [] client j a = a
session-Agrees (login input ∷ ts) client j a = session-Agrees ts _ _ (login-Agrees input client j a)
session-Agrees (logout input ∷ ts) client j a =
    session-Agrees ts _ _ (logout-Agrees input client j a)
session-Agrees (unregister input ∷ ts) client j a =
    session-Agrees ts _ _ (unregister-Agrees input client j a)

-- Where the server's kernel refuses nothing and every message arrives, and client and server agreed at
-- the start, a user who is still logged in after any sequence of session commands can log out: `logout` succeeds, and ends the session on both
-- sides.
pub session-logout :
    (ts : List Typing) (client : ClientState) (j : Joint) (input : Bytes)
    → Agrees client j
    → (session ts client j).0.logged_in ≡ true
    → let (client', j') = session ts client j in
      let (r, j'') = handle_logout server input client' j' in
      (r ≡ returned 0 (codes "Successful logout\n") (record client' { logged_in = false }))
      × (account client'.uid j''.world ≡ some (client'.passwd, false))
session-logout ts client j input a on =
    let (client', j') = session ts client j in
    let b = session-Agrees ts client j a in
    let k = (handle_logout_unregister-Ends input client' j' (b.valid on) b.serving on).0 in
    let out : logout_outcome (account client'.uid j'.world) client' ≡ (
      codes "Successful logout\n",
      record client' { logged_in = false },
      some (client'.passwd, false),
    ) =
      rw (b.on_server on, bytes_eq_refl client'.passwd) refl in
    (
      k.result ∙ ap (λ o. returned 0 o.0 o.1) out,
      k.accounts client'.uid ∙ rw (bytes_eq_refl client'.uid) (ap (λ o. o.2) out),
    )
