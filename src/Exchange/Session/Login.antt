-- ===== src/Exchange/Session/Login.antt =====
-- `login uid passwd`, typed by a user, on the server's accounts and the client's state.
use auction_server.Common.{
  ◌≡◌, refl, sym, ◌∙◌, true, false, none, some, ◌∷◌, ◌++◌, arith, if◌then◌else◌, Bytes, codes, ap,
  bytes_eq, length, take_of_le, if_false, Bool-cases, inl, inr,
}
use mathlib.Core.Path.{subst}
use auction_server.Libc.Strtok.{strtok-append, strtok-Lacks}
use auction_server.Os.{World, take_bytes}
use auction_server.Database.Account.{Account, account}
use auction_server.Udp.Session.{Reply, handle_login}
use auction_server.Udp.Session.Refine.{handle_login-Refines}
use auction_server.Udp.Session.Request.{credentials_lem}
use auction_server.Udp.Session.Spec.{Serving, Refines, spec_login}
use auction_server.Udp.Dispatch.{
  serve_datagram, sent, handled, handle_udp_command, get_udp_handler_fn,
}
use auction_server.Client.{
  ClientState, Result, returned, on_response, receive_udp_response, datagram, other_errno,
}
use auction_server.Client.Session.{
  login_args, LoginArgs, user, session_message, logged, login_status,
}
use auction_server.Client.Session as Typed
use auction_server.Exchange.{Joint, server}
use auction_server.Exchange.Session.{
  Valid, uid_form, passwd_form, words, serve_datagram-session, digits-Lacks, alnum-Lacks,
}

-- The text shown, the client's state, and the account of a user who logs in.
abbrev pub login_outcome : Account → Bytes → Bytes → ClientState → Bytes × ClientState × Account
login_outcome none uid passwd client = (
  codes "New user registered\n",
  record client { logged_in = true; uid = uid; passwd = passwd },
  some (passwd, true),
)
login_outcome (some (stored, on)) uid passwd client =
    if bytes_eq stored passwd
    then (
      codes "Successful login\n",
      record client { logged_in = true; uid = uid; passwd = passwd },
      some (stored, true),
    )
    else (codes "Incorrect login attempt\n", client, some (stored, on))

-- The result shows the text and the state; the account of `uid` is as given, all others are as they
-- were, the server serves, and the client's files are untouched.
pub record Ends (uid : Bytes) (out : Bytes × ClientState × Account) (j : Joint) (r : Result × Joint)
    : Type 0 where
  pub result : r.0 ≡ returned 0 out.0 out.1
  pub accounts :
      (v : Bytes) → account v r.1.world ≡ (if bytes_eq v uid then out.2 else account v j.world)
  pub serving : Serving r.1.world
  pub files : r.1.files ≡ j.files

login_args-Valid :
    {uid passwd : Bytes} → Valid uid passwd → login_args (uid ++ b' ' ∷ passwd) ≡ user uid passwd
unfolding login_args
login_args-Valid {uid} {passwd} v =
    rw
      (
        strtok-append b' ' uid passwd (λ e. absurd (omega (arith, ap length e, (uid_form v).0)))
            (digits-Lacks b' ' uid (omega arith) (uid_form v).1),
        v.uid_ok,
        strtok-Lacks b' ' passwd (λ e. absurd (omega (arith, ap length e, (passwd_form v).0)))
            (alnum-Lacks b' ' passwd (omega arith) (passwd_form v).1),
        v.passwd_ok,
      )
      refl

-- From the server's theorem to the end of the client's handler.
pub Refines-Ends :
    (uid : Bytes) (out : Bytes × ClientState × Account) (text : Bytes) (j : Joint)
    (served : Reply × World) (r : Result × Joint)
    → Refines uid (text, out.2) j.world served
    → r ≡ (returned 0 out.0 out.1, record j { world = served.1 })
    → Ends uid out j r
Refines-Ends uid out text j served r k e = record {
  result = ap (λ x. x.0) e;
  accounts = λ v. ap (λ x. account v x.1.world) e ∙ k.accounts v;
  serving = subst (λ x. Serving x.1.world) (sym e) k.serving;
  files = ap (λ x. x.1.files) e;
}

module _ {uid passwd : Bytes} (v : Valid uid passwd) (client : ClientState) (j : Joint)
    (s : Serving j.world) where
  abbrev served : Reply × World
  served = handle_login (words uid passwd) j.world

  login-served :
      (a : Account) → account uid j.world ≡ a → Refines uid (spec_login a passwd) j.world served
  unfolding handle_login
  login-served a e = rw (← e) (
      handle_login-Refines _ uid passwd j.world s (credentials_lem uid passwd v.uid_ok v.passwd_ok))

  login-sent :
      (a : Account)
      → account uid j.world ≡ a
      → serve_datagram (session_message (codes "LIN ") uid passwd) j.world
        ≡ sent (spec_login a passwd).0 served.1
  unfolding handle_udp_command get_udp_handler_fn take_bytes handled
  login-sent a e =
      serve_datagram-session v (codes "LIN ") handle_login (spec_login a passwd) j.world refl
        (omega arith, (omega arith, (omega arith, (omega arith, tt)))) refl (login-served a e)

  -- What the handler makes of the server's answer.
  login-received :
      (a : Account) (input : Bytes)
      → login_args input ≡ user uid passwd
      → account uid j.world ≡ a
      → client.logged_in ≡ false
      → Typed.handle_login server input client j ≡ (
        on_response
            (login_status uid passwd client)
            client
            (receive_udp_response 31 (datagram other_errno (spec_login a passwd).0)),
        record j { world = served.1 },
      )
  unfolding Typed.handle_login server
  login-received a input g e off = if_false client.logged_in _ _ off ∙ rw (g, login-sent a e) refl

  logged-Valid :
      logged uid passwd client ≡ record client { logged_in = true; uid = uid; passwd = passwd }
  unfolding logged
  logged-Valid =
      rw
        (
          take_of_le 6 uid (omega (arith, (uid_form v).0)),
          take_of_le 8 passwd (omega (arith, (passwd_form v).0)),
        )
        refl

  pub login-Ends :
      (a : Account) (input : Bytes)
      → login_args input ≡ user uid passwd
      → account uid j.world ≡ a
      → client.logged_in ≡ false
      → Ends uid (login_outcome a uid passwd client) j (Typed.handle_login server input client j)
  unfolding login_status spec_login on_response receive_udp_response bytes_eq
  login-Ends none input g e off =
      Refines-Ends uid (login_outcome none uid passwd client) (codes "RLI REG\n") j served _
        (login-served none e) (login-received none input g e off ∙ rw logged-Valid refl)
  login-Ends (some (stored, on)) input g e off = elim (Bool-cases (bytes_eq stored passwd)) [
    | inl same ↦
        let k = rw same at (login-served (some (stored, on)) e) in
        let h = rw same at (login-received (some (stored, on)) input g e off) in
        rw same (Refines-Ends uid _ (codes "RLI OK\n") j served _ k (h ∙ rw logged-Valid refl))
    | inr other ↦
        let k = rw other at (login-served (some (stored, on)) e) in
        let h = rw other at (login-received (some (stored, on)) input g e off) in
        rw other (Refines-Ends uid _ (codes "RLI NOK\n") j served _ k h)
  ]

-- A user who types `login` with a valid UID and password, logged out and on a server whose kernel
-- refuses nothing, is told what the account calls for: a new user is registered, the right password
-- logs in, a wrong one is told so. The client's state and this account change accordingly, and no
-- other account does.
pub handle_login-Ends :
    (uid passwd : Bytes) (client : ClientState) (j : Joint)
    → Valid uid passwd
    → Serving j.world
    → client.logged_in ≡ false
    → Ends uid
        (login_outcome (account uid j.world) uid passwd client)
        j
        (Typed.handle_login server (uid ++ b' ' ∷ passwd) client j)
handle_login-Ends uid passwd client j v s off =
    login-Ends v client j s _ (uid ++ b' ' ∷ passwd) (login_args-Valid v) refl off
