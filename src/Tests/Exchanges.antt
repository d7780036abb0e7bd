-- ===== src/Tests/Exchanges.antt =====
-- The client and the server on small databases.
use auction_server.Common.{
  ◌≡◌, refl, ap, true, false, some, [], ◌∷◌, ◌++◌, List, Bytes, codes, arith,
}
use auction_server.Validators.{is_valid_uid, is_valid_passwd}
use auction_server.Database.Account.{account}
use auction_server.Udp.Session.Spec.{Serving}
use auction_server.Client.{ClientState, returned}
use auction_server.Client.Commands.{client_after}
use auction_server.Os.{fopen_r, contents, lookup, path_eq}
use auction_server.Database.Users.{is_open}
use auction_server.Client.Session.{handle_login, handle_logout, handle_unregister}
use auction_server.Exchange.{Joint, server}
use auction_server.Exchange.Session.{Valid}
use auction_server.Exchange.Session.Login.{Ends, login_outcome, handle_login-Ends}
use auction_server.Exchange.Session.Logout.{
  logout_outcome, unregister_outcome, handle_logout_unregister-Ends,
}
use auction_server.Exchange.Session.Agreement.{
  Typing, login, logout, Agrees, session, session-Agrees, session-logout,
}
use auction_server.Tests.Worlds.{empty, empty-Serving, uid, passwd}

-- A client that has just been started, and one on which the user has logged in.
abbrev fresh : ClientState
fresh = record { logged_in = false; uid = []; passwd = [] }

abbrev logged_on : ClientState
logged_on = record { logged_in = true; uid = uid; passwd = passwd }

abbrev start : Joint
start = record { world = empty; files = [] }

abbrev words : Bytes
words = uid ++ b' ' ∷ passwd

valid : Valid uid passwd
unfolding is_valid_uid is_valid_passwd
valid = record { uid_ok = refl; passwd_ok = refl }

handle_login-Ends_example :
    Ends uid
      (login_outcome (account uid empty) uid passwd fresh)
      start
      (handle_login server words fresh start)
handle_login-Ends_example = handle_login-Ends uid passwd fresh start valid empty-Serving refl

abbrev joined : Joint
joined = (handle_login server words fresh start).1

joined-Serving : Serving joined.world
joined-Serving = (handle_login-Ends uid passwd fresh start valid empty-Serving refl).serving

handle_logout_unregister-Ends_example :
    Ends uid
      (logout_outcome (account uid joined.world) logged_on)
      joined
      (handle_logout server [] logged_on joined)
    × Ends uid
        (unregister_outcome (account uid joined.world) logged_on)
        joined
        (handle_unregister server [] logged_on joined)
handle_logout_unregister-Ends_example =
    handle_logout_unregister-Ends [] logged_on joined valid joined-Serving refl

abbrev typed : List Typing
typed = login words ∷ logout [] ∷ login (codes "123456 secret00") ∷ []

fresh-Agrees : Agrees fresh start
fresh-Agrees = record {
  serving = empty-Serving;
  valid = λ on. absurd (ground (arith, on));
  on_server = λ on. absurd (ground (arith, on));
}

session-Agrees_example : Agrees (session typed fresh start).0 (session typed fresh start).1
session-Agrees_example = session-Agrees typed fresh start fresh-Agrees

still_on : (session (login words ∷ []) fresh start).0.logged_in ≡ true
unfolding session client_after fopen_r contents lookup path_eq is_open
still_on =
    ap (λ r. (client_after r fresh).logged_in)
      (handle_login-Ends uid passwd fresh start valid empty-Serving refl).result

session-logout_example :
    let (client', j') = session (login words ∷ []) fresh start in
    let (r, j'') = handle_logout server [] client' j' in
    (r ≡ returned 0 (codes "Successful logout\n") (record client' { logged_in = false }))
    × (account client'.uid j''.world ≡ some (client'.passwd, false))
session-logout_example = session-logout (login words ∷ []) fresh start [] fresh-Agrees still_on
