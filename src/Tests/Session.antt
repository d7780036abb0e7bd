-- ===== src/Tests/Session.antt =====
-- The session commands on a small database.
use auction_server.Common.{◌≡◌, refl, true, some, [], ◌∷◌, codes}
use auction_server.Libc.{strtok}
use auction_server.Validators.{is_valid_uid, is_valid_passwd}
use auction_server.Os.{
  user_dir, pass_file, login_file, dir, lookup, path_eq, World, fopen_r, contents, file, open_creat,
}
use auction_server.Database.Account.{account}
use auction_server.Tests.Worlds.{empty, empty-Serving, request, uid, passwd}
use auction_server.Udp.Session.{credentials, answer, handle_login, handle_logout, handle_unregister}
use auction_server.Database.Users.{log_in_user}
use auction_server.Udp.Session.EmptyPassword.{handle_login_empty_password}
use auction_server.Udp.Session.Refine.{
  handle_login-Refines, handle_logout-Refines, handle_unregister-Refines,
}
use auction_server.Udp.Session.Spec.{
  Serving, Refines, OnlyAt, spec_login, spec_logout, spec_unregister,
}

request-credentials : credentials request ≡ some (uid, passwd)
unfolding credentials is_valid_uid is_valid_passwd strtok
request-credentials = refl

handle_login-Refines_example :
    Refines uid (spec_login (account uid empty) passwd) empty (handle_login request empty)
handle_login-Refines_example =
    handle_login-Refines request uid passwd empty empty-Serving request-credentials

-- The server once the user has logged in.
abbrev joined : World
joined = (handle_login request empty).1

joined-Serving : Serving joined
joined-Serving =
    (handle_login-Refines request uid passwd empty empty-Serving request-credentials).serving

handle_unregister-Refines_example :
    Refines uid
      (spec_unregister (account uid joined) passwd)
      joined
      (handle_unregister request joined)
handle_unregister-Refines_example =
    handle_unregister-Refines request uid passwd joined joined-Serving request-credentials

-- The user with an empty password file.
abbrev blank : World
blank = record empty { fs = (pass_file uid, file []) ∷ (user_dir uid, dir) ∷ empty.fs }

handle_login_empty_password_example :
    handle_login request blank ≡ answer (codes "RLI OK\n") 7 (log_in_user uid blank).1
handle_login_empty_password_example =
    handle_login_empty_password request uid passwd blank request-credentials stored done
  where
    stored : fopen_r (pass_file uid) blank ≡ some []
    stored = unfold fopen_r contents lookup path_eq in refl

    done : (log_in_user uid blank).0 ≡ true
    done = unfold log_in_user open_creat lookup path_eq in refl

handle_logout-Refines_example :
    Refines uid (spec_logout (account uid joined) passwd) joined (handle_logout request joined)
    × OnlyAt (login_file uid) joined (handle_logout request joined).1
handle_logout-Refines_example =
    handle_logout-Refines request uid passwd joined joined-Serving request-credentials
