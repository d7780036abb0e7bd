-- ===== src/Udp/Session/EmptyPassword.antt =====
-- What an empty password file does.
use auction_server.Common.{◌≡◌, true, some, arith, Bytes, [], codes}
use auction_server.Os.{World, fopen_r, pass_file, fgets}
use auction_server.Database.Users.{is_authentic_user, exists_user, is_open, log_in_user}
use auction_server.Udp.Session.{handle_login, credentials, answer}

-- A user whose password file is empty is logged in with whatever well-formed password is sent,
-- because the -1 of `is_authentic_user` is not 0.
pub handle_login_empty_password :
    (request uid passwd : Bytes) (w : World)
    → credentials request ≡ some (uid, passwd)
    → fopen_r (pass_file uid) w ≡ some []
    → (log_in_user uid w).0 ≡ true
    → handle_login request w ≡ answer (codes "RLI OK\n") 7 (log_in_user uid w).1
unfolding handle_login is_authentic_user exists_user is_open fgets
handle_login_empty_password request uid passwd w c e l = ground (arith, c, e, l)
