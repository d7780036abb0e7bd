-- ===== src/Udp/Session.antt =====
-- The handlers of server/udp.c for `LIN`, `LOU` and `UNR`. A handler returns its error code, the
-- text that it leaves in `response`, the `response_len` that it sets, and the world.
pub mod EmptyPassword
pub mod Spec
pub mod Request
pub mod Refine
use auction_server.Common.{ℕ, not, Option, none, some, [], if◌then◌else◌, Bytes, codes}
use auction_server.Common.Int.{is_zero}
use auction_server.Libc.{strtok}
use auction_server.Validators.{is_valid_uid, is_valid_passwd}
use auction_server.Os.{World}
use auction_server.Database.Users.{
  exists_user, is_user_logged_in, is_authentic_user, log_in_user, log_out_user, register_user,
  unregister_user,
}

abbrev err_lin : ℕ
err_lin = 1

abbrev err_lou : ℕ
err_lou = 2

abbrev err_unr : ℕ
err_unr = 3

pub record Reply : Type 0 where
  pub err : ℕ
  pub response : Bytes
  pub response_len : ℕ

-- `sprintf(response, text); *response_len = n; return 0;`
abbrev pub answer : Bytes → ℕ → World → Reply × World
answer text n w = (record { err = 0; response = text; response_len = n }, w)

-- `return err;` with nothing written
abbrev pub refuse : ℕ → World → Reply × World
refuse e w = (record { err = e; response = []; response_len = 0 }, w)

valid_passwd : Bytes → Option Bytes → Option (Bytes × Bytes)
valid_passwd uid none = none
valid_passwd uid (some passwd) = if not (is_valid_passwd passwd) then none else some (uid, passwd)

valid_uid : Option Bytes × Bytes → Option (Bytes × Bytes)
unfolding valid_passwd
valid_uid (none, rest) = none
valid_uid (some uid, rest) =
    if not (is_valid_uid uid) then none else valid_passwd uid (strtok b'\n' rest).0

-- The UID and the password of a request, where both are there and valid.
unfoldable pub credentials : Bytes → Option (Bytes × Bytes)
unfolding valid_uid
credentials input = valid_uid (strtok b' ' input)

unfoldable pub login : Option (Bytes × Bytes) → World → Reply × World
login none w = refuse err_lin w
login (some (uid, passwd)) w =
    if not (exists_user uid w)
    then (let (done, w') = register_user uid passwd w in
        if not done then refuse err_lin w' else answer (codes "RLI REG\n") 8 w')
    else if is_zero (is_authentic_user uid passwd w)
    then answer (codes "RLI NOK\n") 8 w
    else (let (done, w') = log_in_user uid w in
        if not done then refuse err_lin w' else answer (codes "RLI OK\n") 7 w')

unfoldable pub handle_login : Bytes → World → Reply × World
unfolding login
handle_login input w = login (credentials input) w

unfoldable pub logout : Option (Bytes × Bytes) → World → Reply × World
logout none w = refuse err_lou w
logout (some (uid, passwd)) w =
    if not (exists_user uid w)
    then answer (codes "RLO UNR\n") 8 w
    else if not (is_user_logged_in uid w)
    then answer (codes "RLO NOK\n") 8 w
    else if is_zero (is_authentic_user uid passwd w)
    then answer (codes "RLO NOK\n") 8 w
    else (let (done, w') = log_out_user uid w in
        if not done then refuse err_lou w' else answer (codes "RLO OK\n") 7 w')

unfoldable pub handle_logout : Bytes → World → Reply × World
unfolding logout
handle_logout input w = logout (credentials input) w

unfoldable pub unregister : Option (Bytes × Bytes) → World → Reply × World
unregister none w = refuse err_unr w
unregister (some (uid, passwd)) w =
    if not (exists_user uid w)
    then answer (codes "RUR UNR\n") 8 w
    else if not (is_user_logged_in uid w)
    then answer (codes "RUR NOK\n") 8 w
    else if is_zero (is_authentic_user uid passwd w)
    then answer (codes "RUR NOK\n") 8 w
    else (let (done, w') = unregister_user uid w in
        if not done then refuse err_unr w' else answer (codes "RUR OK\n") 7 w')

unfoldable pub handle_unregister : Bytes → World → Reply × World
unfolding unregister
handle_unregister input w = unregister (credentials input) w
