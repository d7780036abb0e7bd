-- ===== src/Database/Users.antt =====
-- The users of server/database.c.
use auction_server.Common.{Bool, true, false, Option, none, some, if◌then◌else◌, Bytes, bytes_eq}
use auction_server.Common.Int.{ℤ, pos, negsuc}
use auction_server.Os.{
  user_dir, hosted_dir, bidded_dir, login_file, pass_file, World, open_creat, fopen_r, write_start,
  remove, fgets,
}
use auction_server.Database.Monad.{Action, ◌>>◌, ensure_dir}

unfoldable pub is_open : Option Bytes → Bool
is_open none = false
is_open (some _) = true

unfoldable pub exists_user : Bytes → World → Bool
unfolding is_open
exists_user uid w = is_open (fopen_r (pass_file uid) w)

unfoldable pub is_user_logged_in : Bytes → World → Bool
unfolding is_open
is_user_logged_in uid w = is_open (fopen_r (login_file uid) w)

-- `strcmp(stored_password, passwd) == 0 ? 1 : 0`, or -1 where `fgets` returns NULL
compare_stored : Option Bytes → Bytes → ℤ
compare_stored none passwd = negsuc 0
compare_stored (some stored) passwd = if bytes_eq stored passwd then pos 1 else pos 0

check_password : Option Bytes → Bytes → ℤ
unfolding compare_stored
check_password none passwd = pos 0
check_password (some s) passwd = compare_stored (fgets 16 s) passwd

unfoldable pub is_authentic_user : Bytes → Bytes → World → ℤ
unfolding check_password
is_authentic_user uid passwd w = check_password (fopen_r (pass_file uid) w) passwd

unfoldable pub log_in_user : Bytes → Action
log_in_user uid = open_creat (login_file uid)

unfoldable pub log_out_user : Bytes → Action
log_out_user uid = remove (login_file uid)

-- A password that cannot be written is removed with its file.
unfoldable pub write_password : Bytes → Bytes → Action
write_password uid passwd w =
    let (written, w') = write_start (pass_file uid) passwd w in
    if written then (true, w') else (false, (remove (pass_file uid) w').1)

unfoldable pub register_user : Bytes → Bytes → Action
unfolding write_password
register_user uid passwd = do
  ensure_dir (user_dir uid)
  ensure_dir (hosted_dir uid)
  ensure_dir (bidded_dir uid)
  open_creat (login_file uid)
  open_creat (pass_file uid)
  write_password uid passwd

unfoldable pub unregister_user : Bytes → Action
unregister_user uid = do remove (login_file uid); remove (pass_file uid)
