-- ===== src/Udp/Session/Spec.antt =====
-- What the session commands promise, on the account of one user.
use auction_server.Common.{
  ◌≡◌, Bool, true, false, none, some, if◌then◌else◌, Bytes, codes, bytes_eq, length,
}
use auction_server.Validators.{is_valid_passwd}
use auction_server.Os.{World, FilePath, path_eq, lookup}
use auction_server.Database.Effects.{Ready}
use auction_server.Database.Account.{Account, account}
use auction_server.Udp.Session.{Reply}

-- The reply, and the account afterwards.
unfoldable pub spec_login : Account → Bytes → Bytes × Account
spec_login none passwd = (codes "RLI REG\n", some (passwd, true))
spec_login (some (stored, logged)) passwd =
    if bytes_eq stored passwd
    then (codes "RLI OK\n", some (stored, true))
    else (codes "RLI NOK\n", some (stored, logged))

unfoldable pub spec_logout : Account → Bytes → Bytes × Account
spec_logout none passwd = (codes "RLO UNR\n", none)
spec_logout (some (stored, false)) passwd = (codes "RLO NOK\n", some (stored, false))
spec_logout (some (stored, true)) passwd =
    if bytes_eq stored passwd
    then (codes "RLO OK\n", some (stored, false))
    else (codes "RLO NOK\n", some (stored, true))

unfoldable pub spec_unregister : Account → Bytes → Bytes × Account
spec_unregister none passwd = (codes "RUR UNR\n", none)
spec_unregister (some (stored, false)) passwd = (codes "RUR NOK\n", some (stored, false))
spec_unregister (some (stored, true)) passwd =
    if bytes_eq stored passwd
    then (codes "RUR OK\n", none)
    else (codes "RUR NOK\n", some (stored, true))

-- The files are a database, the kernel refuses nothing, and stored passwords are valid.
pub record Serving (w : World) : Type 0 where
  pub ready : Ready w
  pub passwords : (u p : Bytes) (l : Bool) → account u w ≡ some (p, l) → is_valid_passwd p ≡ true

-- The two worlds differ in one file at most.
pub record OnlyAt (p : FilePath) (w w' : World) : Type 0 where
  pub others : (q : FilePath) → path_eq q p ≡ false → lookup q w'.fs ≡ lookup q w.fs
  pub count : w'.auc_count ≡ w.auc_count
  pub clock : w'.now ≡ w.now
  pub refusals : w'.refuses ≡ w.refuses

-- The handler answers as specified, sets the length of its answer, changes this one account as
-- specified, and leaves a server that serves.
pub record Refines (uid : Bytes) (spec : Bytes × Account) (w : World) (r : Reply × World)
    : Type 0 where
  pub no_error : r.0.err ≡ 0
  pub text : r.0.response ≡ spec.0
  pub text_len : r.0.response_len ≡ length spec.0
  pub accounts : (v : Bytes) → account v r.1 ≡ (if bytes_eq v uid then spec.1 else account v w)
  pub serving : Serving r.1
