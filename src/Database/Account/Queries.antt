-- ===== src/Database/Account/Queries.antt =====
-- The status functions, in terms of the account.
use auction_server.Common.{
  ◌≡◌, refl, ◌∙◌, ap, Bool, true, false, not, none, some, Option, if◌then◌else◌, Bytes, arith, [],
  ◌∷◌, bytes_eq, length, All,
}
use auction_server.Common.Int.{pos}
use auction_server.Libc.Strtok.{Lacks}
use auction_server.Validators.{is_valid_passwd}
use auction_server.Validators.Laws.{is_valid_passwd_iff, IsAlnum}
use auction_server.Os.{
  login_file, pass_file, dir, file, World, Node, is_absent, fgets, fopen_r, contents, Call,
}
use auction_server.Database.Invariant.{Fits}
use auction_server.Database.Effects.{Ready}
use auction_server.Os.Reading.{fgets_whole}
use auction_server.Database.Users.{is_open, exists_user, is_user_logged_in, is_authentic_user}
use auction_server.Database.Account.{account, account_of, account-pass, account-absent}

pub exists_user-none :
    (u : Bytes) (w : World) → Ready w → account u w ≡ none → exists_user u w ≡ false
unfolding exists_user fopen_r
exists_user-none u w r e = rw (r.willing Call.reading (pass_file u), account-absent u w r e)

pub exists_user-some :
    (u : Bytes) (w : World) {p : Bytes} {l : Bool}
    → Ready w
    → account u w ≡ some (p, l)
    → exists_user u w ≡ true
unfolding exists_user fopen_r
exists_user-some u w r e = rw (r.willing Call.reading (pass_file u), account-pass u w e)

-- A file is open where it is there.
contents-is_open : (o : Option Node) → Fits false o → is_open (contents o) ≡ not (is_absent o)
unfolding is_open contents is_absent
contents-is_open none f = refl
contents-is_open (some dir) f = absurd f
contents-is_open (some (file s)) f = refl

account_of-logged :
    (o : Option Node) {p q : Bytes} {l : Bool}
    → account_of (some (file q)) o ≡ some (p, l)
    → not (is_absent o) ≡ l
account_of-logged o h = ground arith

pub is_user_logged_in-account :
    (u : Bytes) (w : World) {p : Bytes} {l : Bool}
    → Ready w
    → account u w ≡ some (p, l)
    → is_user_logged_in u w ≡ l
unfolding is_user_logged_in fopen_r
is_user_logged_in-account u w {p} {l} r e = rw (r.willing Call.reading (login_file u)) (
    contents-is_open _ (r.database.kinds (login_file u))
    ∙ account_of-logged _ (rw (account-pass u w e) at e))

IsAlnum-Lacks : (s : Bytes) → All IsAlnum s → Lacks b'\n' s
IsAlnum-Lacks [] h = tt
IsAlnum-Lacks (c ∷ s) h = (ground (arith, h.0), IsAlnum-Lacks s h.1)

fgets-passwd : (p : Bytes) → is_valid_passwd p ≡ true → fgets 16 p ≡ some p
fgets-passwd p v =
    let (eight, alnum) = (is_valid_passwd_iff p).0 v in
    fgets_whole 16 p (λ e. absurd (omega (arith, ap length e))) (omega arith)
      (IsAlnum-Lacks p alnum)

-- A stored password that is valid is compared whole.
pub is_authentic_user-account :
    (u q : Bytes) (w : World) {p : Bytes} {l : Bool}
    → Ready w
    → account u w ≡ some (p, l)
    → is_valid_passwd p ≡ true
    → is_authentic_user u q w ≡ (if bytes_eq p q then pos 1 else pos 0)
unfolding is_authentic_user fopen_r contents
is_authentic_user-account u q w {p} r e v =
    rw (r.willing Call.reading (pass_file u), account-pass u w e, fgets-passwd p v)
