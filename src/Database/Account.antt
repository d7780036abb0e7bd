-- ===== src/Database/Account.antt =====
-- What the files say of a user, and what the functions of Database/Users do to it.
pub mod Register
pub mod Queries
use auction_server.Common.{
  ℕ, ◌≡◌, inl, inr, refl, ◌∙◌, Bool, true, false, not, Option, none, some, arith, if◌then◌else◌,
  Bool-cases, Bytes, [], zero, suc, bytes_eq, bytes_eq_iff, drop,
}
use auction_server.Os.{
  FilePath, user_dir, login_file, pass_file, path_eq, Node, dir, file, Files, lookup, World, remove,
  is_absent,
}
use auction_server.Database.Invariant.{Fits}
use auction_server.Database.Effects.{Ready, Removed, open_creat-Wrote, remove-Removed, text_at}
use auction_server.Database.Users.{log_in_user, log_out_user, unregister_user}

-- A user that is registered has a password, and is logged in or not.
abbrev pub Account : Type 0
Account = Option (Bytes × Bool)

abbrev pub account_of : Option Node → Option Node → Account
account_of (some (file s)) login = some (s, not (is_absent login))
account_of _ login = none

abbrev pub account : Bytes → World → Account
account uid w = account_of (lookup (pass_file uid) w.fs) (lookup (login_file uid) w.fs)

-- Which of two users' account files are the same file.
pass_login : (u v : Bytes) → path_eq (pass_file u) (login_file v) ≡ false
unfolding path_eq
pass_login u v = refl

login_pass : (u v : Bytes) → path_eq (login_file u) (pass_file v) ≡ false
unfolding path_eq
login_pass u v = refl

pass_pass : (u v : Bytes) → path_eq (pass_file u) (pass_file v) ≡ bytes_eq u v
unfolding path_eq
pass_pass u v = ground arith

login_login : (u v : Bytes) → path_eq (login_file u) (login_file v) ≡ bytes_eq u v
unfolding path_eq
login_login u v = ground arith

account_of-pass :
    (a b : Option Node) {p : Bytes} {l : Bool} → account_of a b ≡ some (p, l) → a ≡ some (file p)
account_of-pass (some (file s)) b h = cc
account_of-pass (some dir) b h = cc
account_of-pass none b h = cc

account_of-login :
    (a b : Option Node) {p : Bytes}
    → account_of a b ≡ some (p, true)
    → Fits false b
    → (s : Bytes) × (b ≡ some (file s))
unfolding is_absent
account_of-login (some (file t)) (some (file s)) h f = (s, refl)
account_of-login (some (file t)) (some dir) h f = absurd f
account_of-login (some (file t)) none h f = absurd (cc)
account_of-login (some dir) b h f = absurd (cc)
account_of-login none b h f = absurd (cc)

-- A registered user's password file holds the password.
pub account-pass :
    (u : Bytes) (w : World) {p : Bytes} {l : Bool}
    → account u w ≡ some (p, l)
    → lookup (pass_file u) w.fs ≡ some (file p)
account-pass u w h = account_of-pass _ _ h

account-login :
    (u : Bytes) (w : World) {p : Bytes}
    → Ready w
    → account u w ≡ some (p, true)
    → (s : Bytes) × (lookup (login_file u) w.fs ≡ some (file s))
account-login u w r h = account_of-login _ _ h (r.database.kinds (login_file u))

-- The call succeeds, the user's account is the given one, and no other account changes.
pub record Sets (uid : Bytes) (a : Account) (w : World) (r : Bool × World) : Type 0 where
  pub done : r.0 ≡ true
  pub ready : Ready r.1
  pub accounts : (v : Bytes) → account v r.1 ≡ (if bytes_eq v uid then a else account v w)
  pub count : r.1.auc_count ≡ w.auc_count
  pub clock : r.1.now ≡ w.now

-- If the password file and the login file of one user change, so does this one account.
accounts_of_reads :
    (uid : Bytes) (pass login : Option Node) (fs gs : Files)
    → ((v : Bytes)
        → lookup (pass_file v) gs ≡ (if bytes_eq v uid then pass else lookup (pass_file v) fs))
    → ((v : Bytes)
        → lookup (login_file v) gs ≡ (if bytes_eq v uid then login else lookup (login_file v) fs))
    → (v : Bytes)
    → account_of (lookup (pass_file v) gs) (lookup (login_file v) gs) ≡ (
        if bytes_eq v uid
        then account_of pass login
        else account_of (lookup (pass_file v) fs) (lookup (login_file v) fs))
accounts_of_reads uid pass login fs gs hp hl v =
    rw (hp v, hl v) (elim (Bool-cases (bytes_eq v uid)) [ inl e ↦ rw e refl | inr e ↦ rw e refl ])

-- Reading one user's file, after a call that left the file as it was.
same_read :
    (f : Bytes → FilePath) (uid : Bytes) (fs : Files) (v : Bytes)
    → lookup (f v) fs ≡ (if bytes_eq v uid then lookup (f uid) fs else lookup (f v) fs)
same_read f uid fs v = elim (Bool-cases (bytes_eq v uid)) [
  | inl e ↦ rw (e, (bytes_eq_iff v uid).0 e) refl
  | inr e ↦ rw e refl
]

-- The directory of a user that has a password file.
user_there :
    (uid : Bytes) (w : World) {s : Bytes}
    → Ready w
    → lookup (pass_file uid) w.fs ≡ some (file s)
    → lookup (user_dir uid) w.fs ≡ some dir
user_there uid w r e = elim (r.database.closed (pass_file uid)) [
  | inl gone ↦ absurd (ground (arith, e, gone))
  | inr up ↦ up
]

pub log_out_user-Sets :
    (uid p : Bytes) (w : World)
    → Ready w
    → account uid w ≡ some (p, true)
    → Sets uid (some (p, false)) w (log_out_user uid w)
unfolding log_out_user is_absent
log_out_user-Sets uid p w r e =
    let (s, there) = account-login uid w r e in
    let out : Removed (login_file uid) w (log_out_user uid w) =
      remove-Removed (login_file uid) s w r refl there in
    record {
      done = out.done;
      ready = out.ready;
      accounts = λ v.
          accounts_of_reads uid (some (file p)) none w.fs (log_out_user uid w).1.fs
            (λ u.
              out.reads (pass_file u)
              ∙ rw pass_login (same_read pass_file uid w.fs u ∙ rw (account-pass uid w e)))
            (λ u. out.reads (login_file u) ∙ rw login_login) v;
      count = out.count;
      clock = out.clock;
    }

pub log_in_user-Sets :
    (uid p : Bytes) (l : Bool) (w : World)
    → Ready w
    → account uid w ≡ some (p, l)
    → Sets uid (some (p, true)) w (log_in_user uid w)
unfolding log_in_user is_absent
log_in_user-Sets uid p l w r e =
    let up = user_there uid w r (account-pass uid w e) in
    let in_ = open_creat-Wrote (login_file uid) w r refl up in
    record {
      done = in_.done;
      ready = in_.ready;
      accounts = λ v.
          accounts_of_reads uid (some (file p)) (some (file (text_at (login_file uid) w))) w.fs
            (log_in_user uid w).1.fs
            (λ u.
              in_.reads (pass_file u)
              ∙ rw pass_login (same_read pass_file uid w.fs u ∙ rw (account-pass uid w e)))
            (λ u. in_.reads (login_file u) ∙ rw login_login) v;
      count = in_.count;
      clock = in_.clock;
    }

pub unregister_user-Sets :
    (uid p : Bytes) (w : World)
    → Ready w
    → account uid w ≡ some (p, true)
    → Sets uid none w (unregister_user uid w)
unfolding unregister_user
unregister_user-Sets uid p w r e =
    let (s, there) = account-login uid w r e in
    let out = remove-Removed (login_file uid) s w r refl there in
    let w' = (remove (login_file uid) w).1 in
    let pass : lookup (pass_file uid) w'.fs ≡ some (file p) =
      out.reads (pass_file uid) ∙ rw pass_login (account-pass uid w e) in
    let out' = remove-Removed (pass_file uid) p w' out.ready refl pass in
    rw out.done (record {
      done = out'.done;
      ready = out'.ready;
      accounts = λ v.
          accounts_of_reads uid none none w.fs (remove (pass_file uid) w').1.fs
            (λ u. out'.reads (pass_file u) ∙ rw (pass_pass, out.reads (pass_file u), pass_login))
            (λ u.
              out'.reads (login_file u) ∙ rw (login_pass, out.reads (login_file u), login_login))
            v;
      count = out'.count ∙ out.count;
      clock = out'.clock ∙ out.clock;
    })

pub drop-nil : (n : ℕ) → drop {A = ℕ} n [] ≡ []
drop-nil zero = refl
drop-nil (suc n) = refl

-- Who has no account has no password file.
account-absent :
    (u : Bytes) (w : World) → Ready w → account u w ≡ none → lookup (pass_file u) w.fs ≡ none
account-absent u w r h = at (lookup (pass_file u) w.fs) (r.database.kinds (pass_file u)) h
  where
    at :
        (o : Option Node)
        → Fits false o
        → account_of o (lookup (login_file u) w.fs) ≡ none
        → o ≡ none
    at none f e = refl
    at (some dir) f e = absurd f
    at (some (file s)) f e = absurd (cc)
