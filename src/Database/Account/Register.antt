-- ===== src/Database/Account/Register.antt =====
-- `register_user`: six calls of the system, one after the other.
use auction_server.Common.{
  if_if, ◌≡◌, refl, ◌∙◌, true, false, none, some, Bytes, [], append-nil, bytes_eq,
}
use auction_server.Os.{
  user_dir, hosted_dir, bidded_dir, login_file, pass_file, path_eq, dir, file, lookup, World,
  write_start, open_creat, is_absent, text_of, contents,
}
use auction_server.Os.Laws.{path_eq_refl}
use auction_server.Database.Effects.{
  Ready, ensure_dir-Wrote, open_creat-Wrote, write_start-Wrote, text_at,
}
use auction_server.Database.Monad.{ensure_dir}
use auction_server.Database.Users.{register_user}
use auction_server.Database.Account.{
  account, Sets, accounts_of_reads, account-absent, drop-nil, pass_pass, login_login, pass_login,
  login_pass,
}

-- The three directories of a user.
abbrev make_dirs : Bytes → World → World
make_dirs uid w =
    (ensure_dir (bidded_dir uid) (ensure_dir (hosted_dir uid) (ensure_dir (user_dir uid) w).1).1).1

record Housed (uid : Bytes) (w w' : World) : Type 0 where
  user_done : (ensure_dir (user_dir uid) w).0 ≡ true
  hosted_done : (ensure_dir (hosted_dir uid) (ensure_dir (user_dir uid) w).1).0 ≡ true
  bidded_done :
      (ensure_dir
        (bidded_dir uid)
        (ensure_dir (hosted_dir uid) (ensure_dir (user_dir uid) w).1).1).0
      ≡ true
  ready : Ready w'
  home : lookup (user_dir uid) w'.fs ≡ some dir
  pass_kept : (v : Bytes) → lookup (pass_file v) w'.fs ≡ lookup (pass_file v) w.fs
  login_kept : (v : Bytes) → lookup (login_file v) w'.fs ≡ lookup (login_file v) w.fs
  count : w'.auc_count ≡ w.auc_count
  clock : w'.now ≡ w.now

make_dirs-Housed : (uid : Bytes) (w : World) → Ready w → Housed uid w (make_dirs uid w)
unfolding path_eq
make_dirs-Housed uid w r =
    let a = ensure_dir-Wrote (user_dir uid) w r refl r.database.users_there in
    let w1 = (ensure_dir (user_dir uid) w).1 in
    let home1 : lookup (user_dir uid) w1.fs ≡ some dir =
      a.reads (user_dir uid) ∙ rw (path_eq_refl (user_dir uid)) in
    let b = ensure_dir-Wrote (hosted_dir uid) w1 a.ready refl home1 in
    let w2 = (ensure_dir (hosted_dir uid) w1).1 in
    let home2 = b.reads (user_dir uid) ∙ home1 in
    let c = ensure_dir-Wrote (bidded_dir uid) w2 b.ready refl home2 in
    record {
      user_done = a.done;
      hosted_done = b.done;
      bidded_done = c.done;
      ready = c.ready;
      home = c.reads (user_dir uid) ∙ home2;
      pass_kept = λ v. c.reads (pass_file v) ∙ b.reads (pass_file v) ∙ a.reads (pass_file v);
      login_kept = λ v. c.reads (login_file v) ∙ b.reads (login_file v) ∙ a.reads (login_file v);
      count = c.count ∙ b.count ∙ a.count;
      clock = c.clock ∙ b.clock ∙ a.clock;
    }

user_login : (u v : Bytes) → path_eq (user_dir u) (login_file v) ≡ false
unfolding path_eq
user_login u v = refl

-- Registering who has no account gives the account, logged in, and changes no other.
pub register_user-Sets :
    (uid p : Bytes) (w : World)
    → Ready w
    → account uid w ≡ none
    → Sets uid (some (p, true)) w (register_user uid p w)
unfolding register_user is_absent text_of contents
register_user-Sets uid p w r e =
    let housed = make_dirs-Housed uid w r in
    let w3 = make_dirs uid w in
    let login = open_creat-Wrote (login_file uid) w3 housed.ready refl housed.home in
    let w4 = (open_creat (login_file uid) w3).1 in
    let home4 : lookup (user_dir uid) w4.fs ≡ some dir =
      login.reads (user_dir uid) ∙ rw user_login housed.home in
    let pass = open_creat-Wrote (pass_file uid) w4 login.ready refl home4 in
    let w5 = (open_creat (pass_file uid) w4).1 in
    let fresh : lookup (pass_file uid) w4.fs ≡ none =
      login.reads (pass_file uid)
      ∙ rw pass_login (housed.pass_kept uid ∙ account-absent uid w r e) in
    let empty : lookup (pass_file uid) w5.fs ≡ some (file []) =
      pass.reads (pass_file uid) ∙ rw (path_eq_refl (pass_file uid), fresh) in
    let filled = write_start-Wrote (pass_file uid) [] p w5 pass.ready empty in
    rw
      (housed.user_done, housed.hosted_done, housed.bidded_done, login.done, pass.done, filled.done)
      (record {
        done = refl;
        ready = filled.ready;
        accounts = λ v.
            accounts_of_reads uid (some (file p)) (some (file (text_at (login_file uid) w3))) w.fs
              (write_start (pass_file uid) p w5).1.fs
              (λ u.
                filled.reads (pass_file u)
                ∙ rw
                    (
                      pass_pass,
                      pass.reads (pass_file u),
                      pass_pass,
                      login.reads (pass_file u),
                      pass_login,
                      housed.pass_kept u,
                      drop-nil,
                      append-nil,
                    )
                    (if_if (bytes_eq u uid) _ _ _))
              (λ u.
                filled.reads (login_file u)
                ∙ rw (
                  login_pass,
                  pass.reads (login_file u),
                  login_pass,
                  login.reads (login_file u),
                  login_login,
                  housed.login_kept u,
                ))
              v;
        count = filled.count ∙ pass.count ∙ login.count ∙ housed.count;
        clock = filled.clock ∙ pass.clock ∙ login.clock ∙ housed.clock;
      })
