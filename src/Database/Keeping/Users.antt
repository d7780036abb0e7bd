-- ===== src/Database/Keeping/Users.antt =====
-- The operations on users keep the tree, and leave every auction as it is.
use auction_server.Common.{ℕ, refl, Bool-cases, inl, inr, Bytes}
use auction_server.Os.{
  user_dir, hosted_dir, bidded_dir, login_file, pass_file, World, open_creat, remove, write_start,
}
use auction_server.Database.Invariant.{IsDatabase}
use auction_server.Database.Monad.{Action, ◌>>◌, ensure_dir}
use auction_server.Database.Users.{
  log_in_user, log_out_user, register_user, unregister_user, write_password,
}
use auction_server.Database.Keeping.{Free, Kept, Kept-trans, then-Kept}
use auction_server.Database.Keeping.Calls.{InDir, open_creat-Opening, write_start-Opening}
use auction_server.Database.Keeping.Lines.{ensure_dir-then, open_creat-then}
use auction_server.Database.Keeping.Removing.{remove-Kept}

module _ (n : ℕ) (uid : Bytes) where
  login-Free : Free n (login_file uid)
  login-Free m l e = cc e

  pass-Free : Free n (pass_file uid)
  pass-Free m l e = cc e

  pub log_in_user-Kept : (w : World) → IsDatabase w.fs → Kept n w (log_in_user uid w).1
  unfolding log_in_user
  log_in_user-Kept w db = (open_creat-Opening n (login_file uid) w db (inl refl) refl).kept

  pub log_out_user-Kept : (w : World) → IsDatabase w.fs → Kept n w (log_out_user uid w).1
  unfolding log_out_user
  log_out_user-Kept w db = remove-Kept n (login_file uid) w db login-Free refl

  pub unregister_user-Kept : (w : World) → IsDatabase w.fs → Kept n w (unregister_user uid w).1
  unfolding unregister_user
  unregister_user-Kept w db =
      let out = remove-Kept n (login_file uid) w db login-Free refl in
      then-Kept n (remove (login_file uid)) (remove (pass_file uid)) w out
        λ _. remove-Kept n (pass_file uid) (remove (login_file uid) w).1 out.database pass-Free refl

  write_password-Kept :
      (passwd : Bytes) (w : World)
      → IsDatabase w.fs
      → InDir (pass_file uid) w
      → Kept n w (write_password uid passwd w).1
  unfolding write_password
  write_password-Kept passwd w db up =
      let p = pass_file uid in
      let o = write_start-Opening n p passwd w db (inl refl) refl up in
      elim (Bool-cases (write_start p passwd w).0) [
        | inl e ↦ rw e o.kept
        | inr e ↦ rw e (
            Kept-trans n w (write_start p passwd w).1 _ o.kept
              (remove-Kept n p (write_start p passwd w).1 o.kept.database pass-Free refl))
      ]

  pub register_user-Kept :
      (passwd : Bytes) (w : World) → IsDatabase w.fs → Kept n w (register_user uid passwd w).1
  unfolding register_user
  register_user-Kept passwd w db =
      let p = pass_file uid in
      let a3 : Action = open_creat p >> write_password uid passwd in
      let a2 : Action = open_creat (login_file uid) >> a3 in
      let a1 : Action = ensure_dir (bidded_dir uid) >> a2 in
      let a0 : Action = ensure_dir (hosted_dir uid) >> a1 in
      ensure_dir-then n (user_dir uid) a0 w db (inl refl) refl λ w1 d1.
        ensure_dir-then n (hosted_dir uid) a1 w1 d1 (inl refl) refl λ w2 d2.
          ensure_dir-then n (bidded_dir uid) a2 w2 d2 (inl refl) refl λ w3 d3.
            open_creat-then n (login_file uid) a3 w3 d3 (inl refl) refl λ w4 d4 _.
              open_creat-then n p (write_password uid passwd) w4 d4 (inl refl) refl
                λ w5 d5 up. write_password-Kept passwd w5 d5 up
