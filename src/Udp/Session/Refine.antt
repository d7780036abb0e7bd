-- ===== src/Udp/Session/Refine.antt =====
-- The session handlers implement their specification.
use auction_server.Common.{
  ◌≡◌, ◌⊎◌, refl, sym, ap, arith, ◌∙◌, Bool, true, false, none, some, Bytes, length, inl, inr,
  Bool-cases, bytes_eq, bytes_eq_iff, codes,
}
use auction_server.Validators.{is_valid_passwd}
use auction_server.Os.{World, FilePath, lookup, delete, remove, login_file}
use auction_server.Os.Laws.{lookup-delete}
use auction_server.Database.Users.{log_out_user}
use auction_server.Database.Account.{
  Account, account, Sets, log_in_user-Sets, log_out_user-Sets, unregister_user-Sets,
}
use auction_server.Database.Account.Register.{register_user-Sets}
use auction_server.Database.Account.Queries.{
  exists_user-none, exists_user-some, is_user_logged_in-account, is_authentic_user-account,
}
use auction_server.Udp.Session.{
  credentials, login, logout, unregister, handle_login, handle_logout, handle_unregister, answer,
}
use auction_server.Udp.Session.Request.{credentials_valid}
use auction_server.Udp.Session.Spec.{
  spec_login, spec_logout, spec_unregister, Serving, Refines, OnlyAt,
}

-- After a call that sets one account to one with a valid password, or to none.
Sets-Serving :
    (uid : Bytes) (a : Account) (w : World) (r : Bool × World)
    → Serving w
    → Sets uid a w r
    → ((p : Bytes) (l : Bool) → a ≡ some (p, l) → is_valid_passwd p ≡ true)
    → Serving r.1
Sets-Serving uid a w r s k ok = record {
  ready = k.ready;
  passwords = λ u p l e. elim (Bool-cases (bytes_eq u uid)) [
    | inl same ↦ ok p l (sym (k.accounts u ∙ rw same) ∙ e)
    | inr other ↦ s.passwords u p l (sym (k.accounts u ∙ rw other) ∙ e)
  ];
}

-- An answer that leaves the world as it was.
kept-Refines :
    (uid text : Bytes) (w : World)
    → Serving w
    → Refines uid (text, account uid w) w (answer text (length text) w)
kept-Refines uid text w s = record {
  no_error = refl;
  text = refl;
  text_len = refl;
  accounts = λ v. elim (Bool-cases (bytes_eq v uid)) [
    | inl e ↦ rw (e, (bytes_eq_iff v uid).0 e) refl
    | inr e ↦ rw e refl
  ];
  serving = s;
}

-- An answer after a call that sets the account.
set-Refines :
    (uid text : Bytes) (a : Account) (w : World) (r : Bool × World)
    → Serving w
    → Sets uid a w r
    → ((p : Bytes) (l : Bool) → a ≡ some (p, l) → is_valid_passwd p ≡ true)
    → Refines uid (text, a) w (answer text (length text) r.1)
set-Refines uid text a w r s k ok = record {
  no_error = refl;
  text = refl;
  text_len = refl;
  accounts = k.accounts;
  serving = Sets-Serving uid a w r s k ok;
}

valid_of :
    (q p : Bytes) (k l : Bool)
    → ◌≡◌ {A = Account} (some (q, k)) (some (p, l))
    → is_valid_passwd q ≡ true
    → is_valid_passwd p ≡ true
valid_of q p k l h v = let same : q ≡ p = cc in rw (← same) v

login-none :
    (uid q : Bytes) (w : World)
    → Serving w
    → is_valid_passwd q ≡ true
    → account uid w ≡ none
    → Refines uid (spec_login none q) w (login (some (uid, q)) w)
unfolding login spec_login
login-none uid q w s v e =
    let k = register_user-Sets uid q w s.ready e in
    rw (exists_user-none uid w s.ready e, k.done)
      (set-Refines uid (codes "RLI REG\n") _ w _ s k (λ p l h. valid_of q p true l h v))

login-some :
    (uid q p : Bytes) (l : Bool) (w : World)
    → Serving w
    → account uid w ≡ some (p, l)
    → Refines uid (spec_login (some (p, l)) q) w (login (some (uid, q)) w)
unfolding login spec_login
login-some uid q p l w s e =
    let v = s.passwords uid p l e in
    let k = log_in_user-Sets uid p l w s.ready e in
    rw (exists_user-some uid w s.ready e, is_authentic_user-account uid q w s.ready e v)
      (elim (Bool-cases (bytes_eq p q)) [
        | inl same ↦
            rw (same, k.done)
              (set-Refines uid (codes "RLI OK\n") _ w _ s k (λ p' l' h. valid_of p p' true l' h v))
        | inr other ↦ rw (other, ← e) (kept-Refines uid (codes "RLI NOK\n") w s)
      ])

logout-none :
    (uid q : Bytes) (w : World)
    → Serving w
    → account uid w ≡ none
    → Refines uid (spec_logout none q) w (logout (some (uid, q)) w)
unfolding logout spec_logout
logout-none uid q w s e =
    rw (exists_user-none uid w s.ready e, ← e) (kept-Refines uid (codes "RLO UNR\n") w s)

logout-some :
    (uid q p : Bytes) (l : Bool) (w : World)
    → Serving w
    → account uid w ≡ some (p, l)
    → Refines uid (spec_logout (some (p, l)) q) w (logout (some (uid, q)) w)
unfolding logout spec_logout
logout-some uid q p false w s e =
    rw (exists_user-some uid w s.ready e, is_user_logged_in-account uid w s.ready e, ← e)
      (kept-Refines uid (codes "RLO NOK\n") w s)
logout-some uid q p true w s e =
    let v = s.passwords uid p true e in
    let k = log_out_user-Sets uid p w s.ready e in
    rw
      (
        exists_user-some uid w s.ready e,
        is_user_logged_in-account uid w s.ready e,
        is_authentic_user-account uid q w s.ready e v,
      )
      (elim (Bool-cases (bytes_eq p q)) [
        | inl same ↦
            rw (same, k.done)
              (set-Refines uid (codes "RLO OK\n") _ w _ s k (λ p' l' h. valid_of p p' false l' h v))
        | inr other ↦ rw (other, ← e) (kept-Refines uid (codes "RLO NOK\n") w s)
      ])

same-OnlyAt : (p : FilePath) (v w : World) → v ≡ w → OnlyAt p w v
same-OnlyAt p v w e = record {
  others = λ q n. ap (λ x. lookup q x.fs) e;
  count = ap (λ x. x.auc_count) e;
  clock = ap (λ x. x.now) e;
  refusals = ap (λ x. x.refuses) e;
}

remove_cases :
    (p : FilePath) (w : World)
    → ((remove p w).1 ≡ w) ⊎ ((remove p w).1 ≡ record w { fs = delete p w.fs })
unfolding remove
remove_cases p w = ground arith

remove-OnlyAt : (p : FilePath) (w : World) → OnlyAt p w (remove p w).1
remove-OnlyAt p w = elim (remove_cases p w) [
  | inl e ↦ same-OnlyAt p _ w e
  | inr e ↦ rw e (record {
    others = λ q n. lookup-delete q p w.fs ∙ rw n refl;
    count = refl;
    clock = refl;
    refusals = refl;
  })
]

logout_cases :
    (uid q : Bytes) (w : World)
    → ((logout (some (uid, q)) w).1 ≡ w)
      ⊎ ((logout (some (uid, q)) w).1 ≡ (remove (login_file uid) w).1)
unfolding logout log_out_user
logout_cases uid q w = ground arith

logout-OnlyAt : (uid q : Bytes) (w : World) → OnlyAt (login_file uid) w (logout (some (uid, q)) w).1
logout-OnlyAt uid q w = elim (logout_cases uid q w) [
  | inl e ↦ same-OnlyAt (login_file uid) _ w e
  | inr e ↦ rw e (remove-OnlyAt (login_file uid) w)
]

unregister-none :
    (uid q : Bytes) (w : World)
    → Serving w
    → account uid w ≡ none
    → Refines uid (spec_unregister none q) w (unregister (some (uid, q)) w)
unfolding unregister spec_unregister
unregister-none uid q w s e =
    rw (exists_user-none uid w s.ready e, ← e) (kept-Refines uid (codes "RUR UNR\n") w s)

unregister-some :
    (uid q p : Bytes) (l : Bool) (w : World)
    → Serving w
    → account uid w ≡ some (p, l)
    → Refines uid (spec_unregister (some (p, l)) q) w (unregister (some (uid, q)) w)
unfolding unregister spec_unregister
unregister-some uid q p false w s e =
    rw (exists_user-some uid w s.ready e, is_user_logged_in-account uid w s.ready e, ← e)
      (kept-Refines uid (codes "RUR NOK\n") w s)
unregister-some uid q p true w s e =
    let v = s.passwords uid p true e in
    let k = unregister_user-Sets uid p w s.ready e in
    rw
      (
        exists_user-some uid w s.ready e,
        is_user_logged_in-account uid w s.ready e,
        is_authentic_user-account uid q w s.ready e v,
      )
      (elim (Bool-cases (bytes_eq p q)) [
        | inl same ↦
            rw (same, k.done)
              (set-Refines uid (codes "RUR OK\n") none w _ s k (λ p' l' h. absurd (cc)))
        | inr other ↦ rw (other, ← e) (kept-Refines uid (codes "RUR NOK\n") w s)
      ])

-- On a server whose kernel refuses nothing, `handle_login` with a valid UID and password answers
-- as specified (REG for a new user, OK for the right password, NOK for a wrong one), sets the
-- length of that answer, changes this user's account as specified and no other, and leaves a
-- server of the same kind.
pub handle_login-Refines :
    (input uid passwd : Bytes) (w : World)
    → Serving w
    → credentials input ≡ some (uid, passwd)
    → Refines uid (spec_login (account uid w) passwd) w (handle_login input w)
unfolding handle_login
handle_login-Refines input uid passwd w s c = rw c (at (account uid w) refl)
  where
    at :
        (a : Account)
        → account uid w ≡ a
        → Refines uid (spec_login a passwd) w (login (some (uid, passwd)) w)
    at none e = login-none uid passwd w s (credentials_valid input c).1 e
    at (some (p, l)) e = login-some uid passwd p l w s e

-- On a server whose kernel refuses nothing, `handle_logout` with a valid UID and password answers UNR
-- for an unknown user, NOK for one who is not logged in or sends a wrong password, and otherwise OK
-- and ends the session; it changes nothing but this user's login file, in the files or elsewhere.
pub handle_logout-Refines :
    (input uid passwd : Bytes) (w : World)
    → Serving w
    → credentials input ≡ some (uid, passwd)
    → Refines uid (spec_logout (account uid w) passwd) w (handle_logout input w)
      × OnlyAt (login_file uid) w (handle_logout input w).1
unfolding handle_logout
handle_logout-Refines input uid passwd w s c =
    rw c (at (account uid w) refl, logout-OnlyAt uid passwd w)
  where
    at :
        (a : Account)
        → account uid w ≡ a
        → Refines uid (spec_logout a passwd) w (logout (some (uid, passwd)) w)
    at none e = logout-none uid passwd w s e
    at (some (p, l)) e = logout-some uid passwd p l w s e

-- On a server whose kernel refuses nothing, `handle_unregister` with a valid UID and password answers
-- as `handle_logout` does, and with OK removes the account; it changes no other account.
pub handle_unregister-Refines :
    (input uid passwd : Bytes) (w : World)
    → Serving w
    → credentials input ≡ some (uid, passwd)
    → Refines uid (spec_unregister (account uid w) passwd) w (handle_unregister input w)
unfolding handle_unregister
handle_unregister-Refines input uid passwd w s c = rw c (at (account uid w) refl)
  where
    at :
        (a : Account)
        → account uid w ≡ a
        → Refines uid (spec_unregister a passwd) w (unregister (some (uid, passwd)) w)
    at none e = unregister-none uid passwd w s e
    at (some (p, l)) e = unregister-some uid passwd p l w s e
