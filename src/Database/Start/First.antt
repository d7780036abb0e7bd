-- ===== src/Database/Start/First.antt =====
-- What a start leaves is a database, on an empty directory too.
use auction_server.Common.{
  ◌≡◌, ◌⊎◌, inl, inr, refl, sym, ◌∙◌, true, false, Option, none, some, List, [], ◌∷◌, Bool-cases,
  Bytes,
}
use mathlib.Core.Path.{subst}
use auction_server.Database.Keeping.{is_fixed}
use auction_server.Os.{
  FilePath, root, users, auctions, parent, path_eq, lookup, insert, dir, Files, World, Call, is_dir,
  is_absent, mkdir, scandir,
}
use auction_server.Database.Invariant.{IsDatabase, Fits, wants_dir}
use auction_server.Database.Monad.{Action, ◌>>◌, ensure_dir, tolerate}
use auction_server.Database.Keeping.Calls.{ensure_dir-Kept}
use auction_server.Database.Start.{make_root, chdir, count_entries, load_db_state, init_database}

-- The three directories, and nothing else.
abbrev pub three : Files
three = (root, dir) ∷ (users, dir) ∷ (auctions, dir) ∷ []

three-kinds : (p : FilePath) → Fits (wants_dir p) (lookup p three)
unfolding lookup path_eq
three-kinds root = tt
three-kinds _ = tt

three-closed : (p : FilePath) → (lookup p three ≡ none) ⊎ (lookup (parent p) three ≡ some dir)
unfolding lookup path_eq
three-closed root = inr refl
three-closed users = inr refl
three-closed auctions = inr refl
three-closed _ = inl refl

pub three-IsDatabase : IsDatabase three
unfolding lookup path_eq
three-IsDatabase = record {
  root_there = refl;
  users_there = refl;
  auctions_there = refl;
  kinds = three-kinds;
  closed = three-closed;
}

count_entries-fs : (names : Option (List Bytes)) (w : World) → (count_entries names w).1.fs ≡ w.fs
unfolding count_entries
count_entries-fs none w = refl
count_entries-fs (some names) w = refl

-- A step that returns 0 has made the files `fs'` from `fs`.
abbrev Makes : Action → Files → Files → Type 0
Makes m fs fs' = (w : World) → w.fs ≡ fs → (m w).0 ≡ true → (m w).1.fs ≡ fs'

then-Makes : (m k : Action) (a b c : Files) → Makes m a b → Makes k b c → Makes (m >> k) a c
then-Makes m k a b c h next w e d = elim (Bool-cases (m w).0) [
  | inl f ↦ rw f (next (m w).1 (h w e f) (rw f at d))
  | inr f ↦ absurd (cc (rw f at d))
]

load_db_state-Makes : (fs : Files) → Makes load_db_state fs fs
unfolding load_db_state
load_db_state-Makes fs w e d = count_entries-fs (scandir auctions w) w ∙ e

chdir-Makes : (p : FilePath) (fs : Files) → Makes (chdir p) fs fs
unfolding chdir
chdir-Makes p fs w e d = e

make_root-Makes : Makes make_root [] ((root, dir) ∷ [])
unfolding make_root lookup insert is_absent
make_root-Makes w e d = elim (Bool-cases (w.refuses Call.making root)) [
  | inl r ↦ absurd (cc (rw r at d))
  | inr r ↦ rw (r, e) refl
]

-- `mkdir` in the root, where the name is free.
ensure_dir-Makes :
    (p : FilePath) (fs : Files)
    → lookup p fs ≡ none
    → lookup (parent p) fs ≡ some dir
    → Makes (ensure_dir p) fs (insert p dir fs)
unfolding ensure_dir mkdir is_absent is_dir tolerate
ensure_dir-Makes p fs absent up w e d = elim (Bool-cases (w.refuses Call.making p)) [
  | inl r ↦ absurd (cc (rw r at d))
  | inr r ↦ rw (r, e, absent, up) refl
]

init_database-Makes : Makes init_database [] three
unfolding init_database lookup insert path_eq
init_database-Makes =
    let after_users : Action = ensure_dir auctions >> load_db_state in
    let after_chdir : Action = ensure_dir users >> after_users in
    let after_root : Action = chdir root >> after_chdir in
    let one : Files = (root, dir) ∷ [] in
    let two : Files = (root, dir) ∷ (users, dir) ∷ [] in
    then-Makes make_root after_root [] one three make_root-Makes (
      then-Makes (chdir root) after_chdir one one three (chdir-Makes root one) (
        then-Makes (ensure_dir users) after_users one two three
          (ensure_dir-Makes users one refl refl)
          (then-Makes (ensure_dir auctions) load_db_state two three three
            (ensure_dir-Makes auctions two refl refl) (load_db_state-Makes three))))

-- A step that keeps a database.
abbrev Keeps : Action → Type 0
Keeps m = (w : World) → IsDatabase w.fs → IsDatabase (m w).1.fs

then-Keeps : (m k : Action) → Keeps m → Keeps k → Keeps (m >> k)
then-Keeps m k h next w db = elim (Bool-cases (m w).0) [
  | inl e ↦ rw e (next (m w).1 (h w db))
  | inr e ↦ rw e (h w db)
]

make_root-Keeps : Keeps make_root
unfolding make_root is_absent
make_root-Keeps w db = elim (Bool-cases (w.refuses Call.making root)) [
  | inl r ↦ rw r db
  | inr r ↦ rw (r, db.root_there) db
]

load_db_state-Keeps : Keeps load_db_state
unfolding load_db_state
load_db_state-Keeps w db = subst IsDatabase (sym (count_entries-fs (scandir auctions w) w)) db

ensure_dir-Keeps : (p : FilePath) → is_fixed p ≡ false → wants_dir p ≡ true → Keeps (ensure_dir p)
ensure_dir-Keeps p f d w db = (ensure_dir-Kept 0 p w db (inl f) d).database

chdir-Keeps : (p : FilePath) → Keeps (chdir p)
unfolding chdir
chdir-Keeps p w db = db

init_database-Keeps : Keeps init_database
unfolding init_database
init_database-Keeps =
    let after_users : Action = ensure_dir auctions >> load_db_state in
    let after_chdir : Action = ensure_dir users >> after_users in
    then-Keeps make_root (chdir root >> after_chdir) make_root-Keeps (
      then-Keeps (chdir root) after_chdir (chdir-Keeps root) (
        then-Keeps (ensure_dir users) after_users (ensure_dir-Keeps users refl refl) (
          then-Keeps (ensure_dir auctions) load_db_state (ensure_dir-Keeps auctions refl refl)
            load_db_state-Keeps)))

-- A start that succeeds leaves a database, where ASDIR holds nothing or a database.
pub init_database-IsDatabase :
    (w : World)
    → (w.fs ≡ []) ⊎ IsDatabase w.fs
    → (init_database w).0 ≡ true
    → IsDatabase (init_database w).1.fs
init_database-IsDatabase w (inl e) d =
    subst IsDatabase (sym (init_database-Makes w e d)) three-IsDatabase
init_database-IsDatabase w (inr db) d = init_database-Keeps w db
