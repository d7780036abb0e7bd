-- ===== src/Database/Keeping.antt =====
-- What every call of server/database.c leaves as it was, whatever the kernel refuses: the tree stays
-- a tree, and of an auction that has been opened nothing is removed, and its START file and its asset
-- are never written again.
pub mod Calls
pub mod Lines
pub mod Removing
pub mod Rollback
pub mod Auctions
pub mod Creating
pub mod Users
use auction_server.Common.{
  ℕ, ◌≤◌, ◌≡◌, ◌≢◌, ◌⊎◌, inl, inr, refl, sym, ◌∙◌, Bool, true, false, Option, none, some, Bytes,
  Bool-cases,
}
use mathlib.Core.Path.{subst}
use auction_server.Os.{
  FilePath, auction_dir, bids_dir, asset_dir, start_file, end_file, bid_file, asset_file, parent,
  path_eq, Node, dir, Files, lookup, insert, delete, World, put,
}
use auction_server.Os.Laws.{lookup-insert, lookup-delete, path_eq_sound, path_eq_refl}
use auction_server.Database.Invariant.{wants_dir, Fits, IsDatabase, insert-IsDatabase}
use auction_server.Database.Monad.{Action, ◌>>◌}
use auction_server.Database.Names.{aid_of}

-- The auction that a path belongs to.
abbrev pub auction_of : FilePath → Option Bytes
auction_of (auction_dir a) = some a
auction_of (bids_dir a) = some a
auction_of (asset_dir a) = some a
auction_of (start_file a) = some a
auction_of (end_file a) = some a
auction_of (bid_file a n) = some a
auction_of (asset_file a n) = some a
auction_of _ = none

-- Is the file written once, when its auction is opened?
abbrev pub is_fixed : FilePath → Bool
is_fixed (start_file a) = true
is_fixed (asset_file a n) = true
is_fixed _ = false

-- The path belongs to none of the auctions numbered up to `n`.
abbrev pub Free : ℕ → FilePath → Type 0
Free n p = (m : ℕ) → m ≤ n → auction_of p ≢ some (aid_of m)

-- What may become of a path while `n` auctions are open.
pub data Allowed (n : ℕ) (p : FilePath) (before after : Option Node) : Type 0 where
  same : after ≡ before → Allowed n p before after
  rewritten : is_fixed p ≡ false → after ≢ none → Allowed n p before after
  free : Free n p → Allowed n p before after

pub Allowed-trans :
    (n : ℕ) (p : FilePath) (a b c : Option Node)
    → Allowed n p a b
    → Allowed n p b c
    → Allowed n p a c
Allowed-trans n p a b c (free f) k = free f
Allowed-trans n p a b c (same e) (same f) = same (f ∙ e)
Allowed-trans n p a b c (same e) (rewritten h k) = rewritten h k
Allowed-trans n p a b c (same e) (free f) = free f
Allowed-trans n p a b c (rewritten h k) (same e) = rewritten h (λ x. k (sym e ∙ x))
Allowed-trans n p a b c (rewritten h k) (rewritten i l) = rewritten i l
Allowed-trans n p a b c (rewritten h k) (free f) = free f

abbrev pub Frame : ℕ → Files → Files → Type 0
Frame n fs fs' = (q : FilePath) → Allowed n q (lookup q fs) (lookup q fs')

pub Frame-trans : (n : ℕ) (a b c : Files) → Frame n a b → Frame n b c → Frame n a c
Frame-trans n a b c f g q = Allowed-trans n q (lookup q a) (lookup q b) (lookup q c) (f q) (g q)

-- A path that may be written while `n` auctions are open.
abbrev pub Writable : ℕ → FilePath → Type 0
Writable n p = (is_fixed p ≡ false) ⊎ Free n p

-- A database stays one, and the change is allowed.
pub record Kept (n : ℕ) (w w' : World) : Type 0 where
  pub database : IsDatabase w'.fs
  pub frame : Frame n w.fs w'.fs
  pub count : w'.auc_count ≡ w.auc_count

pub Kept-refl : (n : ℕ) (w : World) → IsDatabase w.fs → Kept n w w
Kept-refl n w db = record { database = db; frame = λ q. same refl; count = refl }

pub Kept-trans : (n : ℕ) (a b c : World) → Kept n a b → Kept n b c → Kept n a c
Kept-trans n a b c h k = record {
  database = k.database;
  frame = Frame-trans n a.fs b.fs c.fs h.frame k.frame;
  count = k.count ∙ h.count;
}

-- A later step runs only where the first returned 0.
pub then-Kept :
    (n : ℕ) (m k : Action) (w : World)
    → Kept n w (m w).1
    → ((m w).0 ≡ true → Kept n (m w).1 (k (m w).1).1)
    → Kept n w ((m >> k) w).1
then-Kept n m k w h next = elim (Bool-cases (m w).0) [
  | inl e ↦ rw e (Kept-trans n w (m w).1 (k (m w).1).1 h (next e))
  | inr e ↦ rw e h
]

put-Kept :
    (n : ℕ) (p : FilePath) (node : Node) (w : World)
    → IsDatabase w.fs
    → Writable n p
    → Fits (wants_dir p) (some node)
    → lookup (parent p) w.fs ≡ some dir
    → Kept n w (put p node w)
put-Kept n p node w db ok f up = record {
  database = insert-IsDatabase p node w.fs db f up;
  frame = λ q. elim (Bool-cases (path_eq q p)) [
    | inl e ↦
        subst (λ r. Allowed n r (lookup r w.fs) (lookup r (insert p node w.fs)))
          (sym (path_eq_sound q p e)) (here ok)
    | inr e ↦ same (rw (lookup-insert q p node w.fs, e) refl)
  ];
  count = refl;
}
  where
    written : lookup p (insert p node w.fs) ≡ some node
    written = rw (lookup-insert p p node w.fs, path_eq_refl p) refl

    here : Writable n p → Allowed n p (lookup p w.fs) (lookup p (insert p node w.fs))
    here (inl h) = rewritten h (λ x. cc (sym written ∙ x))
    here (inr h) = free h

delete-Frame : (n : ℕ) (p : FilePath) (fs : Files) → Free n p → Frame n fs (delete p fs)
delete-Frame n p fs ok q = elim (Bool-cases (path_eq q p)) [
  | inl e ↦ free (subst (Free n) (sym (path_eq_sound q p e)) ok)
  | inr e ↦ same (rw (lookup-delete q p fs, e) refl)
]
