-- ===== src/Database/Invariant.antt =====
-- What the files below ASDIR keep: a path is a directory or a file by its place, and stands in a
-- directory that is there.
use auction_server.Common.{
  ◌≡◌, ◌⊎◌, inl, inr, refl, sym, ap, ◌∙◌, Bool, true, false, Option, none, some, arith, Bool-cases,
}
use mathlib.Core.Path.{subst}
use auction_server.Os.{
  FilePath, root, users, auctions, user_dir, hosted_dir, bidded_dir, auction_dir, bids_dir,
  asset_dir, parent, path_eq, Node, dir, file, Files, lookup, insert, delete, Call, World,
}
use auction_server.Os.Laws.{lookup-insert, lookup-delete, path_eq_sound}

-- Is this the path of a directory?
abbrev pub wants_dir : FilePath → Bool
wants_dir root = true
wants_dir users = true
wants_dir auctions = true
wants_dir (user_dir _) = true
wants_dir (hosted_dir _) = true
wants_dir (bidded_dir _) = true
wants_dir (auction_dir _) = true
wants_dir (bids_dir _) = true
wants_dir (asset_dir _) = true
wants_dir _ = false

abbrev pub Fits : Bool → Option Node → Type 0
Fits d none = Unit
Fits true (some dir) = Unit
Fits true (some (file _)) = ⊥
Fits false (some dir) = ⊥
Fits false (some (file _)) = Unit

pub record IsDatabase (fs : Files) : Type 0 where
  pub root_there : lookup root fs ≡ some dir
  pub users_there : lookup users fs ≡ some dir
  pub auctions_there : lookup auctions fs ≡ some dir
  pub kinds : (p : FilePath) → Fits (wants_dir p) (lookup p fs)
  pub closed : (p : FilePath) → (lookup p fs ≡ none) ⊎ (lookup (parent p) fs ≡ some dir)

-- The kernel refuses no call.
abbrev pub Willing : World → Type 0
Willing w = (c : Call) (p : FilePath) → w.refuses c p ≡ false

wants_dir-parent : (p : FilePath) → wants_dir (parent p) ≡ true
wants_dir-parent root = refl
wants_dir-parent _ = refl

Fits-dir : (n : Node) → Fits true (some n) → n ≡ dir
Fits-dir dir h = refl
Fits-dir (file s) h = absurd h

-- A directory stays one, whatever fitting node is written.
dir_stays :
    (d p : FilePath) (n : Node) (fs : Files)
    → wants_dir d ≡ true
    → Fits (wants_dir p) (some n)
    → lookup d fs ≡ some dir
    → lookup d (insert p n fs) ≡ some dir
dir_stays d p n fs wd f there = rw (lookup-insert d p n fs) (elim (Bool-cases (path_eq d p)) [
  | inl e ↦ rw e (
      ap some (
        Fits-dir n
          (subst (λ b. Fits b (some n)) (ap wants_dir (sym (path_eq_sound d p e)) ∙ wd) f)))
  | inr e ↦ rw e there
])

pub insert-IsDatabase :
    (p : FilePath) (n : Node) (fs : Files)
    → IsDatabase fs
    → Fits (wants_dir p) (some n)
    → lookup (parent p) fs ≡ some dir
    → IsDatabase (insert p n fs)
insert-IsDatabase p n fs db f up = record {
  root_there = dir_stays root p n fs refl f db.root_there;
  users_there = dir_stays users p n fs refl f db.users_there;
  auctions_there = dir_stays auctions p n fs refl f db.auctions_there;
  kinds = λ q. rw (lookup-insert q p n fs) (elim (Bool-cases (path_eq q p)) [
    | inl e ↦ rw e (subst (λ r. Fits (wants_dir r) (some n)) (sym (path_eq_sound q p e)) f)
    | inr e ↦ rw e (db.kinds q)
  ]);
  closed = λ q. elim (Bool-cases (path_eq q p)) [
    | inl e ↦ inr (
        dir_stays (parent q) p n fs (wants_dir-parent q) f
          (subst (λ r. lookup (parent r) fs ≡ some dir) (sym (path_eq_sound q p e)) up))
    | inr e ↦ elim (db.closed q) [
      | inl gone ↦ inl (rw (lookup-insert q p n fs, e) gone)
      | inr there ↦ inr (dir_stays (parent q) p n fs (wants_dir-parent q) f there)
    ]
  ];
}

-- Removing a file leaves every directory.
dir_kept :
    (d p : FilePath) (fs : Files)
    → wants_dir d ≡ true
    → wants_dir p ≡ false
    → lookup d fs ≡ some dir
    → lookup d (delete p fs) ≡ some dir
dir_kept d p fs wd wp there = rw (lookup-delete d p fs) (elim (Bool-cases (path_eq d p)) [
  | inl e ↦ absurd (ground (arith, ap wants_dir (path_eq_sound d p e)))
  | inr e ↦ rw e there
])

pub delete-IsDatabase :
    (p : FilePath) (fs : Files) → IsDatabase fs → wants_dir p ≡ false → IsDatabase (delete p fs)
delete-IsDatabase p fs db wp = record {
  root_there = dir_kept root p fs refl wp db.root_there;
  users_there = dir_kept users p fs refl wp db.users_there;
  auctions_there = dir_kept auctions p fs refl wp db.auctions_there;
  kinds = λ q.
      rw (lookup-delete q p fs)
        (elim (Bool-cases (path_eq q p)) [ inl e ↦ rw e tt | inr e ↦ rw e (db.kinds q) ]);
  closed = λ q. elim (Bool-cases (path_eq q p)) [
    | inl e ↦ inl (rw (lookup-delete q p fs, e) refl)
    | inr e ↦ elim (db.closed q) [
      | inl gone ↦ inl (rw (lookup-delete q p fs, e) gone)
      | inr there ↦ inr (dir_kept (parent q) p fs (wants_dir-parent q) wp there)
    ]
  ];
}
