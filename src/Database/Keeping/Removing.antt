-- ===== src/Database/Keeping/Removing.antt =====
-- `remove` takes a file or an empty directory, and the tree stays one.
use auction_server.Common.{
  ℕ, ◌≡◌, inl, inr, refl, sym, ap, ◌∙◌, Bool, true, false, ◌||◌, Option, none, some, List, [], ◌∷◌,
  Bytes, Bool-cases,
}
use auction_server.Os.{
  FilePath, root, users, auctions, parent, path_eq, Node, dir, file, Files, lookup, delete,
  children, World, is_dir, is_absent, remove, is_empty, Call,
}
use auction_server.Os.Laws.{lookup-delete, path_eq_sound}
use auction_server.Os.Children.{lookup-children}
use auction_server.Database.Invariant.{wants_dir, Fits, IsDatabase, delete-IsDatabase}
use auction_server.Database.Keeping.{Free, Kept, Kept-refl, delete-Frame}

-- Is it one of the directories that are always there?
abbrev pub is_top : FilePath → Bool
is_top root = true
is_top users = true
is_top auctions = true
is_top _ = false

top_kept :
    (d p : FilePath) (fs : Files)
    → is_top d ≡ true
    → is_top p ≡ false
    → lookup d fs ≡ some dir
    → lookup d (delete p fs) ≡ some dir
top_kept d p fs t k there = rw (lookup-delete d p fs) (elim (Bool-cases (path_eq d p)) [
  | inl e ↦ absurd (cc (sym t ∙ ap is_top (path_eq_sound d p e) ∙ k))
  | inr e ↦ rw e there
])

-- An empty directory may go, other than the three that are always there.
delete_empty-IsDatabase :
    (p : FilePath) (fs : Files)
    → IsDatabase fs
    → is_top p ≡ false
    → children p fs ≡ []
    → IsDatabase (delete p fs)
delete_empty-IsDatabase p fs db t empty = record {
  root_there = top_kept root p fs refl t db.root_there;
  users_there = top_kept users p fs refl t db.users_there;
  auctions_there = top_kept auctions p fs refl t db.auctions_there;
  kinds = λ q.
      rw (lookup-delete q p fs)
        (elim (Bool-cases (path_eq q p)) [ inl e ↦ rw e tt | inr e ↦ rw e (db.kinds q) ]);
  closed = λ q. elim (Bool-cases (path_eq q p)) [
    | inl e ↦ inl (rw (lookup-delete q p fs, e) refl)
    | inr e ↦ elim (db.closed q) [
      | inl gone ↦ inl (rw (lookup-delete q p fs, e) gone)
      | inr there ↦ elim (Bool-cases (path_eq (parent q) p)) [
        | inl f ↦ inl (rw (lookup-delete q p fs, e) (orphan q (path_eq_sound (parent q) p f)))
        | inr f ↦ inr (rw (lookup-delete (parent q) p fs, f) there)
      ]
    ]
  ];
}
  where
    orphan : (q : FilePath) → parent q ≡ p → lookup q fs ≡ none
    orphan q e = lookup-children q fs (rw (e, empty) tt)

is_empty-nil : (names : List Bytes) → is_empty names ≡ true → names ≡ []
unfolding is_empty
is_empty-nil [] h = refl
is_empty-nil (a ∷ names) h = cc

or_false : (a b : Bool) → (a || b) ≡ false → b ≡ false
or_false true b h = cc
or_false false b h = h

file-wants : (b : Bool) (s : Bytes) → Fits b (some (file s)) → b ≡ false
file-wants true s f = absurd f
file-wants false s f = refl

pub remove-Kept :
    (n : ℕ) (p : FilePath) (w : World)
    → IsDatabase w.fs
    → Free n p
    → is_top p ≡ false
    → Kept n w (remove p w).1
unfolding remove is_dir is_absent
remove-Kept n p w db ok t =
    elim (Bool-cases (w.refuses Call.removing p || is_absent (lookup p w.fs))) [
      | inl e ↦ rw e (Kept-refl n w db)
      | inr e ↦ elim (Bool-cases (is_dir (lookup p w.fs))) [
        | inl d ↦ elim (Bool-cases (is_empty (children p w.fs))) [
          | inl m ↦
              rw (e, d, m)
                (gone (delete_empty-IsDatabase p w.fs db t (is_empty-nil (children p w.fs) m)))
          | inr m ↦ rw (e, d, m) (Kept-refl n w db)
        ]
        | inr d ↦ rw (e, d) (gone (at (lookup p w.fs) refl d (or_false _ _ e)))
      ]
    ]
  where
    gone : IsDatabase (delete p w.fs) → Kept n w (record w { fs = delete p w.fs })
    gone db' = record { database = db'; frame = delete-Frame n p w.fs ok; count = refl }

    at :
        (o : Option Node)
        → lookup p w.fs ≡ o
        → is_dir o ≡ false
        → is_absent o ≡ false
        → IsDatabase (delete p w.fs)
    at none h d a = absurd (cc a)
    at (some dir) h d a = absurd (cc d)
    at (some (file s)) h d a =
        delete-IsDatabase p w.fs db (file-wants (wants_dir p) s (rw h at (db.kinds p)))
