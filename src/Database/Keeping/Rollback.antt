-- ===== src/Database/Keeping/Rollback.antt =====
-- Rolling an opening back removes nothing of the auctions that are open.
use auction_server.Common.{
  ℕ, ◌≤◌, ◌<◌, ◌≡◌, refl, sym, ap, ◌∙◌, false, Bool-cases, inl, inr, Bytes, some, List, [], ◌∷◌,
  All, arith,
}
use auction_server.Libc.{digits_value}
use auction_server.Libc.Numbers.{digits_value-print_padded}
use auction_server.Os.{
  FilePath, auction_dir, bids_dir, asset_dir, start_file, end_file, bid_file, asset_file, parent,
  path_eq, Files, World, remove,
}
use auction_server.Os.Laws.{path_eq_sound}
use auction_server.Database.Invariant.{IsDatabase}
use auction_server.Database.Names.{aid_of}
use auction_server.Database.Hosting.{
  is_regular, files_in, remove_all, opendir, remove_dir, rollback_auction_dir_creation,
}
use auction_server.Database.Keeping.{auction_of, Free, same, Frame, Kept, Kept-refl, Kept-trans}
use auction_server.Database.Keeping.Removing.{is_top, remove-Kept}

-- Two numbers with the same AID are the same.
aid_of-injective : (m n : ℕ) → aid_of m ≡ aid_of n → m ≡ n
unfolding aid_of
aid_of-injective m n e =
    sym (digits_value-print_padded 3 m) ∙ ap (digits_value 0) e ∙ digits_value-print_padded 3 n

some-injective : (a b : Bytes) → some a ≡ some b → a ≡ b
some-injective a b e = cc e

-- The paths of an auction whose number is above `n`.
pub new-Free : (n m : ℕ) (p : FilePath) → n < m → auction_of p ≡ some (aid_of m) → Free n p
new-Free n m p l e k h f =
    let same = aid_of-injective m k (some-injective (aid_of m) (aid_of k) (sym e ∙ f)) in
    absurd (omega (arith, l, h, same))

-- A path that belongs to the auction, and may be removed.
abbrev Of : Bytes → FilePath → Type 0
Of a p = (auction_of p ≡ some a) × (is_top p ≡ false)

-- A file in a directory of an auction belongs to the auction.
child-Of : (a : Bytes) (d p : FilePath) → Of a d → parent p ≡ d → Of a p
child-Of a d p h e = at p (ap auction_of e ∙ h.0)
  where
    at : (q : FilePath) → auction_of (parent q) ≡ some a → Of a q
    at (bids_dir b) k = (k, refl)
    at (asset_dir b) k = (k, refl)
    at (start_file b) k = (k, refl)
    at (end_file b) k = (k, refl)
    at (bid_file b name) k = (k, refl)
    at (asset_file b name) k = (k, refl)
    at q k = absurd (cc k)

files_in-Of : (a : Bytes) (d : FilePath) (fs : Files) → Of a d → All (Of a) (files_in d fs)
unfolding files_in
files_in-Of a d [] h = tt
files_in-Of a d ((q, node) ∷ fs) h = elim (Bool-cases (path_eq (parent q) d)) [
  | inl e ↦ elim (Bool-cases (is_regular q node)) [
    | inl k ↦ rw (e, k) (child-Of a d q h (path_eq_sound (parent q) d e), files_in-Of a d fs h)
    | inr k ↦ rw (e, k) (files_in-Of a d fs h)
  ]
  | inr e ↦ rw e (files_in-Of a d fs h)
]

module _ (n m : ℕ) (l : n < m) where
  remove_all-Kept :
      (ps : List FilePath) (w : World)
      → IsDatabase w.fs
      → All (Of (aid_of m)) ps
      → Kept n w (remove_all ps w)
  unfolding remove_all
  remove_all-Kept [] w db h = Kept-refl n w db
  remove_all-Kept (p ∷ ps) w db h =
      let k = remove-Kept n p w db (new-Free n m p l h.0.0) h.0.1 in
      Kept-trans n w (remove p w).1 (remove_all ps (remove p w).1) k
        (remove_all-Kept ps (remove p w).1 k.database h.1)

  remove_dir-Kept :
      (d : FilePath) (w : World) → IsDatabase w.fs → Of (aid_of m) d → Kept n w (remove_dir d w)
  unfolding remove_dir
  remove_dir-Kept d w db h = elim (Bool-cases (opendir d w)) [
    | inl e ↦
        let w' = remove_all (files_in d w.fs) w in
        let k = remove_all-Kept (files_in d w.fs) w db (files_in-Of (aid_of m) d w.fs h) in
        rw e (
          Kept-trans n w w' (remove d w').1 k
            (remove-Kept n d w' k.database (new-Free n m d l h.0) h.1))
    | inr e ↦ rw e (Kept-refl n w db)
  ]

-- A database stays one, the change is allowed, and no auction that is open is forgotten.
pub record Grown (n : ℕ) (w w' : World) : Type 0 where
  pub database : IsDatabase w'.fs
  pub frame : Frame n w.fs w'.fs
  pub count : n ≤ w'.auc_count

pub Kept-Grown : (w w' : World) → Kept w.auc_count w w' → Grown w.auc_count w w'
Kept-Grown w w' k = record {
  database = k.database;
  frame = k.frame;
  count = omega (arith, k.count);
}

module _ (n : ℕ) where
  pub rollback-Grown :
      (w : World) → IsDatabase w.fs → n < w.auc_count → Grown n w (rollback_auction_dir_creation w)
  unfolding rollback_auction_dir_creation
  rollback-Grown w db l =
      let m = w.auc_count in
      let aid = aid_of m in
      let home = auction_dir aid in
      let w1 = remove_all (files_in home w.fs) w in
      let k1 =
        remove_all-Kept n m l (files_in home w.fs) w db (files_in-Of aid home w.fs (refl, refl)) in
      let w2 = remove_dir (bids_dir aid) w1 in
      let k2 = remove_dir-Kept n m l (bids_dir aid) w1 k1.database (refl, refl) in
      let w3 = remove_dir (asset_dir aid) w2 in
      let k3 = remove_dir-Kept n m l (asset_dir aid) w2 k2.database (refl, refl) in
      let w4 = (remove home w3).1 in
      let k4 = remove-Kept n home w3 k3.database (new-Free n m home l refl) refl in
      let all = Kept-trans n w w1 w4 k1 (Kept-trans n w1 w2 w4 k2 (Kept-trans n w2 w3 w4 k3 k4)) in
      elim (Bool-cases (opendir home w)) [
        | inl e ↦ rw e (record {
          database = all.database;
          frame = all.frame;
          count = omega (arith, all.count, l);
        })
        | inr e ↦ rw e (record { database = db; frame = λ q. same refl; count = omega (arith, l) })
      ]
