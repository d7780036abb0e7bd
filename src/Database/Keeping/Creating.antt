-- ===== src/Database/Keeping/Creating.antt =====
-- Opening an auction touches nothing of the auctions that are open.
use auction_server.Common.{ℕ, ◌<◌, ◌+◌, refl, sym, Bool-cases, inl, inr, Bytes, some, arith, leb}
use mathlib.Core.Path.{subst}
use auction_server.Os.{
  auction_dir, bids_dir, asset_dir, start_file, asset_file, hosted_file, World, open_creat,
  write_start, take_bytes,
}
use auction_server.Stream.{Conn, Asset, asset, asset_error, as_recv_asset_file}
use auction_server.Validators.{fname_len}
use auction_server.Database.Invariant.{IsDatabase}
use auction_server.Database.Monad.{Action, ◌>>◌, ensure_dir}
use auction_server.Database.Names.{aid_of, hosted_name, start_info}
use auction_server.Database.Auctions.{create_auction_dir}
use auction_server.Database.Hosting.{
  write_start_file, keep_asset, fill_auction, created, create_new_auction,
}
use auction_server.Database.Keeping.{same, Frame-trans, Kept, Kept-refl, Kept-trans, then-Kept}
use auction_server.Database.Keeping.Calls.{
  InDir, ensure_dir-Kept, open_creat-Opening, write_start-Opening,
}
use auction_server.Database.Keeping.Lines.{ensure_dir-then, write_line-Kept}
use auction_server.Database.Keeping.Rollback.{new-Free, Grown, rollback-Grown}

module _ (n : ℕ) where
  module _ (uid name fname : Bytes) (sv ta : ℕ) where
    write_start_file-Kept :
        (w : World)
        → IsDatabase w.fs
        → n < w.auc_count
        → Kept n w (write_start_file uid name fname sv ta w).1
    unfolding write_start_file
    write_start_file-Kept w db l =
        let p = start_file (aid_of w.auc_count) in
        write_line-Kept n p (start_info uid name fname sv ta w.now) w db
          (inr (new-Free n w.auc_count p l refl)) refl

    keep_asset-Kept :
        (auc_id : ℕ) (a : Asset) (w : World)
        → IsDatabase w.fs
        → n < w.auc_count
        → InDir (asset_file (aid_of w.auc_count) (take_bytes fname_len fname)) w
        → Kept n w (keep_asset uid fname auc_id a w).1
    unfolding keep_asset
    keep_asset-Kept auc_id (asset_error e) w db l up = Kept-refl n w db
    keep_asset-Kept auc_id (asset s) w db l up =
        let p = asset_file (aid_of w.auc_count) (take_bytes fname_len fname) in
        let hosted = hosted_file uid (hosted_name auc_id) in
        let o = write_start-Opening n p s w db (inr (new-Free n w.auc_count p l refl)) refl up in
        then-Kept n (write_start p s) (open_creat hosted) w o.kept λ _.
          (open_creat-Opening n hosted (write_start p s w).1 o.kept.database (inl refl) refl).kept

    fill_auction-Kept :
        (fsize auc_id : ℕ) (conn : Conn) (w : World)
        → IsDatabase w.fs
        → n < w.auc_count
        → Kept n w (fill_auction uid name fname sv ta fsize auc_id conn w).2
    unfolding fill_auction
    fill_auction-Kept fsize auc_id conn w db l =
        let w1 = (write_start_file uid name fname sv ta w).1 in
        let k1 = write_start_file-Kept w db l in
        let l1 : n < w1.auc_count = omega (arith, k1.count, l) in
        let p = asset_file (aid_of w1.auc_count) (take_bytes fname_len fname) in
        let o =
          open_creat-Opening n p w1 k1.database (inr (new-Free n w1.auc_count p l1 refl)) refl in
        let w2 = (open_creat p w1).1 in
        let both = Kept-trans n w w1 w2 k1 o.kept in
        elim (Bool-cases (write_start_file uid name fname sv ta w).0) [
          | inr e ↦ rw e k1
          | inl e ↦ elim (Bool-cases (open_creat p w1).0) [
            | inr f ↦ rw (e, f) both
            | inl f ↦
                let a = (as_recv_asset_file fsize conn).0 in
                let up =
                  subst (λ c. InDir (asset_file (aid_of c) (take_bytes fname_len fname)) w2)
                    (sym o.kept.count) (o.home f) in
                rw (e, f)
                  (Kept-trans n w w2 (keep_asset uid fname auc_id a w2).1 both (
                    keep_asset-Kept auc_id a w2 o.kept.database (omega (arith, o.kept.count, l1))
                      up))
          ]
        ]

    created-Grown :
        (fsize : ℕ) (conn : Conn) (auc_id : ℕ) (w : World)
        → IsDatabase w.fs
        → n < w.auc_count
        → Grown n w (created uid name fname sv ta fsize conn (some auc_id, w)).2
    unfolding created
    created-Grown fsize conn auc_id w db l =
        let r = fill_auction uid name fname sv ta fsize auc_id conn w in
        let k = fill_auction-Kept fsize auc_id conn w db l in
        elim (Bool-cases r.0) [
          | inl e ↦
              rw e (record {
                database = k.database;
                frame = k.frame;
                count = omega (arith, k.count, l);
              })
          | inr e ↦
              let g = rollback-Grown n r.2 k.database (omega (arith, k.count, l)) in
              rw e (record {
                database = g.database;
                frame = Frame-trans n w.fs r.2.fs _ k.frame g.frame;
                count = g.count;
              })
        ]

-- The database with one auction more, before its directories are made.
abbrev next : World → World
next w = record w { auc_count = w.auc_count + 1 }

abbrev three_dirs : Bytes → Action
three_dirs aid =
    ensure_dir (auction_dir aid) >> (ensure_dir (bids_dir aid) >> ensure_dir (asset_dir aid))

three_dirs-Kept :
    (n : ℕ) (aid : Bytes) (w : World) → IsDatabase w.fs → Kept n w (three_dirs aid w).1
three_dirs-Kept n aid w db =
    let rest : Action = ensure_dir (bids_dir aid) >> ensure_dir (asset_dir aid) in
    ensure_dir-then n (auction_dir aid) rest w db (inl refl) refl λ w1 d1.
      ensure_dir-then n (bids_dir aid) (ensure_dir (asset_dir aid)) w1 d1 (inl refl) refl
        λ w2 d2. ensure_dir-Kept n (asset_dir aid) w2 d2 (inl refl) refl

-- Whatever the kernel refuses and the peer sends, a call of `create_new_auction` keeps the tree,
-- removes nothing of the auctions that are open, and changes no START file or asset of theirs.
pub create_new_auction-Grown :
    (uid name fname : Bytes) (sv ta fsize : ℕ) (conn : Conn) (w : World)
    → IsDatabase w.fs
    → Grown w.auc_count w (create_new_auction uid name fname sv ta fsize conn w).2
unfolding create_new_auction create_auction_dir
create_new_auction-Grown uid name fname sv ta fsize conn w db =
    let n = w.auc_count in
    let aid = aid_of (n + 1) in
    let k = three_dirs-Kept n aid (next w) db in
    let w' = (three_dirs aid (next w)).1 in
    let g =
      created-Grown n uid name fname sv ta fsize conn (n + 1) w' k.database
        (omega (arith, k.count)) in
    elim (Bool-cases (leb 999 n)) [
      | inl e ↦
          rw e (
            unfold created in record { database = db; frame = λ q. same refl; count = omega arith })
      | inr e ↦ elim (Bool-cases (three_dirs aid (next w)).0) [
        | inl f ↦
            rw (e, f)
              (record {
                database = g.database;
                frame = Frame-trans n w.fs w'.fs _ k.frame g.frame;
                count = g.count;
              })
        | inr f ↦
            rw (e, f)
              (unfold created in
                record { database = k.database; frame = k.frame; count = omega (arith, k.count) })
      ]
    ]
