-- ===== src/Database/Auctions/Existence.antt =====
-- The AIDs that `create_auction_dir` hands out are those that `exists_auction` accepts.
use auction_server.Common.{
  ℕ, ◌+◌, ◌≡◌, ◌≤◌, ◌<◌, ◌↔◌, refl, ◌∙◌, true, false, Option, some, arith, leb,
}
use auction_server.Libc.{print_padded}
use auction_server.Libc.Numbers.{atoi-digits, print_padded-IsDigit, digits_value-print_padded}
use auction_server.Os.{FilePath, World, lookup, auction_dir, bids_dir, asset_dir, dir, path_eq}
use auction_server.Os.Laws.{path_eq_refl}
use auction_server.Database.Effects.{Ready, ensure_dir-Wrote}
use auction_server.Database.Monad.{ensure_dir}
use auction_server.Database.Names.{aid_of}
use auction_server.Database.Auctions.{exists_auction, create_auction_dir}

-- The auctions that exist are those numbered from 1 to `auc_count`.
pub exists_auction_iff :
    (n : ℕ) (w : World) → (exists_auction (aid_of n) w ≡ true) ↔ ((0 < n) × (n ≤ w.auc_count))
unfolding exists_auction aid_of
exists_auction_iff n w =
    rw (atoi-digits (print_padded 3 n) (print_padded-IsDigit 3 n), digits_value-print_padded)
      (ground arith)

-- The next auction has its number and its three directories, and nothing else has changed.
pub record Opened (w : World) (r : Option ℕ × World) : Type 0 where
  pub aid : r.0 ≡ some (w.auc_count + 1)
  pub ready : Ready r.1
  pub kept :
      (q : FilePath)
      → path_eq q (auction_dir (aid_of (w.auc_count + 1))) ≡ false
      → path_eq q (bids_dir (aid_of (w.auc_count + 1))) ≡ false
      → path_eq q (asset_dir (aid_of (w.auc_count + 1))) ≡ false
      → lookup q r.1.fs ≡ lookup q w.fs
  pub clock : r.1.now ≡ w.now
  pub count : r.1.auc_count ≡ w.auc_count + 1
  pub exists : exists_auction (aid_of (w.auc_count + 1)) r.1 ≡ true
  pub home : lookup (auction_dir (aid_of (w.auc_count + 1))) r.1.fs ≡ some dir
  pub bids : lookup (bids_dir (aid_of (w.auc_count + 1))) r.1.fs ≡ some dir
  pub asset : lookup (asset_dir (aid_of (w.auc_count + 1))) r.1.fs ≡ some dir

abbrev pub counted : World → World
counted w = record w { auc_count = w.auc_count + 1 }

-- Where the kernel refuses nothing and fewer than 999 auctions have been opened, the next number is
-- handed out, an auction of that number exists from then on, and its three directories are there.
pub create_auction_dir-Opened :
    (w : World) → Ready w → w.auc_count < 999 → Opened w (create_auction_dir w)
unfolding create_auction_dir path_eq
create_auction_dir-Opened w r few =
    let aid = aid_of (w.auc_count + 1) in
    let w0 = counted w in
    let r0 : Ready w0 = record { database = r.database; willing = r.willing } in
    let a = ensure_dir-Wrote (auction_dir aid) w0 r0 refl r.database.auctions_there in
    let w1 = (ensure_dir (auction_dir aid) w0).1 in
    let home1 : lookup (auction_dir aid) w1.fs ≡ some dir =
      a.reads (auction_dir aid) ∙ rw (path_eq_refl (auction_dir aid)) in
    let b = ensure_dir-Wrote (bids_dir aid) w1 a.ready refl home1 in
    let w2 = (ensure_dir (bids_dir aid) w1).1 in
    let home2 = b.reads (auction_dir aid) ∙ home1 in
    let bids2 : lookup (bids_dir aid) w2.fs ≡ some dir =
      b.reads (bids_dir aid) ∙ rw (path_eq_refl (bids_dir aid)) in
    let c = ensure_dir-Wrote (asset_dir aid) w2 b.ready refl home2 in
    let under : leb 999 w.auc_count ≡ false = ground arith in
    let number : (ensure_dir (asset_dir aid) w2).1.auc_count ≡ w.auc_count + 1 =
      c.count ∙ b.count ∙ a.count in
    rw (under, a.done, b.done, c.done)
      (record {
        aid = refl;
        ready = c.ready;
        kept = λ q h k l. c.reads q ∙ rw l (b.reads q ∙ rw k (a.reads q ∙ rw h));
        clock = c.clock ∙ b.clock ∙ a.clock;
        count = number;
        exists =
            (exists_auction_iff (w.auc_count + 1) (ensure_dir (asset_dir aid) w2).1).1
              (omega arith, omega (arith, number));
        home = c.reads (auction_dir aid) ∙ home2;
        bids = c.reads (bids_dir aid) ∙ bids2;
        asset = c.reads (asset_dir aid) ∙ rw (path_eq_refl (asset_dir aid));
      })
