-- ===== src/Database/Start/Restart.antt =====
-- A server that is started again knows the auctions that it has opened.
use auction_server.Common.{
  ℕ, ◌+◌, ◌≡◌, ◌<◌, refl, sym, ap, ◌∙◌, true, false, if◌then◌else◌, none, some, List, [], ◌∷◌, ◌++◌,
  append-nil, arith, leb, Bytes, Bool-cases, Option-cases, inl, inr, All,
}
use auction_server.Libc.{print_padded}
use auction_server.Libc.Numbers.{IsDigit, print_padded-IsDigit}
use auction_server.Validators.{is_hidden}
use auction_server.Os.{
  FilePath, root, users, auctions, auction_dir, bids_dir, asset_dir, parent, dir, World, making,
  scanning, path_eq, lookup, children, is_dir, is_absent, mkdir, scandir,
}
use auction_server.Os.Laws.{path_eq_refl}
use auction_server.Os.Children.{added, children-insert_new}
use auction_server.Database.Effects.{Ready, ensure_dir-Wrote}
use auction_server.Database.Monad.{Action, ◌>>◌, ensure_dir, tolerate}
use auction_server.Database.Names.{aid_of}
use auction_server.Database.Auctions.{create_auction_dir}
use auction_server.Database.Auctions.Existence.{counted, create_auction_dir-Opened}
use auction_server.Database.Start.{
  make_root, chdir, visible_count, count_entries, load_db_state, init_database,
}

-- The process has ended: its variables are lost.
abbrev pub stopped : World → World
stopped w = record w { auc_count = 0 }

-- The count is the number of the auctions that are in the files.
abbrev pub Counted : World → Type 0
Counted w = w.auc_count ≡ visible_count (children auctions w.fs)

make_root-there :
    (w : World)
    → w.refuses making root ≡ false
    → lookup root w.fs ≡ some dir
    → make_root w ≡ (true, w)
unfolding make_root is_absent
make_root-there w e there = rw (e, there) refl

chdir-there :
    (p : FilePath) (w : World)
    → w.refuses scanning p ≡ false
    → lookup p w.fs ≡ some dir
    → chdir p w ≡ (true, w)
unfolding chdir is_dir
chdir-there p w e there = rw (e, there) refl

ensure_dir-there :
    (p : FilePath) (w : World)
    → w.refuses making p ≡ false
    → lookup p w.fs ≡ some dir
    → ensure_dir p w ≡ (true, w)
unfolding ensure_dir tolerate mkdir is_absent
ensure_dir-there p w e there = rw (e, there) refl

load_db_state-there :
    (w : World)
    → w.refuses scanning auctions ≡ false
    → lookup auctions w.fs ≡ some dir
    → load_db_state w
      ≡ (true, record w { auc_count = w.auc_count + visible_count (children auctions w.fs) })
unfolding load_db_state count_entries scandir is_dir visible_count is_hidden
load_db_state-there w e there = rw (e, there) refl

-- A step that succeeds and changes nothing.
then_same : (m k : Action) (w : World) → m w ≡ (true, w) → (m >> k) w ≡ k w
then_same m k w e = ap (λ r. if r.0 then k r.1 else (false, r.1)) e

init_database-stopped : (w : World) → Ready w → Counted w → init_database (stopped w) ≡ (true, w)
unfolding init_database
init_database-stopped w r c =
    let v = stopped w in
    let d = r.database in
    let after_users : Action = ensure_dir auctions >> load_db_state in
    let after_chdir : Action = ensure_dir users >> after_users in
    let after_root : Action = chdir root >> after_chdir in
    then_same make_root after_root v (make_root-there v (r.willing making root) d.root_there)
    ∙ then_same (chdir root) after_chdir v
        (chdir-there root v (r.willing scanning root) d.root_there)
    ∙ then_same (ensure_dir users) after_users v
        (ensure_dir-there users v (r.willing making users) d.users_there)
    ∙ then_same (ensure_dir auctions) load_db_state v
        (ensure_dir-there auctions v (r.willing making auctions) d.auctions_there)
    ∙ load_db_state-there v (r.willing scanning auctions) d.auctions_there
    ∙ ap (λ n. (true, record w { auc_count = n })) (omega (arith, c))

visible_count-append :
    (a b : List Bytes) → visible_count (a ++ b) ≡ visible_count a + visible_count b
unfolding visible_count
visible_count-append [] b = omega arith
visible_count-append (name ∷ a) b = elim (Bool-cases (is_hidden name)) [
  | inl h ↦ rw h (visible_count-append a b)
  | inr h ↦ rw h (omega (arith, visible_count-append a b))
]

digits-visible : (s : Bytes) → All IsDigit s → is_hidden s ≡ false
unfolding is_hidden
digits-visible [] h = refl
digits-visible (c ∷ s) h = let digit = h.0 in ground (arith, digit)

ensure_dir-elsewhere :
    (d p : FilePath) (w : World)
    → path_eq (parent p) d ≡ false
    → children d (ensure_dir p w).1.fs ≡ children d w.fs
unfolding ensure_dir mkdir is_absent
ensure_dir-elsewhere d p w other = elim (Bool-cases (w.refuses making p)) [
  | inl e ↦ rw e refl
  | inr e ↦ elim (Option-cases (lookup p w.fs)) [
    | inr (n, there) ↦ rw (e, there) refl
    | inl absent ↦ elim (Bool-cases (is_dir (lookup (parent p) w.fs))) [
      | inl h ↦
          rw (e, absent, h)
            (children-insert_new d p dir w.fs absent ∙ rw other (append-nil (children d w.fs)))
      | inr h ↦ rw (e, absent, h) refl
    ]
  ]
]

ensure_dir-listed :
    (d p : FilePath) (w : World)
    → Ready w
    → lookup p w.fs ≡ none
    → lookup (parent p) w.fs ≡ some dir
    → children d (ensure_dir p w).1.fs ≡ children d w.fs ++ added d p
unfolding ensure_dir mkdir is_absent is_dir
ensure_dir-listed d p w r absent home =
    rw (r.willing making p, absent, home) (children-insert_new d p dir w.fs absent)

create_auction_dir-children :
    (w : World)
    → Ready w
    → w.auc_count < 999
    → lookup (auction_dir (aid_of (w.auc_count + 1))) w.fs ≡ none
    → children auctions (create_auction_dir w).1.fs
      ≡ children auctions w.fs ++ aid_of (w.auc_count + 1) ∷ []
unfolding create_auction_dir path_eq
create_auction_dir-children w r few absent =
    let aid = aid_of (w.auc_count + 1) in
    let w0 = counted w in
    let r0 : Ready w0 = record { database = r.database; willing = r.willing } in
    let a = ensure_dir-Wrote (auction_dir aid) w0 r0 refl r.database.auctions_there in
    let w1 = (ensure_dir (auction_dir aid) w0).1 in
    let home1 : lookup (auction_dir aid) w1.fs ≡ some dir =
      a.reads (auction_dir aid) ∙ rw (path_eq_refl (auction_dir aid)) in
    let b = ensure_dir-Wrote (bids_dir aid) w1 a.ready refl home1 in
    let w2 = (ensure_dir (bids_dir aid) w1).1 in
    let c = ensure_dir-Wrote (asset_dir aid) w2 b.ready refl (b.reads (auction_dir aid) ∙ home1) in
    let under : leb 999 w.auc_count ≡ false = ground arith in
    rw (under, a.done, b.done, c.done)
      (ensure_dir-elsewhere auctions (asset_dir aid) w2 refl
        ∙ ensure_dir-elsewhere auctions (bids_dir aid) w1 refl
        ∙ ensure_dir-listed auctions (auction_dir aid) w0 r0 absent r.database.auctions_there)

visible_count-aid :
    (n : ℕ) (names : List Bytes) → visible_count (names ++ aid_of n ∷ []) ≡ visible_count names + 1
unfolding visible_count aid_of
visible_count-aid n names =
    let shown = digits-visible (print_padded 3 n) (print_padded-IsDigit 3 n) in
    visible_count-append names (print_padded 3 n ∷ []) ∙ rw shown refl

-- One auction more is counted, and one more is in the files.
create_auction_dir-Counted :
    (w : World)
    → Ready w
    → Counted w
    → w.auc_count < 999
    → lookup (auction_dir (aid_of (w.auc_count + 1))) w.fs ≡ none
    → Counted (create_auction_dir w).1
create_auction_dir-Counted w r c few absent =
    (create_auction_dir-Opened w r few).count
    ∙ ap (λ n. n + 1) c
    ∙ sym (visible_count-aid (w.auc_count + 1) (children auctions w.fs))
    ∙ ap visible_count (sym (create_auction_dir-children w r few absent))

-- Where the kernel refuses nothing, the count is the number of the auctions in the files, fewer than
-- 999 of them, and the directory of the next number is free: a server that ends after it has opened
-- that auction, and is started again on the files that it left, knows all that it knew.
pub create_auction_dir-restart :
    (w : World)
    → Ready w
    → Counted w
    → w.auc_count < 999
    → lookup (auction_dir (aid_of (w.auc_count + 1))) w.fs ≡ none
    → init_database (stopped (create_auction_dir w).1) ≡ (true, (create_auction_dir w).1)
create_auction_dir-restart w r c few absent =
    init_database-stopped (create_auction_dir w).1 (create_auction_dir-Opened w r few).ready
      (create_auction_dir-Counted w r c few absent)
