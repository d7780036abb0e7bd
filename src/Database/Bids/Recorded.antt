-- ===== src/Database/Bids/Recorded.antt =====
-- A bid that is recorded is the one that `get_last_bid` finds.
use auction_server.Common.{
  ℕ, ◌≡◌, ◌≢◌, ◌≤◌, ◌<◌, refl, sym, ap, ◌∙◌, true, false, Option, none, some, arith, Bytes, List,
  ◌++◌, [], ◌∷◌, All, map, codes, append-nil,
}
use auction_server.Common.Int.{ℤ, pos}
use auction_server.Libc.Time.{datetime_str}
use auction_server.Os.{
  FilePath, parent, World, Node, Call, dir, file, lookup, children, scandir, open_creat, fopen_w,
  fputs, bids_dir, bid_file, bidded_dir, bidded_file, path_eq, is_dir, take_bytes,
}
use auction_server.Os.Children.{children-insert_new, lookup-children}
use auction_server.Os.Laws.{path_eq_refl}
use auction_server.Libc.{sscanf_d}
use auction_server.Database.Auctions.{get_auction_info}
use auction_server.Database.Auctions.{end_auction}
use auction_server.Database.Auctions.Writing.{end_auction-Wrote, end_auction-children_new}
use auction_server.Database.Effects.{Ready, open_creat-Wrote}
use auction_server.Database.Hosting.{seconds_since}
use auction_server.Database.Monad.{Action, ◌>>◌}
use auction_server.Database.Names.{bid_name, print_int}
use auction_server.Database.Bids.{bid, record_bid, get_last_bid}
use auction_server.Database.Bids.Highest.{highest, Small, get_last_bid-highest, sscanf_d-bid_name}

-- A file made elsewhere is not listed.
open_creat-children_other :
    (d p : FilePath) (w : World)
    → Ready w
    → path_eq (parent p) d ≡ false
    → children d (open_creat p w).1.fs ≡ children d w.fs
unfolding open_creat
open_creat-children_other d p w r ne = at (lookup p w.fs) refl (lookup (parent p) w.fs) refl
  where
    at :
        (o : Option Node)
        → lookup p w.fs ≡ o
        → (u : Option Node) → lookup (parent p) w.fs ≡ u
        → children d (open_creat p w).1.fs ≡ children d w.fs
    at (some dir) e u e' = rw (r.willing Call.opening p, e) refl
    at (some (file s)) e u e' = rw (r.willing Call.opening p, e) refl
    at none e none e' = rw (r.willing Call.opening p, e, e') refl
    at none e (some (file s)) e' = rw (r.willing Call.opening p, e, e') refl
    at none e (some dir) e' =
        rw (r.willing Call.opening p, e, e')
          (children-insert_new d p (file []) w.fs e ∙ rw ne (append-nil _))

-- A value above the others has another name.
names_below :
    (value : ℕ) (vs : List ℕ)
    → value ≤ 999999
    → Small vs
    → highest vs < value
    → All (λ name. name ≢ bid_name value) (map bid_name vs)
unfolding highest
names_below value [] h k l = tt
names_below value (v ∷ vs) h k l = (
  λ e.
      absurd
        (ground (arith, sym (sscanf_d-bid_name v k.0) ∙ ap sscanf_d e ∙ sscanf_d-bid_name value h)),
  names_below value vs h k.1 (ground arith),
)

map-snoc : (vs : List ℕ) (v : ℕ) → map bid_name vs ++ bid_name v ∷ [] ≡ map bid_name (vs ++ v ∷ [])
map-snoc [] v = refl
map-snoc (x ∷ vs) v = ap (◌∷◌ (bid_name x)) (map-snoc vs v)

Small-snoc : (vs : List ℕ) (v : ℕ) → Small vs → v ≤ 999999 → Small (vs ++ v ∷ [])
Small-snoc [] v h k = (k, tt)
Small-snoc (x ∷ vs) v h k = (h.0, Small-snoc vs v h.1 k)

highest-snoc : (vs : List ℕ) (v : ℕ) → highest vs < v → highest (vs ++ v ∷ []) ≡ v
unfolding highest
highest-snoc [] v h = ground arith
highest-snoc (x ∷ vs) v h = ground (arith, highest-snoc vs v (ground arith))

-- Three calls that succeed are followed by the fourth.
pub then_run :
    (a b c d : Action) (w : World)
    → ((do a; b; c) w).0 ≡ true
    → (do a; b; c; d) w ≡ d ((do a; b; c) w).1
then_run a b c d w h = ground arith

-- Where the kernel refuses nothing, the auction's START line can be read, the directories of the
-- auction and of the bidder are there, and BIDS holds one file for each of some values, a bid above
-- all of them is recorded, and from then on it is the one that `get_last_bid` returns.
pub bid-last :
    (aid uid line : Bytes) (value : ℕ) (seconds : ℤ) (vs : List ℕ) (w : World)
    → Ready w
    → get_auction_info aid 128 w ≡ some line
    → seconds_since w.now (some line) ≡ some seconds
    → lookup (bids_dir aid) w.fs ≡ some dir
    → lookup (bidded_dir uid) w.fs ≡ some dir
    → children (bids_dir aid) w.fs ≡ map bid_name vs
    → Small vs
    → value ≤ 999999
    → highest vs < value
    → ((bid aid uid value w).0 ≡ true) × (get_last_bid aid (bid aid uid value w).1 ≡ pos value)
unfolding bid record_bid path_eq end_auction open_creat
bid-last aid uid line value seconds vs w r info since home bidded listed small fits above =
    let p = bid_file aid (bid_name value) in
    let d = bids_dir aid in
    let q = bidded_file uid (take_bytes 3 aid ++ codes ".txt") in
    let text =
      take_bytes 6 uid ++ b' ' ∷ (datetime_str w.now ++ b' ' ∷ (print_int seconds ++ b'\n' ∷ [])) in
    let free : lookup p w.fs ≡ none =
      lookup-children p w.fs (rw listed (names_below value vs fits small above)) in
    let a = end_auction-Wrote p text w r refl home in
    let w3 = (end_auction p text w).1 in
    let e = open_creat-Wrote q w3 a.ready refl (a.reads (bidded_dir uid) ∙ bidded) in
    let w4 = (open_creat q w3).1 in
    let listed4 : children d w4.fs ≡ map bid_name (vs ++ value ∷ []) =
      open_creat-children_other d q w3 a.ready refl
      ∙ end_auction-children_new d p text w r refl free home
      ∙ rw (path_eq_refl d)
          (ap (λ names. names ++ bid_name value ∷ []) listed ∙ map-snoc vs value) in
    let scanned : scandir d w4 ≡ some (codes "." ∷ codes ".." ∷ map bid_name (vs ++ value ∷ [])) =
      unfold scandir is_dir in
      rw (e.ready.willing Call.scanning d, e.reads d ∙ a.reads d ∙ home, listed4) in
    let last : get_last_bid aid w4 ≡ pos value =
      get_last_bid-highest aid (vs ++ value ∷ []) w4 scanned (Small-snoc vs value small fits)
      ∙ ap pos (highest-snoc vs value above) in
    let steps : record_bid aid uid value (some seconds) w ≡ open_creat q w3 =
      then_run (open_creat p) (fopen_w p) (fputs p text) (open_creat q) w a.done in
    rw (info, since, steps) (e.done, last)
