-- ===== src/Database/Bids/Race.antt =====
-- `handle_bid` of server/tcp.c reads the last bid in one hold of the mutex and records its own in
-- another, so two threads may both find a value high enough before either records it.
use auction_server.Common.{◌≡◌, refl, ap, ◌∙◌, true, Bool, some, ℕ, Bytes, ◌++◌, [], ◌∷◌, codes}
use auction_server.Common.Int.{ℤ}
use auction_server.Libc.Time.{datetime_str}
use auction_server.Os.{
  World, Call, dir, file, lookup, open_creat, fopen_w, fputs, bids_dir, bid_file, bidded_dir,
  bidded_file, start_file, path_eq, fopen_r, take_bytes,
}
use auction_server.Os.Laws.{path_eq_refl}
use auction_server.Database.Auctions.{get_auction_info, end_auction}
use auction_server.Database.Auctions.Writing.{end_auction-Wrote}
use auction_server.Database.Effects.{Ready, open_creat-Wrote}
use auction_server.Database.Hosting.{seconds_since}
use auction_server.Database.Names.{bid_name, print_int}
use auction_server.Database.Bids.{bid, record_bid}
use auction_server.Database.Bids.Recorded.{then_run}

-- The line in the file of a bid.
abbrev pub bid_text : Bytes → ℕ → ℤ → Bytes
bid_text uid now seconds =
    take_bytes 6 uid ++ b' ' ∷ (datetime_str now ++ b' ' ∷ (print_int seconds ++ b'\n' ∷ []))

-- The auction can take a bid of this user.
pub record Takes (aid uid line : Bytes) (seconds : ℤ) (w : World) : Type 0 where
  pub ready : Ready w
  pub info : get_auction_info aid 128 w ≡ some line
  pub since : seconds_since w.now (some line) ≡ some seconds
  pub home : lookup (bids_dir aid) w.fs ≡ some dir
  pub bidded : lookup (bidded_dir uid) w.fs ≡ some dir

-- What a bid leaves: its file, and an auction that can take another bid.
record Left (aid uid line : Bytes) (value : ℕ) (seconds : ℤ) (w : World) (r : Bool × World)
    : Type 0 where
  done : r.0 ≡ true
  written : lookup (bid_file aid (bid_name value)) r.1.fs ≡ some (file (bid_text uid w.now seconds))
  clock : r.1.now ≡ w.now
  later :
      (other : Bytes) → lookup (bidded_dir other) w.fs ≡ some dir → Takes aid other line seconds r.1

-- The START line of a file that is as it was.
info-kept :
    (aid : Bytes) (v w : World)
    → Ready v
    → Ready w
    → lookup (start_file aid) w.fs ≡ lookup (start_file aid) v.fs
    → get_auction_info aid 128 w ≡ get_auction_info aid 128 v
unfolding get_auction_info fopen_r
info-kept aid v w r k e =
    rw (r.willing Call.reading (start_file aid), k.willing Call.reading (start_file aid), e) refl

bid-Left :
    (aid uid line : Bytes) (value : ℕ) (seconds : ℤ) (w : World)
    → Takes aid uid line seconds w
    → Left aid uid line value seconds w (bid aid uid value w)
unfolding bid record_bid path_eq end_auction
bid-Left aid uid line value seconds w t =
    let p = bid_file aid (bid_name value) in
    let q = bidded_file uid (take_bytes 3 aid ++ codes ".txt") in
    let text = bid_text uid w.now seconds in
    let a = end_auction-Wrote p text w t.ready refl t.home in
    let w3 = (end_auction p text w).1 in
    let e = open_creat-Wrote q w3 a.ready refl (a.reads (bidded_dir uid) ∙ t.bidded) in
    let steps : record_bid aid uid value (some seconds) w ≡ open_creat q w3 =
      then_run (open_creat p) (fopen_w p) (fputs p text) (open_creat q) w a.done in
    rw (t.info, t.since, steps)
      (record {
        done = e.done;
        written = e.reads p ∙ a.reads p ∙ rw (path_eq_refl p);
        clock = e.clock ∙ a.clock;
        later = λ other there. record {
          ready = e.ready;
          info =
              info-kept aid w (open_creat q w3).1 t.ready e.ready
                (e.reads (start_file aid) ∙ a.reads (start_file aid))
              ∙ t.info;
          since = ap (λ n. seconds_since n (some line)) (e.clock ∙ a.clock) ∙ t.since;
          home = e.reads (bids_dir aid) ∙ a.reads (bids_dir aid) ∙ t.home;
          bidded = e.reads (bidded_dir other) ∙ a.reads (bidded_dir other) ∙ there;
        };
      })

-- Of two equal bids that are recorded one behind the other, as two threads do that have both found the
-- value high enough, both calls of `bid` return 0, and the file holds the second user's bid only.
pub bid-overwritten :
    (aid first second line : Bytes) (value : ℕ) (seconds : ℤ) (w : World)
    → Takes aid first line seconds w
    → lookup (bidded_dir second) w.fs ≡ some dir
    → ((bid aid first value w).0 ≡ true)
      × ((bid aid second value (bid aid first value w).1).0 ≡ true)
      × (lookup
            (bid_file aid (bid_name value))
            (bid aid second value (bid aid first value w).1).1.fs
          ≡ some (file (bid_text second w.now seconds)))
bid-overwritten aid first second line value seconds w t there =
    let one = bid-Left aid first line value seconds w t in
    let two =
      bid-Left aid second line value seconds (bid aid first value w).1 (one.later second there) in
    (one.done, two.done, two.written ∙ ap (λ n. some (file (bid_text second n seconds))) one.clock)
