-- ===== src/Database/Hosting/Closing.antt =====
-- `close_auction`: an END file is made and written.
use auction_server.Common.{ℕ, ◌≡◌, inl, inr, refl, ◌∙◌, true, false, some, arith, Bytes, ◌∷◌, ◌++◌}
use auction_server.Common.Int.{ℤ}
use auction_server.Libc.Time.{datetime_str}
use auction_server.Os.{
  World, lookup, start_file, end_file, auction_dir, dir, file, path_eq, FilePath, fopen_r, contents,
}
use auction_server.Os.Laws.{path_eq_refl}
use auction_server.Database.Effects.{Ready}
use auction_server.Database.Auctions.{
  is_auction_finished, get_auction_info, end_auction, first_line,
}
use auction_server.Database.Auctions.Writing.{end_auction-Wrote}
use auction_server.Database.Names.{print_int}
use auction_server.Database.Users.{is_open}
use auction_server.Database.Hosting.{close_auction, close_at, seconds_since}

-- A START line that was read stands in the auction's directory.
home_there :
    (aid line : Bytes) (n : ℕ) (w : World)
    → Ready w
    → get_auction_info aid n w ≡ some line
    → lookup (auction_dir aid) w.fs ≡ some dir
unfolding get_auction_info first_line fopen_r contents
home_there aid line n w r e = elim (r.database.closed (start_file aid)) [
  | inl gone ↦ absurd (ground (arith, rw (r.willing _ _, gone) at e))
  | inr up ↦ up
]

-- What a closed auction leaves.
pub record Finished (aid : Bytes) (seconds : ℤ) (w w' : World) : Type 0 where
  pub ready : Ready w'
  pub finished : is_auction_finished aid w' ≡ true
  pub end_line :
      lookup (end_file aid) w'.fs ≡ some (file (datetime_str w.now ++ b' ' ∷ print_int seconds))
  pub others : (q : FilePath) → path_eq q (end_file aid) ≡ false → lookup q w'.fs ≡ lookup q w.fs

-- Where the kernel refuses nothing, an auction whose START line can be read and ends in its start
-- time is closed: its END file holds the time and the seconds since the start, the auction counts as
-- finished from then on, and no other file changes.
pub close_auction-Finished :
    (aid line : Bytes) (seconds : ℤ) (w : World)
    → Ready w
    → get_auction_info aid 128 w ≡ some line
    → seconds_since w.now (some line) ≡ some seconds
    → ((close_auction aid w).0 ≡ true) × Finished aid seconds w (close_auction aid w).1
unfolding close_auction close_at is_open
close_auction-Finished aid line seconds w r e t =
    let text = datetime_str w.now ++ b' ' ∷ print_int seconds in
    let k = end_auction-Wrote (end_file aid) text w r refl (home_there aid line 128 w r e) in
    let w' = (end_auction (end_file aid) text w).1 in
    let there : lookup (end_file aid) w'.fs ≡ some (file text) =
      k.reads (end_file aid) ∙ rw (path_eq_refl (end_file aid)) in
    rw (e, t)
      (
        k.done,
        record {
          ready = k.ready;
          finished = unfold is_auction_finished fopen_r contents in rw (k.ready.willing _ _, there);
          end_line = there;
          others = λ q ne. k.reads q ∙ rw ne;
        },
      )
