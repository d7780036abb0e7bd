-- ===== src/Database/Auctions/Update.antt =====
-- What `update_database` may change.
use auction_server.Common.{
  ℕ, ◌≡◌, inl, inr, refl, sym, ap, ◌∙◌, Bool, true, false, Option, none, some, arith, Bytes, List,
  [], ◌∷◌, Bool-cases,
}
use auction_server.Validators.{is_hidden}
use auction_server.Os.{
  FilePath, World, Call, dir, lookup, path_eq, fopen_r, contents, start_file, end_file, auction_dir,
  auctions, scandir, take_bytes,
}
use auction_server.Os.Laws.{path_eq_sound}
use auction_server.Database.Auctions.{
  end_auction, is_auction_finished, expire, update_started, update_entry, update_entries,
  update_scanned, update_database,
}
use auction_server.Database.Auctions.Writing.{end_auction-Wrote}
use auction_server.Database.Effects.{Ready}
use auction_server.Database.Users.{is_open}

-- Is the path one of an END file?
abbrev is_end : FilePath → Bool
is_end (end_file _) = true
is_end _ = false

-- A database is still one; no auction that was finished is open again; nothing but END files has
-- changed.
pub record Updated (w w' : World) : Type 0 where
  pub ready : Ready w'
  pub finished :
      (aid : Bytes) → is_auction_finished aid w ≡ true → is_auction_finished aid w' ≡ true
  pub others : (p : FilePath) → is_end p ≡ false → lookup p w'.fs ≡ lookup p w.fs
  pub count : w'.auc_count ≡ w.auc_count
  pub clock : w'.now ≡ w.now

unchanged : (w : World) → Ready w → Updated w w
unchanged w r = record {
  ready = r;
  finished = λ aid h. h;
  others = λ p h. refl;
  count = refl;
  clock = refl;
}

after_both : (w w' w'' : World) → Updated w w' → Updated w' w'' → Updated w w''
after_both w w' w'' a b = record {
  ready = b.ready;
  finished = λ aid h. b.finished aid (a.finished aid h);
  others = λ p h. b.others p h ∙ a.others p h;
  count = b.count ∙ a.count;
  clock = b.clock ∙ a.clock;
}

end_file-is_end : (p : FilePath) (aid : Bytes) → is_end p ≡ false → path_eq p (end_file aid) ≡ false
end_file-is_end p aid h = elim (Bool-cases (path_eq p (end_file aid))) [
  | inl e ↦ absurd (ground (arith, sym (ap is_end (path_eq_sound p (end_file aid) e)) ∙ h))
  | inr e ↦ e
]

end_auction-Updated :
    (aid text : Bytes) (w : World)
    → Ready w
    → lookup (auction_dir aid) w.fs ≡ some dir
    → Updated w (end_auction (end_file aid) text w).1
unfolding is_auction_finished fopen_r contents is_open
end_auction-Updated aid text w r up =
    let k = end_auction-Wrote (end_file aid) text w r refl up in
    let w' = (end_auction (end_file aid) text w).1 in
    record {
      ready = k.ready;
      finished = λ b h.
          rw (k.ready.willing Call.reading (end_file b), k.reads (end_file b))
            (elim (Bool-cases (path_eq (end_file b) (end_file aid))) [
              | inl e ↦ rw e refl
              | inr e ↦ rw e (rw (r.willing Call.reading (end_file b)) at h)
            ]);
      others = λ p h. k.reads p ∙ rw (end_file-is_end p aid h);
      count = k.count;
      clock = k.clock;
    }

expire-Updated :
    (aid : Bytes) (e : Option (ℕ × ℕ)) (w : World)
    → Ready w
    → lookup (auction_dir aid) w.fs ≡ some dir
    → Updated w (expire aid e w)
unfolding expire
expire-Updated aid none w r up = unchanged w r
expire-Updated aid (some (t, n)) w r up = end_auction-Updated aid _ w r up

-- A START file that can be read stands in the auction's directory.
update_started-Updated :
    (aid : Bytes) (w : World)
    → Ready w
    → Updated w (update_started aid (fopen_r (start_file aid) w) w)
unfolding fopen_r contents
update_started-Updated aid w r =
    rw (r.willing Call.reading (start_file aid)) (elim (r.database.closed (start_file aid)) [
      | inl gone ↦ rw gone (unfold update_started in unchanged w r)
      | inr up ↦ at (contents (lookup (start_file aid) w.fs)) up
    ])
  where
    at :
        (s : Option Bytes)
        → lookup (auction_dir aid) w.fs ≡ some dir
        → Updated w (update_started aid s w)
    at none up = unfold update_started in unchanged w r
    at (some s) up = unfold update_started in expire-Updated aid _ w r up

update_entry-Updated : (name : Bytes) (w : World) → Ready w → Updated w (update_entry name w)
unfolding update_entry
update_entry-Updated name w r = elim (Bool-cases (is_hidden name)) [
  | inl e ↦ rw e (unchanged w r)
  | inr e ↦ rw e (elim (Bool-cases (is_open (fopen_r (end_file (take_bytes 3 name)) w))) [
    | inl o ↦ rw o (unchanged w r)
    | inr o ↦ rw o (update_started-Updated (take_bytes 3 name) w r)
  ])
]

update_entries-Updated :
    (names : List Bytes) (w : World) → Ready w → Updated w (update_entries names w)
unfolding update_entries
update_entries-Updated [] w r = unchanged w r
update_entries-Updated (name ∷ names) w r =
    let k = update_entry-Updated name w r in
    after_both w (update_entry name w) _ k
      (update_entries-Updated names (update_entry name w) k.ready)

-- Where the kernel refuses nothing, `update_database` leaves a database, opens no finished auction
-- again, and changes nothing but END files.
pub update_database-Updated : (w : World) → Ready w → Updated w (update_database w)
unfolding update_database
update_database-Updated w r = at (scandir auctions w)
  where
    at : (names : Option (List Bytes)) → Updated w (update_scanned names w)
    at none = unfold update_scanned in unchanged w r
    at (some names) = unfold update_scanned in update_entries-Updated names w r
