-- ===== src/Tests/Worlds.antt =====
-- Small databases and requests for the tests.
use auction_server.Common.{refl, false, Bytes, [], codes}
use auction_server.Os.{
  user_dir, bidded_dir, login_file, pass_file, auction_dir, bids_dir, start_file, dir, file, Files,
  insert, lookup, path_eq, World,
}
use auction_server.Database.Invariant.{IsDatabase, insert-IsDatabase}
use auction_server.Database.Start.First.{three, three-IsDatabase}
use auction_server.Database.Effects.{Ready}
use auction_server.Udp.Session.Spec.{Serving}

-- A database with no user and no auction.
abbrev pub empty : World
empty = record { fs = three; auc_count = 0; now = 1700000000; refuses = λ c p. false }

pub empty-Serving : Serving empty
unfolding lookup path_eq
empty-Serving = record {
  ready = record { database = three-IsDatabase; willing = λ c p. refl };
  passwords = λ u p l e. absurd (cc);
}

abbrev pub request : Bytes
request = codes "123456 passw0rd\n"

abbrev pub uid : Bytes
uid = codes "123456"

abbrev pub passwd : Bytes
passwd = codes "passw0rd"

-- An auction of user 654321, open since the second 1699999990 with the start value 20.
abbrev pub aid : Bytes
aid = codes "001"

abbrev pub line : Bytes
line = codes "654321 clock clock.png 20 3600 2023-11-14 22:13:10 1699999990\n"

abbrev fs_home : Files
fs_home = insert (auction_dir aid) dir empty.fs

abbrev fs_auction : Files
fs_auction = insert (start_file aid) (file line) fs_home

-- The auction, and nobody.
abbrev pub opened : World
opened = record empty { fs = fs_auction; auc_count = 1 }

opened-IsDatabase : IsDatabase fs_auction
unfolding lookup insert path_eq
opened-IsDatabase =
    insert-IsDatabase (start_file aid) (file line) fs_home
      (insert-IsDatabase (auction_dir aid) dir empty.fs three-IsDatabase tt refl) tt refl

pub opened-Ready : Ready opened
opened-Ready = record { database = opened-IsDatabase; willing = λ c p. refl }

-- The owner's files, then another user's, then the directory of the bids.
abbrev fs_owner : Files
fs_owner = insert (pass_file (codes "654321")) (file passwd) (
    insert (login_file (codes "654321")) (file [])
      (insert (user_dir (codes "654321")) dir fs_auction))

abbrev fs_user : Files
fs_user = insert (pass_file uid) (file passwd) (
    insert (login_file uid) (file [])
      (insert (bidded_dir uid) dir (insert (user_dir uid) dir fs_owner)))

-- The auction, its owner, and another user, both logged in.
abbrev pub market : World
market = record opened { fs = insert (bids_dir aid) dir fs_user }

fs_owner-IsDatabase : IsDatabase fs_owner
unfolding lookup insert path_eq
fs_owner-IsDatabase =
    insert-IsDatabase (pass_file (codes "654321")) (file passwd) _
      (insert-IsDatabase (login_file (codes "654321")) (file []) _
        (insert-IsDatabase (user_dir (codes "654321")) dir fs_auction opened-IsDatabase tt refl) tt
        refl)
      tt refl

fs_user-IsDatabase : IsDatabase fs_user
unfolding lookup insert path_eq
fs_user-IsDatabase =
    insert-IsDatabase (pass_file uid) (file passwd) _
      (insert-IsDatabase (login_file uid) (file []) _
        (insert-IsDatabase (bidded_dir uid) dir _
          (insert-IsDatabase (user_dir uid) dir fs_owner fs_owner-IsDatabase tt refl) tt refl)
        tt refl)
      tt refl

pub market-Ready : Ready market
unfolding lookup insert path_eq
market-Ready = record {
  database = insert-IsDatabase (bids_dir aid) dir fs_user fs_user-IsDatabase tt refl;
  willing = λ c p. refl;
}
