-- ===== src/Database/Steps.antt =====
-- The calls of server/database.c that change the files, in whatever order the threads make them: each
-- holds `db_mutex` from its first line to its last, so the calls of all threads are one sequence.
use auction_server.Common.{
  ℕ, ◌≤◌, ◌≡◌, ◌≢◌, refl, sym, ◌∙◌, Bool, true, Option, none, some, Bytes, arith,
}
use auction_server.Stream.{Conn}
use auction_server.Os.{FilePath, Node, Call, World, lookup}
use auction_server.Database.Invariant.{IsDatabase}
use auction_server.Database.Names.{aid_of}
use auction_server.Database.Users.{log_in_user, log_out_user, register_user, unregister_user}
use auction_server.Database.Auctions.{update_database}
use auction_server.Database.Hosting.{create_new_auction, close_auction}
use auction_server.Database.Bids.{bid}
use auction_server.Database.Keeping.{
  auction_of, is_fixed, Allowed, same, rewritten, free, Frame-trans,
}
use auction_server.Database.Keeping.Users.{
  log_in_user-Kept, log_out_user-Kept, register_user-Kept, unregister_user-Kept,
}
use auction_server.Database.Keeping.Auctions.{update_database-Kept, close_auction-Kept, bid-Kept}
use auction_server.Database.Keeping.Rollback.{Grown, Kept-Grown}
use auction_server.Database.Keeping.Creating.{create_new_auction-Grown}

-- One call, with any arguments; or the clock and the kernel's refusals change.
pub data Step : World → World → Type 0 where
  logs_in : (uid : Bytes) (w : World) → Step w (log_in_user uid w).1
  logs_out : (uid : Bytes) (w : World) → Step w (log_out_user uid w).1
  registers : (uid passwd : Bytes) (w : World) → Step w (register_user uid passwd w).1
  unregisters : (uid : Bytes) (w : World) → Step w (unregister_user uid w).1
  updates : (w : World) → Step w (update_database w)
  closes : (aid : Bytes) (w : World) → Step w (close_auction aid w).1
  bids : (aid uid : Bytes) (value : ℕ) (w : World) → Step w (bid aid uid value w).1
  creates :
      (uid name fname : Bytes) (sv ta fsize : ℕ) (conn : Conn) (w : World)
      → Step w (create_new_auction uid name fname sv ta fsize conn w).2
  passes :
      (now : ℕ) (refuses : Call → FilePath → Bool) (w : World)
      → Step w (record w { now = now; refuses = refuses })

pub data Run : World → World → Type 0 where
  stays : (w : World) → Run w w
  then : (u v w : World) → Step u v → Run v w → Run u w

pub one : (v w : World) → Step v w → Run v w
one v w s = then v w w s (stays w)

pub Run-trans : (u v w : World) → Run u v → Run v w → Run u w
Run-trans u v w (stays _) k = k
Run-trans u v w (then _ x _ s r) k = then u x w s (Run-trans x v w r k)

Step-Grown : (v w : World) → Step v w → IsDatabase v.fs → Grown v.auc_count v w
Step-Grown v w (logs_in uid _) db = Kept-Grown v w (log_in_user-Kept v.auc_count uid v db)
Step-Grown v w (logs_out uid _) db = Kept-Grown v w (log_out_user-Kept v.auc_count uid v db)
Step-Grown v w (registers uid passwd _) db =
    Kept-Grown v w (register_user-Kept v.auc_count uid passwd v db)
Step-Grown v w (unregisters uid _) db = Kept-Grown v w (unregister_user-Kept v.auc_count uid v db)
Step-Grown v w (updates _) db = Kept-Grown v w (update_database-Kept v.auc_count v db)
Step-Grown v w (closes aid _) db = Kept-Grown v w (close_auction-Kept v.auc_count aid v db)
Step-Grown v w (bids aid uid value _) db = Kept-Grown v w (bid-Kept v.auc_count aid uid value v db)
Step-Grown v w (creates uid name fname sv ta fsize conn _) db =
    create_new_auction-Grown uid name fname sv ta fsize conn v db
Step-Grown v w (passes now refuses _) db = record {
  database = db;
  frame = λ q. same refl;
  count = omega arith;
}

-- A change that is allowed while more auctions are open is allowed while fewer are.
Allowed-fewer :
    (m n : ℕ) (p : FilePath) (a b : Option Node) → m ≤ n → Allowed n p a b → Allowed m p a b
Allowed-fewer m n p a b l (same e) = same e
Allowed-fewer m n p a b l (rewritten h k) = rewritten h k
Allowed-fewer m n p a b l (free f) = free (λ k h. f k (omega (arith, h, l)))

Run-Grown : (v w : World) → Run v w → IsDatabase v.fs → Grown v.auc_count v w
Run-Grown v w (stays _) db = record { database = db; frame = λ q. same refl; count = omega arith }
Run-Grown v w (then _ x _ s r) db =
    let g = Step-Grown v x s db in
    let h = Run-Grown x w r g.database in
    record {
      database = h.database;
      frame = Frame-trans v.auc_count v.fs x.fs w.fs g.frame λ q.
          Allowed-fewer v.auc_count x.auc_count q (lookup q x.fs) (lookup q w.fs) g.count
            (h.frame q);
      count = omega (arith, g.count, h.count);
    }

-- What is left of the auctions that were open: the tree is one, their number has not decreased,
-- nothing of theirs is gone, and their START files and assets are as they were.
pub record Preserved (v w : World) : Type 0 where
  pub database : IsDatabase w.fs
  pub count : v.auc_count ≤ w.auc_count
  pub there :
      (m : ℕ) (p : FilePath)
      → m ≤ v.auc_count
      → auction_of p ≡ some (aid_of m)
      → lookup p v.fs ≢ none
      → lookup p w.fs ≢ none
  pub unchanged :
      (m : ℕ) (p : FilePath)
      → m ≤ v.auc_count
      → auction_of p ≡ some (aid_of m)
      → is_fixed p ≡ true
      → lookup p w.fs ≡ lookup p v.fs

-- Whatever calls the threads make, in whatever order, whatever the peers send and the kernel refuses:
-- the files stay a database, the number of auctions never decreases, and of an auction that is open
-- no file or directory is removed and neither the START file nor the asset is changed.
pub Run-Preserved : (v w : World) → IsDatabase v.fs → Run v w → Preserved v w
Run-Preserved v w db r = record {
  database = g.database;
  count = g.count;
  there = λ m p l e h. still m p l e h (g.frame p);
  unchanged = λ m p l e f. as_before m p l e f (g.frame p);
}
  where
    g : Grown v.auc_count v w
    g = Run-Grown v w r db

    still :
        (m : ℕ) (p : FilePath)
        → m ≤ v.auc_count
        → auction_of p ≡ some (aid_of m)
        → lookup p v.fs ≢ none
        → Allowed v.auc_count p (lookup p v.fs) (lookup p w.fs)
        → lookup p w.fs ≢ none
    still m p l e h (same k) = λ x. h (sym k ∙ x)
    still m p l e h (rewritten i k) = k
    still m p l e h (free k) = absurd (k m l e)

    as_before :
        (m : ℕ) (p : FilePath)
        → m ≤ v.auc_count
        → auction_of p ≡ some (aid_of m)
        → is_fixed p ≡ true
        → Allowed v.auc_count p (lookup p v.fs) (lookup p w.fs)
        → lookup p w.fs ≡ lookup p v.fs
    as_before m p l e f (same k) = k
    as_before m p l e f (rewritten i k) = absurd (cc (sym f ∙ i))
    as_before m p l e f (free k) = absurd (k m l e)
