-- ===== src/Database/Effects.antt =====
-- What each call of the system does to a database when the kernel refuses nothing.
use auction_server.Common.{
  ◌≡◌, inl, inr, refl, Bool, true, false, Option, none, some, arith, if◌then◌else◌, Bool-cases,
  Bytes, [], ◌++◌, length, drop,
}
use auction_server.Os.{
  FilePath, parent, path_eq, Node, dir, file, lookup, Call, World, put, open_creat, fopen_w, fputs,
  write_start, remove, text_of, contents,
}
use auction_server.Os.Laws.{lookup-insert, lookup-delete, path_eq_sound}
use auction_server.Database.Invariant.{
  wants_dir, Fits, IsDatabase, Willing, insert-IsDatabase, delete-IsDatabase,
}
use auction_server.Database.Monad.{ensure_dir}

pub record Ready (w : World) : Type 0 where
  pub database : IsDatabase w.fs
  pub willing : Willing w

-- The call succeeds, and now the path holds the node.
pub record Wrote (p : FilePath) (n : Node) (w : World) (r : Bool × World) : Type 0 where
  pub done : r.0 ≡ true
  pub ready : Ready r.1
  pub reads : (q : FilePath) → lookup q r.1.fs ≡ (if path_eq q p then some n else lookup q w.fs)
  pub count : r.1.auc_count ≡ w.auc_count
  pub clock : r.1.now ≡ w.now

-- The call succeeds, and now the path is free.
pub record Removed (p : FilePath) (w : World) (r : Bool × World) : Type 0 where
  pub done : r.0 ≡ true
  pub ready : Ready r.1
  pub reads : (q : FilePath) → lookup q r.1.fs ≡ (if path_eq q p then none else lookup q w.fs)
  pub count : r.1.auc_count ≡ w.auc_count
  pub clock : r.1.now ≡ w.now

put-Wrote :
    (p : FilePath) (n : Node) (w : World)
    → Ready w
    → Fits (wants_dir p) (some n)
    → lookup (parent p) w.fs ≡ some dir
    → Wrote p n w (true, put p n w)
put-Wrote p n w r f up = record {
  done = refl;
  ready = record { database = insert-IsDatabase p n w.fs r.database f up; willing = r.willing };
  reads = λ q. lookup-insert q p n w.fs;
  count = refl;
  clock = refl;
}

-- A call that finds the node there changes nothing.
kept-Wrote :
    (p : FilePath) (n : Node) (w : World) → Ready w → lookup p w.fs ≡ some n → Wrote p n w (true, w)
kept-Wrote p n w r there = record {
  done = refl;
  ready = r;
  reads = λ q. elim (Bool-cases (path_eq q p)) [
    | inl e ↦ rw (e, path_eq_sound q p e) there
    | inr e ↦ rw e refl
  ];
  count = refl;
  clock = refl;
}

pub ensure_dir-Wrote :
    (p : FilePath) (w : World)
    → Ready w
    → wants_dir p ≡ true
    → lookup (parent p) w.fs ≡ some dir
    → Wrote p dir w (ensure_dir p w)
unfolding ensure_dir
ensure_dir-Wrote p w r d up = at (lookup p w.fs) refl (r.database.kinds p)
  where
    at :
        (o : Option Node)
        → lookup p w.fs ≡ o
        → Fits (wants_dir p) o
        → Wrote p dir w (ensure_dir p w)
    at none e f = rw (r.willing Call.making p, e, up) (put-Wrote p dir w r (rw d tt) up)
    at (some dir) e f = rw (r.willing Call.making p, e) (kept-Wrote p dir w r e)
    at (some (file s)) e f = absurd (rw d at f)

-- What a file holds; nothing if it is not there.
abbrev pub text_at : FilePath → World → Bytes
text_at p w = text_of (contents (lookup p w.fs))

pub open_creat-Wrote :
    (p : FilePath) (w : World)
    → Ready w
    → wants_dir p ≡ false
    → lookup (parent p) w.fs ≡ some dir
    → Wrote p (file (text_at p w)) w (open_creat p w)
unfolding open_creat contents text_of
open_creat-Wrote p w r d up = at (lookup p w.fs) refl (r.database.kinds p)
  where
    at :
        (o : Option Node)
        → lookup p w.fs ≡ o
        → Fits (wants_dir p) o
        → Wrote p (file (text_of (contents o))) w (open_creat p w)
    at none e f = rw (r.willing Call.opening p, e, up) (put-Wrote p (file []) w r (rw d tt) up)
    at (some dir) e f = absurd (rw d at f)
    at (some (file s)) e f = rw (r.willing Call.opening p, e) (kept-Wrote p (file s) w r e)

-- A write to a file that is there.
at_file :
    (p : FilePath) (s : Bytes) (w : World)
    → Ready w
    → lookup p w.fs ≡ some (file s)
    → (Fits (wants_dir p) (some (file s))) × (lookup (parent p) w.fs ≡ some dir)
at_file p s w r e = (
  rw e at (r.database.kinds p),
  elim (r.database.closed p) [ inl gone ↦ absurd (ground (arith, e, gone)) | inr up ↦ up ],
)

-- Which bytes a file holds does not matter for its place.
Fits-file : (b : Bool) (s t : Bytes) → Fits b (some (file s)) → Fits b (some (file t))
Fits-file true s t f = f
Fits-file false s t f = f

pub write_start-Wrote :
    (p : FilePath) (old s : Bytes) (w : World)
    → Ready w
    → lookup p w.fs ≡ some (file old)
    → Wrote p (file (s ++ drop (length s) old)) w (write_start p s w)
unfolding write_start
write_start-Wrote p old s w r e =
    let (f, up) = at_file p old w r e in
    rw (r.willing Call.writing p, e)
      (put-Wrote p (file (s ++ drop (length s) old)) w r (Fits-file (wants_dir p) old _ f) up)

pub fputs-Wrote :
    (p : FilePath) (old s : Bytes) (w : World)
    → Ready w
    → lookup p w.fs ≡ some (file old)
    → Wrote p (file (old ++ s)) w (fputs p s w)
unfolding fputs
fputs-Wrote p old s w r e =
    let (f, up) = at_file p old w r e in
    rw (r.willing Call.writing p, e)
      (put-Wrote p (file (old ++ s)) w r (Fits-file (wants_dir p) old _ f) up)

-- Opening for writing leaves an empty file.
pub fopen_w-Wrote :
    (p : FilePath) (old : Bytes) (w : World)
    → Ready w
    → lookup p w.fs ≡ some (file old)
    → Wrote p (file []) w (fopen_w p w)
unfolding fopen_w
fopen_w-Wrote p old w r e =
    let (f, up) = at_file p old w r e in
    rw (r.willing Call.opening p, e)
      (put-Wrote p (file []) w r (Fits-file (wants_dir p) old [] f) up)

pub remove-Removed :
    (p : FilePath) (s : Bytes) (w : World)
    → Ready w
    → wants_dir p ≡ false
    → lookup p w.fs ≡ some (file s)
    → Removed p w (remove p w)
unfolding remove
remove-Removed p s w r d e =
    rw (r.willing Call.removing p, e)
      (record {
        done = refl;
        ready = record { database = delete-IsDatabase p w.fs r.database d; willing = r.willing };
        reads = λ q. lookup-delete q p w.fs;
        count = refl;
        clock = refl;
      })
