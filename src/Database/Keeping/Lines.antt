-- ===== src/Database/Keeping/Lines.antt =====
-- Sequences of calls: a directory or a file is made, written, and what follows runs.
use auction_server.Common.{ℕ, ◌≡◌, true, false, Bytes}
use auction_server.Os.{FilePath, World, open_creat, fopen_w, fputs}
use auction_server.Database.Invariant.{wants_dir, IsDatabase}
use auction_server.Database.Monad.{Action, ◌>>◌, ensure_dir}
use auction_server.Database.Keeping.{Writable, Kept, then-Kept}
use auction_server.Database.Keeping.Calls.{
  InDir, ensure_dir-Kept, open_creat-Opening, fopen_w-Opening, fputs-Opening,
}

pub ensure_dir-then :
    (n : ℕ) (p : FilePath) (k : Action) (w : World)
    → IsDatabase w.fs
    → Writable n p
    → wants_dir p ≡ true
    → ((v : World) → IsDatabase v.fs → Kept n v (k v).1)
    → Kept n w ((ensure_dir p >> k) w).1
ensure_dir-then n p k w db ok d next =
    let h = ensure_dir-Kept n p w db ok d in
    then-Kept n (ensure_dir p) k w h λ _. next (ensure_dir p w).1 h.database

pub open_creat-then :
    (n : ℕ) (p : FilePath) (k : Action) (w : World)
    → IsDatabase w.fs
    → Writable n p
    → wants_dir p ≡ false
    → ((v : World) → IsDatabase v.fs → InDir p v → Kept n v (k v).1)
    → Kept n w ((open_creat p >> k) w).1
open_creat-then n p k w db ok d next =
    let o = open_creat-Opening n p w db ok d in
    then-Kept n (open_creat p) k w o.kept λ e. next (open_creat p w).1 o.kept.database (o.home e)

-- What is left of a file that is made and written: the steps behind its `open`.
write_text-then :
    (n : ℕ) (p : FilePath) (s : Bytes) (k : Action) (w : World)
    → IsDatabase w.fs
    → Writable n p
    → wants_dir p ≡ false
    → ((v : World) → IsDatabase v.fs → Kept n v (k v).1)
    → Kept n w ((fopen_w p >> (fputs p s >> k)) w).1
write_text-then n p s k w db ok d next =
    let f = fopen_w-Opening n p w db ok d in
    then-Kept n (fopen_w p) (fputs p s >> k) w f.kept λ e.
      let w' = (fopen_w p w).1 in
      let g = fputs-Opening n p s w' f.kept.database ok d (f.home e) in
      then-Kept n (fputs p s) k w' g.kept λ _. next (fputs p s w').1 g.kept.database

-- A file is made and written, and what follows runs only if that went well.
pub write_line-then :
    (n : ℕ) (p : FilePath) (s : Bytes) (k : Action) (w : World)
    → IsDatabase w.fs
    → Writable n p
    → wants_dir p ≡ false
    → ((v : World) → IsDatabase v.fs → Kept n v (k v).1)
    → Kept n w ((open_creat p >> (fopen_w p >> (fputs p s >> k))) w).1
write_line-then n p s k w db ok d next =
    open_creat-then n p (fopen_w p >> (fputs p s >> k)) w db ok d
      λ v db' _. write_text-then n p s k v db' ok d next

-- A file is made and written, and nothing follows.
pub write_line-Kept :
    (n : ℕ) (p : FilePath) (s : Bytes) (w : World)
    → IsDatabase w.fs
    → Writable n p
    → wants_dir p ≡ false
    → Kept n w ((open_creat p >> (fopen_w p >> fputs p s)) w).1
write_line-Kept n p s w db ok d = open_creat-then n p (fopen_w p >> fputs p s) w db ok d λ v db' _.
    let f = fopen_w-Opening n p v db' ok d in
    then-Kept n (fopen_w p) (fputs p s) v f.kept
      λ e. (fputs-Opening n p s (fopen_w p v).1 f.kept.database ok d (f.home e)).kept
