-- ===== src/Database/Keeping/Calls.antt =====
-- Each call of the system that server/database.c makes, kept or refused, with what it needs.
use auction_server.Common.{
  ℕ, ◌≡◌, inl, inr, refl, sym, ap, ◌∙◌, Bool, true, false, Option, none, some, [], if◌then◌else◌,
  arith, Bytes, Bool-cases, Option-cases,
}
use auction_server.Os.{
  FilePath, root, parent, path_eq, Node, dir, file, lookup, World, put, is_dir, is_absent, mkdir,
  open_creat, fopen_w, fputs, write_start, Call,
}
use auction_server.Os.Laws.{lookup-insert, path_eq_sound}
use auction_server.Database.Invariant.{wants_dir, IsDatabase}
use auction_server.Database.Monad.{ensure_dir}
use auction_server.Database.Keeping.{Writable, Kept, Kept-refl, Kept-trans, put-Kept}

-- The directory that the path stands in is there.
abbrev pub InDir : FilePath → World → Type 0
InDir p w = lookup (parent p) w.fs ≡ some dir

is_dir-some : (o : Option Node) → is_dir o ≡ true → o ≡ some dir
unfolding is_dir
is_dir-some none h = absurd (ground (arith, h))
is_dir-some (some dir) h = refl
is_dir-some (some (file s)) h = absurd (ground (arith, h))

pub ensure_dir-Kept :
    (n : ℕ) (p : FilePath) (w : World)
    → IsDatabase w.fs
    → Writable n p
    → wants_dir p ≡ true
    → Kept n w (ensure_dir p w).1
unfolding ensure_dir mkdir is_absent
ensure_dir-Kept n p w db ok d = elim (Bool-cases (w.refuses Call.making p)) [
  | inl e ↦ rw e (Kept-refl n w db)
  | inr e ↦ elim (Option-cases (lookup p w.fs)) [
    | inr (node, there) ↦ rw (e, there) (Kept-refl n w db)
    | inl absent ↦ elim (Bool-cases (is_dir (lookup (parent p) w.fs))) [
      | inl h ↦ rw (e, absent, h) (put-Kept n p dir w db ok (rw d tt) (is_dir-some _ h))
      | inr h ↦ rw (e, absent, h) (Kept-refl n w db)
    ]
  ]
]

-- What a call that may make a file leaves: the tree, and the file's directory if it returned 0.
pub record Opening (n : ℕ) (p : FilePath) (w : World) (r : Bool × World) : Type 0 where
  pub kept : Kept n w r.1
  pub home : r.0 ≡ true → InDir p r.1

-- A file that is there stands in a directory.
at_home :
    (p : FilePath) (node : Node) (w : World)
    → IsDatabase w.fs
    → lookup p w.fs ≡ some node
    → InDir p w
at_home p node w db e = elim (db.closed p) [ inl gone ↦ absurd (cc (sym gone ∙ e)) | inr up ↦ up ]

-- A write leaves the directory of its file.
put-InDir :
    (p : FilePath) (s : Bytes) (w : World)
    → wants_dir p ≡ false
    → wants_dir (parent p) ≡ true
    → InDir p w
    → InDir p (put p (file s) w)
put-InDir p s w d up h = rw lookup-insert (elim (Bool-cases (path_eq (parent p) p)) [
  | inl e ↦ absurd (cc (sym up ∙ ap wants_dir (path_eq_sound (parent p) p e) ∙ d))
  | inr e ↦ rw e h
])

parent-wants : (p : FilePath) → wants_dir (parent p) ≡ true
parent-wants root = refl
parent-wants _ = refl

pub open_creat-Opening :
    (n : ℕ) (p : FilePath) (w : World)
    → IsDatabase w.fs
    → Writable n p
    → wants_dir p ≡ false
    → Opening n p w (open_creat p w)
unfolding open_creat
open_creat-Opening n p w db ok d = elim (Bool-cases (w.refuses Call.opening p)) [
  | inl e ↦ rw e (record { kept = Kept-refl n w db; home = λ x. absurd (cc x) })
  | inr e ↦ at (lookup p w.fs) refl e
]
  where
    made :
        (b : Bool)
        → is_dir (lookup (parent p) w.fs) ≡ b
        → Opening n p w (if b then (true, put p (file []) w) else (false, w))
    made true h =
        let up = is_dir-some (lookup (parent p) w.fs) h in
        record {
          kept = put-Kept n p (file []) w db ok (rw d tt) up;
          home = λ x. put-InDir p [] w d (parent-wants p) up;
        }
    made false h = record { kept = Kept-refl n w db; home = λ x. absurd (cc x) }

    at :
        (o : Option Node)
        → lookup p w.fs ≡ o
        → w.refuses Call.opening p ≡ false
        → Opening n p w (open_creat p w)
    at none h e = rw (e, h) (made (is_dir (lookup (parent p) w.fs)) refl)
    at (some dir) h e = rw (e, h) (record { kept = Kept-refl n w db; home = λ x. absurd (cc x) })
    at (some (file s)) h e =
        rw (e, h) (record { kept = Kept-refl n w db; home = λ x. at_home p (file s) w db h })

pub fopen_w-Opening :
    (n : ℕ) (p : FilePath) (w : World)
    → IsDatabase w.fs
    → Writable n p
    → wants_dir p ≡ false
    → Opening n p w (fopen_w p w)
unfolding fopen_w
fopen_w-Opening n p w db ok d =
    let o = open_creat-Opening n p w db ok d in
    elim (Bool-cases (open_creat p w).0) [
      | inl e ↦
          let up = o.home e in
          let w' = (open_creat p w).1 in
          rw (fopen_w, e)
            (record {
              kept =
                  Kept-trans n w w' (put p (file []) w') o.kept
                    (put-Kept n p (file []) w' o.kept.database ok (rw d tt) up);
              home = λ x. put-InDir p [] w' d (parent-wants p) up;
            })
      | inr e ↦ rw (fopen_w, e) (record { kept = Kept-refl n w db; home = λ x. absurd (cc x) })
    ]

-- A write to a file that has been opened.
written-Opening :
    (n : ℕ) (p : FilePath) (s : Bytes) (w : World)
    → IsDatabase w.fs
    → Writable n p
    → wants_dir p ≡ false
    → InDir p w
    → Opening n p w (if w.refuses Call.writing p then (false, w) else (true, put p (file s) w))
written-Opening n p s w db ok d up = elim (Bool-cases (w.refuses Call.writing p)) [
  | inl e ↦ rw e (record { kept = Kept-refl n w db; home = λ x. absurd (cc x) })
  | inr e ↦ rw e (record {
    kept = put-Kept n p (file s) w db ok (rw d tt) up;
    home = λ x. put-InDir p s w d (parent-wants p) up;
  })
]

pub fputs-Opening :
    (n : ℕ) (p : FilePath) (s : Bytes) (w : World)
    → IsDatabase w.fs
    → Writable n p
    → wants_dir p ≡ false
    → InDir p w
    → Opening n p w (fputs p s w)
unfolding fputs
fputs-Opening n p s w db ok d up = written-Opening n p _ w db ok d up

pub write_start-Opening :
    (n : ℕ) (p : FilePath) (s : Bytes) (w : World)
    → IsDatabase w.fs
    → Writable n p
    → wants_dir p ≡ false
    → InDir p w
    → Opening n p w (write_start p s w)
unfolding write_start
write_start-Opening n p s w db ok d up = written-Opening n p _ w db ok d up
