-- ===== src/Database/Auctions/Writing.antt =====
-- Making a file and writing it, as `close_auction`, `update_database` and `bid` do.
use auction_server.Common.{◌≡◌, ◌∙◌, false, none, some, if_if, Bytes, ◌++◌, []}
use auction_server.Os.{
  FilePath, parent, World, Call, dir, file, lookup, children, open_creat, fopen_w, fputs, path_eq,
  contents, text_of,
}
use auction_server.Os.Children.{added, children-insert_new, children-insert_there}
use auction_server.Os.Laws.{path_eq_refl}
use auction_server.Database.Auctions.{end_auction}
use auction_server.Database.Effects.{
  Ready, Wrote, open_creat-Wrote, fopen_w-Wrote, fputs-Wrote, text_at,
}
use auction_server.Database.Invariant.{wants_dir}

-- The file holds the text, and nothing else is touched.
pub end_auction-Wrote :
    (p : FilePath) (text : Bytes) (w : World)
    → Ready w
    → wants_dir p ≡ false
    → lookup (parent p) w.fs ≡ some dir
    → Wrote p (file text) w (end_auction p text w)
unfolding end_auction
end_auction-Wrote p text w r f up =
    let a = open_creat-Wrote p w r f up in
    let w1 = (open_creat p w).1 in
    let there : lookup p w1.fs ≡ some (file (text_at p w)) = a.reads p ∙ rw (path_eq_refl p) in
    let b = fopen_w-Wrote p (text_at p w) w1 a.ready there in
    let w2 = (fopen_w p w1).1 in
    let empty : lookup p w2.fs ≡ some (file []) = b.reads p ∙ rw (path_eq_refl p) in
    let c = fputs-Wrote p [] text w2 b.ready empty in
    rw (a.done, b.done)
      (record {
        done = c.done;
        ready = c.ready;
        reads = λ q.
            c.reads q
            ∙ rw (b.reads q, if_if (path_eq q p) (some (file text)) (some (file [])), a.reads q)
                (if_if (path_eq q p) _ _ _);
        count = c.count ∙ b.count ∙ a.count;
        clock = c.clock ∙ b.clock ∙ a.clock;
      })

-- A file that is made is listed in its directory, once it was not there.
open_creat-children_new :
    (d p : FilePath) (w : World)
    → Ready w
    → lookup p w.fs ≡ none
    → lookup (parent p) w.fs ≡ some dir
    → children d (open_creat p w).1.fs ≡ children d w.fs ++ added d p
unfolding open_creat
open_creat-children_new d p w r e up =
    rw (r.willing Call.opening p, e, up) (children-insert_new d p (file []) w.fs e)

fopen_w-children :
    (d p : FilePath) (old : Bytes) (w : World)
    → Ready w
    → lookup p w.fs ≡ some (file old)
    → children d (fopen_w p w).1.fs ≡ children d w.fs
unfolding fopen_w open_creat
fopen_w-children d p old w r e =
    rw (r.willing Call.opening p, e) (children-insert_there d p (file []) (file old) w.fs e)

fputs-children :
    (d p : FilePath) (old s : Bytes) (w : World)
    → Ready w
    → lookup p w.fs ≡ some (file old)
    → children d (fputs p s w).1.fs ≡ children d w.fs
unfolding fputs contents text_of
fputs-children d p old s w r e =
    rw (r.willing Call.writing p, e) (children-insert_there d p (file (old ++ s)) (file old) w.fs e)

-- A file that was not there is listed once it is written.
pub end_auction-children_new :
    (d p : FilePath) (text : Bytes) (w : World)
    → Ready w
    → wants_dir p ≡ false
    → lookup p w.fs ≡ none
    → lookup (parent p) w.fs ≡ some dir
    → children d (end_auction p text w).1.fs ≡ children d w.fs ++ added d p
unfolding end_auction
end_auction-children_new d p text w r f e up =
    let a = open_creat-Wrote p w r f up in
    let w1 = (open_creat p w).1 in
    let there : lookup p w1.fs ≡ some (file (text_at p w)) = a.reads p ∙ rw (path_eq_refl p) in
    let b = fopen_w-Wrote p (text_at p w) w1 a.ready there in
    let w2 = (fopen_w p w1).1 in
    let empty : lookup p w2.fs ≡ some (file []) = b.reads p ∙ rw (path_eq_refl p) in
    rw (a.done, b.done)
      (fputs-children d p [] text w2 b.ready empty
        ∙ fopen_w-children d p (text_at p w) w1 a.ready there
        ∙ open_creat-children_new d p w r e up)
