-- ===== src/Os/Laws.antt =====
-- The files as a map from paths.
use auction_server.Common.{
  ◌≡◌, sym, ◌==◌, refl, ap, ◌∙◌, true, none, some, [], ◌∷◌, arith, if◌then◌else◌, bytes_eq_iff,
  bytes_eq_refl, Bytes, ℕ,
}
use auction_server.Os.{
  FilePath, root, users, auctions, user_dir, hosted_dir, bidded_dir, login_file, pass_file,
  auction_dir, bids_dir, asset_dir, start_file, end_file, hosted_file, bidded_file, bid_file,
  asset_file, shape, same_shape, path_eq, Node, Files, lookup, insert, delete,
}

same_shape_refl : (p : ℕ × Bytes × Bytes) → same_shape p p ≡ true
same_shape_refl (k, a, b) = ground (arith, bytes_eq_refl a, bytes_eq_refl b)

pub path_eq_refl : (p : FilePath) → path_eq p p ≡ true
unfolding path_eq
path_eq_refl p = same_shape_refl (shape p)

same_shape_sym : (p q : ℕ × Bytes × Bytes) → same_shape p q ≡ same_shape q p
same_shape_sym (k, a, b) (l, c, d) =
    ground (arith, bytes_eq_iff a c, bytes_eq_iff b d, bytes_eq_iff c a, bytes_eq_iff d b)

pub path_eq_sym : (p q : FilePath) → path_eq p q ≡ path_eq q p
unfolding path_eq
path_eq_sym p q = same_shape_sym (shape p) (shape q)

-- Two paths that name the same file are alike to every test.
same_shape_trans :
    (p q r : ℕ × Bytes × Bytes) → same_shape p q ≡ true → same_shape p r ≡ same_shape q r
same_shape_trans (k, a, b) (l, c, d) (m, e, f) h =
    ground (arith, bytes_eq_iff a c, bytes_eq_iff b d)

path_eq_trans : (p q r : FilePath) → path_eq p q ≡ true → path_eq p r ≡ path_eq q r
unfolding path_eq
path_eq_trans p q r h = same_shape_trans (shape p) (shape q) (shape r) h

-- Reading after a write.
pub lookup-insert :
    (q p : FilePath) (n : Node) (fs : Files)
    → lookup q (insert p n fs) ≡ (if path_eq q p then some n else lookup q fs)
unfolding lookup insert
lookup-insert q p n [] = refl
lookup-insert q p n ((r, m) ∷ fs) = ground (
  arith,
  lookup-insert q p n fs,
  path_eq_trans r p q,
  path_eq_trans q r p,
  path_eq_sym q r,
  path_eq_sym q p,
)

-- Reading after a removal.
pub lookup-delete :
    (q p : FilePath) (fs : Files)
    → lookup q (delete p fs) ≡ (if path_eq q p then none else lookup q fs)
unfolding lookup delete
lookup-delete q p [] = ground arith
lookup-delete q p ((r, m) ∷ fs) = ground (
  arith,
  lookup-delete q p fs,
  path_eq_trans r p q,
  path_eq_trans q r p,
  path_eq_sym q r,
  path_eq_sym q p,
)

rebuild : ℕ → Bytes → Bytes → FilePath
rebuild k a b =
    if k == 0
    then root
    else if k == 1
    then users
    else if k == 2
    then auctions
    else if k == 3
    then user_dir a
    else if k == 4
    then hosted_dir a
    else if k == 5
    then bidded_dir a
    else if k == 6
    then login_file a
    else if k == 7
    then pass_file a
    else if k == 8
    then auction_dir a
    else if k == 9
    then bids_dir a
    else if k == 10
    then asset_dir a
    else if k == 11
    then start_file a
    else if k == 12
    then end_file a
    else if k == 13
    then hosted_file a b
    else if k == 14
    then bidded_file a b
    else if k == 15
    then bid_file a b
    else asset_file a b

rebuild-shape : (p : FilePath) → rebuild (shape p).0 (shape p).1 (shape p).2 ≡ p
unfolding rebuild
rebuild-shape root = refl
rebuild-shape _ = refl

same_shape-eq : (p q : ℕ × Bytes × Bytes) → same_shape p q ≡ true → p ≡ q
same_shape-eq (k, a, b) (l, c, d) h = ground (arith, bytes_eq_iff a c, bytes_eq_iff b d)

-- `path_eq` decides equality of paths.
pub path_eq_sound : (p q : FilePath) → path_eq p q ≡ true → p ≡ q
unfolding path_eq
path_eq_sound p q h =
    sym (rebuild-shape p)
    ∙ ap (λ s. rebuild s.0 s.1 s.2) (same_shape-eq (shape p) (shape q) h)
    ∙ rebuild-shape q
