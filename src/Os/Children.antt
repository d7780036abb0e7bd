-- ===== src/Os/Children.antt =====
-- What a directory lists once a file in it, or elsewhere, is written.
use auction_server.Common.{
  ◌≡◌, ◌≢◌, refl, sym, ◌∙◌, false, none, some, arith, if◌then◌else◌, Bytes, List, ◌++◌, [], ◌∷◌,
  Bool-cases, inl, inr, All,
}
use auction_server.Os.{FilePath, parent, base_name, path_eq, Node, Files, lookup, insert, children}
use auction_server.Os.Laws.{path_eq_sound, path_eq_refl, path_eq_sym}

-- the name that a new path adds to the directory `d`
abbrev pub added : FilePath → FilePath → List Bytes
added d p = if path_eq (parent p) d then base_name p ∷ [] else []

pub children-insert_new :
    (d p : FilePath) (n : Node) (fs : Files)
    → lookup p fs ≡ none
    → children d (insert p n fs) ≡ children d fs ++ added d p
unfolding children insert lookup
children-insert_new d p n [] e = ground arith
children-insert_new d p n ((q, m) ∷ fs) e = elim (Bool-cases (path_eq p q)) [
  | inl same ↦ absurd (ground (arith, rw same at e))
  | inr other ↦
      let other' : path_eq q p ≡ false = path_eq_sym q p ∙ other in
      let rest = children-insert_new d p n fs (rw other at e) in rw other' (ground (arith, rest))
]

pub children-insert_there :
    (d p : FilePath) (n m : Node) (fs : Files)
    → lookup p fs ≡ some m
    → children d (insert p n fs) ≡ children d fs
unfolding children insert lookup
children-insert_there d p n m [] e = absurd (ground arith)
children-insert_there d p n m ((q, k) ∷ fs) e = elim (Bool-cases (path_eq q p)) [
  | inl same ↦ rw (same, path_eq_sound q p same) refl
  | inr other ↦
      let other' : path_eq p q ≡ false = path_eq_sym p q ∙ other in
      rw (other, children-insert_there d p n m fs (rw other' at e)) refl
]

-- A name that its directory does not list is free.
pub lookup-children :
    (p : FilePath) (fs : Files)
    → All (λ name. name ≢ base_name p) (children (parent p) fs)
    → lookup p fs ≡ none
unfolding children lookup
lookup-children p [] h = refl
lookup-children p ((q, m) ∷ fs) h = elim (Bool-cases (path_eq p q)) [
  | inl same ↦
      let is : p ≡ q = path_eq_sound p q same in
      let h' = rw (sym is, path_eq_refl (parent p)) at h in absurd (h'.0 refl)
  | inr other ↦ rw other (
      lookup-children p fs (elim (Bool-cases (path_eq (parent q) (parent p))) [
        | inl k ↦ (rw k at h).1
        | inr k ↦ rw k at h
      ]))
]
