-- ===== src/Libc/Tokens.antt =====
-- The tokens that `strtok` returns one after the other.
use auction_server.Common.{
  ℕ, ◌≡◌, refl, ◌∙◌, sym, ap, none, some, List, [], ◌∷◌, ◌++◌, arith, ◌==◌, if◌then◌else◌, Bytes,
  Option,
}
use auction_server.Libc.{strtok, strtok_at, skip, span}
use auction_server.Libc.Strtok.{Lacks, Skipped, skip-Skipped, strtok-append, strtok-Lacks}
use auction_server.Common.{◌≢◌}

-- An empty token is none.
push : Bytes → List Bytes → List Bytes
push [] ts = ts
push (c ∷ t) ts = (c ∷ t) ∷ ts

-- What stands before the first delimiter, and the tokens behind it.
pieces : ℕ → Bytes → Bytes × List Bytes
unfolding push
pieces d [] = ([], [])
pieces d (c ∷ s) = let (t, ts) = pieces d s in if c == d then ([], push t ts) else (c ∷ t, ts)

-- `strtok(s, d)` and then `strtok(NULL, d)` until it returns NULL
unfoldable pub tokens : ℕ → Bytes → List Bytes
unfolding pieces push
tokens d s = let (t, ts) = pieces d s in push t ts

pieces-span : (d : ℕ) (s : Bytes) → pieces d s ≡ ((span d s).0, tokens d (span d s).1)
unfolding pieces span tokens
pieces-span d [] = refl
pieces-span d (c ∷ s) = ground (arith, pieces-span d s)

tokens-skip : (d : ℕ) (s : Bytes) → tokens d (skip d s) ≡ tokens d s
unfolding skip tokens pieces push
tokens-skip d [] = refl
tokens-skip d (c ∷ s) = ground (arith, tokens-skip d s)

-- The tokens by the first call and those that follow.
abbrev followed : ℕ → Option Bytes × Bytes → List Bytes
followed d (none, rest) = []
followed d (some t, rest) = t ∷ tokens d rest

followed-at : (d : ℕ) (s : Bytes) → Skipped d s → followed d (strtok_at d s) ≡ tokens d s
unfolding strtok_at tokens push span pieces
followed-at d [] h = refl
followed-at d (c ∷ s) h = ground (arith, pieces-span d s, h)

-- The tokens are what the first call of `strtok` returns, if it does not return NULL, and the tokens
-- of what is left then.
pub tokens-strtok : (d : ℕ) (s : Bytes) → followed d (strtok d s) ≡ tokens d s
unfolding strtok
tokens-strtok d s = followed-at d (skip d s) (skip-Skipped d s) ∙ tokens-skip d s

pub tokens-append :
    (d : ℕ) (t r : Bytes) → t ≢ [] → Lacks d t → tokens d (t ++ d ∷ r) ≡ t ∷ tokens d r
tokens-append d t r ne h =
    sym (tokens-strtok d (t ++ d ∷ r)) ∙ ap (followed d) (strtok-append d t r ne h)

pub tokens-Lacks : (d : ℕ) (t : Bytes) → t ≢ [] → Lacks d t → tokens d t ≡ t ∷ []
unfolding tokens
tokens-Lacks d t ne h = sym (tokens-strtok d t) ∙ ap (followed d) (strtok-Lacks d t ne h)

pub tokens-delimiter : (d : ℕ) (s : Bytes) → tokens d (d ∷ s) ≡ tokens d s
unfolding tokens
tokens-delimiter d s = ground arith
