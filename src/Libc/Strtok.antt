-- ===== src/Libc/Strtok.antt =====
-- How `strtok` takes a line of tokens apart.
use auction_server.Common.{
  ℕ, ◌≡◌, ◌≢◌, refl, some, [], ◌∷◌, ◌++◌, arith, ◌==◌, Bytes, All, length, ◌≤◌, ◌<◌, ◌+◌,
  Bool-cases, inl, inr,
}
use auction_server.Libc.{strtok, strtok_at, skip, span}
use mathlib.Core.Path.{subst}

-- No byte of the text is `d`.
abbrev pub Lacks : ℕ → Bytes → Type 0
Lacks d = All (λ c. c ≢ d)

span-append : (d : ℕ) (t r : Bytes) → Lacks d t → span d (t ++ d ∷ r) ≡ (t, r)
unfolding span
span-append d [] r h = ground arith
span-append d (c ∷ t) r h = ground (arith, span-append d t r h.1)

span-Lacks : (d : ℕ) (t : Bytes) → Lacks d t → span d t ≡ (t, [])
unfolding span
span-Lacks d [] h = refl
span-Lacks d (c ∷ t) h = ground (arith, span-Lacks d t h.1)

-- A token that is not empty, and the delimiter behind it, are consumed.
pub strtok-append : (d : ℕ) (t r : Bytes) → t ≢ [] → Lacks d t → strtok d (t ++ d ∷ r) ≡ (some t, r)
unfolding strtok
strtok-append d [] r ne h = absurd (ne refl)
strtok-append d (c ∷ t) r ne h = ground (arith, span-append d (c ∷ t) r h)

-- The last token of a text.
pub strtok-Lacks : (d : ℕ) (t : Bytes) → t ≢ [] → Lacks d t → strtok d t ≡ (some t, [])
unfolding strtok
strtok-Lacks d [] ne h = absurd (ne refl)
strtok-Lacks d (c ∷ t) ne h = ground (arith, span-Lacks d (c ∷ t) h)

span-Lacks' : (d : ℕ) (s : Bytes) → Lacks d (span d s).0
unfolding span
span-Lacks' d [] = tt
span-Lacks' d (c ∷ s) = ground (arith, span-Lacks' d s)

length-span : (d : ℕ) (s : Bytes) → length (span d s).0 ≤ length s
unfolding span
length-span d [] = ground arith
length-span d (c ∷ s) = ground (arith, length-span d s)

-- The text is empty, or begins with another byte than the delimiter.
abbrev pub Skipped : ℕ → Bytes → Type 0
Skipped d [] = Unit
Skipped d (c ∷ s) = c ≢ d

pub skip-Skipped : (d : ℕ) (s : Bytes) → Skipped d (skip d s)
unfolding skip
skip-Skipped d [] = tt
skip-Skipped d (c ∷ s) = elim (Bool-cases (c == d)) [
  | inl e ↦ rw e (skip-Skipped d s)
  | inr e ↦ rw e (ground arith)
]

strtok_at_token :
    (d : ℕ) (s : Bytes) {t : Bytes}
    → Skipped d s
    → (strtok_at d s).0 ≡ some t
    → (t ≢ []) × Lacks d t
unfolding strtok_at
strtok_at_token d [] k h = absurd (ground arith)
strtok_at_token d (c ∷ s) {t} k h =
    let e : (span d (c ∷ s)).0 ≡ t = cc in
    subst (λ u. (u ≢ []) × Lacks d u) e (unfold span in ground arith, span-Lacks' d (c ∷ s))

-- What `strtok` returns is never empty and never holds the delimiter.
strtok_token : (d : ℕ) (s : Bytes) {t : Bytes} → (strtok d s).0 ≡ some t → (t ≢ []) × Lacks d t
unfolding strtok
strtok_token d s h = strtok_at_token d (skip d s) (skip-Skipped d s) h

-- The token and what is left are shorter than the text.
length-span_both : (d : ℕ) (s : Bytes) → length (span d s).0 + length (span d s).1 ≤ length s
unfolding span
length-span_both d [] = omega arith
length-span_both d (c ∷ s) = ground (arith, length-span_both d s)

length-skip : (d : ℕ) (s : Bytes) → length (skip d s) ≤ length s
unfolding skip
length-skip d [] = omega arith
length-skip d (c ∷ s) = ground (arith, length-skip d s)

length-strtok_at :
    (d : ℕ) (s : Bytes) {t r : Bytes}
    → Skipped d s
    → strtok_at d s ≡ (some t, r)
    → (length t + length r ≤ length s) × (length r < length s)
unfolding strtok_at span
length-strtok_at d [] k h = absurd (ground (arith, h))
length-strtok_at d (c ∷ s) k h = ground (arith, h, k, length-span_both d s)

pub length-strtok :
    (d : ℕ) (s : Bytes) {t r : Bytes}
    → strtok d s ≡ (some t, r)
    → (length t + length r ≤ length s) × (length r < length s)
unfolding strtok
length-strtok d s h =
    let (whole, less) = length-strtok_at d (skip d s) (skip-Skipped d s) h in
    (omega (arith, whole, length-skip d s), omega (arith, less, length-skip d s))

length-rest_at : (d : ℕ) (s : Bytes) → length (strtok_at d s).1 ≤ length s
unfolding strtok_at
length-rest_at d [] = omega arith
length-rest_at d (c ∷ s) = omega (arith, length-span_both d (c ∷ s))

pub length-rest : (d : ℕ) (s : Bytes) → length (strtok d s).1 ≤ length s
unfolding strtok
length-rest d s = omega (arith, length-rest_at d (skip d s), length-skip d s)
