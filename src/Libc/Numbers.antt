-- ===== src/Libc/Numbers.antt =====
-- Printing a number and reading it back.
use auction_server.Common.{
  ℕ, zero, suc, ◌+◌, ◌-◌, ◌*◌, ◌/◌, ◌%◌, ◌^◌, ◌<◌, ◌≤◌, ◌≡◌, refl, ap, ◌∙◌, true, false, ◌↔◌, [],
  ◌∷◌, ◌++◌, arith, Bytes, All, length, length-append, Bool-cases, inl, inr, ltb,
}
use native.Mathlib.Nat.{pow-suc}
use auction_server.Common.Int.{pos}
use auction_server.Libc.{isdigit, digits_value, atoi, dec_digits, print_dec, zeros, print_padded}

abbrev pub IsDigit : ℕ → Type 0
IsDigit c = (b'0' ≤ c) × (c ≤ b'9')

pub isdigit_iff : (c : ℕ) → (isdigit c ≡ true) ↔ IsDigit c
unfolding isdigit
isdigit_iff c = ground arith

All-append : (P : ℕ → Type 0) (xs ys : Bytes) → All P xs → All P ys → All P (xs ++ ys)
All-append P [] ys hx hy = hy
All-append P (x ∷ xs) ys hx hy = (hx.0, All-append P xs ys hx.1 hy)

digits_value-append :
    (acc : ℕ) (xs ys : Bytes)
    → All IsDigit xs
    → digits_value acc (xs ++ ys) ≡ digits_value (digits_value acc xs) ys
unfolding digits_value
digits_value-append acc [] ys h = refl
digits_value-append acc (x ∷ xs) ys h =
    rw ((isdigit_iff x).1 h.0) (digits_value-append (acc * 10 + (x - b'0')) xs ys h.1)

-- The digits are read up to the first byte that is none.
pub digits_value_stop :
    (acc : ℕ) (xs : Bytes) (c : ℕ) (ys : Bytes)
    → All IsDigit xs
    → isdigit c ≡ false
    → digits_value acc (xs ++ c ∷ ys) ≡ digits_value acc xs
digits_value_stop acc xs c ys h e =
    digits_value-append acc xs (c ∷ ys) h ∙ unfold digits_value in rw e

dec_digits-IsDigit : (f n : ℕ) → All IsDigit (dec_digits f n)
unfolding dec_digits
dec_digits-IsDigit zero n = tt
dec_digits-IsDigit (suc f) n = elim (Bool-cases (ltb n 10)) [
  | inl e ↦ rw e (omega arith)
  | inr e ↦
      rw e
        (All-append IsDigit (dec_digits f (n / 10)) _ (dec_digits-IsDigit f (n / 10)) (omega arith))
]

digits_value-dec_digits : (f n : ℕ) → n < f → digits_value 0 (dec_digits f n) ≡ n
unfolding dec_digits
digits_value-dec_digits zero n h = absurd (omega arith)
digits_value-dec_digits (suc f) n h = elim (Bool-cases (ltb n 10)) [
  | inl e ↦ rw e (unfold digits_value isdigit in ground arith)
  | inr e ↦
      rw
        (
          e,
          digits_value-append 0 (dec_digits f (n / 10)) _ (dec_digits-IsDigit f (n / 10)),
          digits_value-dec_digits f (n / 10) (ground arith),
        )
        (unfold digits_value isdigit in ground arith)
]

pub print_dec-IsDigit : (n : ℕ) → All IsDigit (print_dec n)
unfolding print_dec
print_dec-IsDigit n = dec_digits-IsDigit (suc n) n

zeros-IsDigit : (k : ℕ) → All IsDigit (zeros k)
unfolding zeros
zeros-IsDigit zero = tt
zeros-IsDigit (suc k) = (omega arith, zeros-IsDigit k)

digits_value-zeros : (k : ℕ) (s : Bytes) → digits_value 0 (zeros k ++ s) ≡ digits_value 0 s
unfolding zeros digits_value isdigit
digits_value-zeros zero s = refl
digits_value-zeros (suc k) s = digits_value-zeros k s

pub print_padded-IsDigit : (k n : ℕ) → All IsDigit (print_padded k n)
unfolding print_padded
print_padded-IsDigit k n =
    All-append IsDigit (zeros (k - length (print_dec n))) _ (zeros-IsDigit _) (print_dec-IsDigit n)

pub digits_value-print_padded : (k n : ℕ) → digits_value 0 (print_padded k n) ≡ n
unfolding print_padded print_dec
digits_value-print_padded k n =
    digits_value-zeros _ _ ∙ digits_value-dec_digits (suc n) n (omega arith)

-- `atoi` of digits is their value.
pub atoi-digits : (s : Bytes) → All IsDigit s → atoi s ≡ pos (digits_value 0 s)
unfolding atoi
atoi-digits [] h = refl
atoi-digits (c ∷ s) h = ground arith

length-dec_digits : (f n k : ℕ) → n < 10 ^ k → 0 < k → length (dec_digits f n) ≤ k
unfolding dec_digits
length-dec_digits zero n k h p = omega arith
length-dec_digits (suc f) n (suc zero) h p = elim (Bool-cases (ltb n 10)) [
  | inl e ↦ rw e (omega arith)
  | inr e ↦ absurd (ground arith)
]
length-dec_digits (suc f) n zero h p = elim p [ ]
length-dec_digits (suc f) n (suc (suc k)) h p =
    longer (rw pow-suc at h) (length-dec_digits f (n / 10) (suc k))
  where
    longer :
        n < 10 ^ suc k * 10
        → (n / 10 < 10 ^ suc k → 0 < suc k → length (dec_digits f (n / 10)) ≤ suc k)
        → length (dec_digits (suc f) n) ≤ suc (suc k)
    longer small ih = elim (Bool-cases (ltb n 10)) [
      | inl e ↦ rw e (omega arith)
      | inr e ↦ rw e (
          omega (
            arith,
            length-append (dec_digits f (n / 10)) ((b'0' + n % 10) ∷ []),
            ih (omega arith) (omega arith),
          ))
    ]

length-zeros : (k : ℕ) → length (zeros k) ≡ k
unfolding zeros
length-zeros zero = refl
length-zeros (suc k) = ap suc (length-zeros k)

-- A number of at most `k` digits is printed on exactly `k`.
pub length-print_padded : (k n : ℕ) → n < 10 ^ k → 0 < k → length (print_padded k n) ≡ k
unfolding print_padded print_dec
length-print_padded k n h p = omega (
  arith,
  length-append (zeros (k - length (print_dec n))) (print_dec n),
  length-zeros (k - length (print_dec n)),
  length-dec_digits (suc n) n k h p,
)

-- Digits are below the power of ten of their number.
pub digits_value-lt :
    (acc : ℕ) (s : Bytes) → All IsDigit s → digits_value acc s < suc acc * 10 ^ length s
unfolding digits_value
digits_value-lt acc [] h = omega arith
digits_value-lt acc (c ∷ s) h =
    rw ((isdigit_iff c).1 h.0) (bound (digits_value-lt (acc * 10 + (c - b'0')) s h.1))
  where
    bound :
        digits_value (acc * 10 + (c - b'0')) s < suc (acc * 10 + (c - b'0')) * 10 ^ length s
        → digits_value (acc * 10 + (c - b'0')) s < suc acc * 10 ^ suc (length s)
    bound h' = rw pow-suc (grind (arith, h.0))

-- and at least the power of ten times what stands before them.
pub digits_value-ge :
    (acc : ℕ) (s : Bytes) → All IsDigit s → acc * 10 ^ length s ≤ digits_value acc s
unfolding digits_value
digits_value-ge acc [] h = omega arith
digits_value-ge acc (c ∷ s) h =
    rw ((isdigit_iff c).1 h.0) (bound (digits_value-ge (acc * 10 + (c - b'0')) s h.1))
  where
    bound :
        (acc * 10 + (c - b'0')) * 10 ^ length s ≤ digits_value (acc * 10 + (c - b'0')) s
        → acc * 10 ^ suc (length s) ≤ digits_value (acc * 10 + (c - b'0')) s
    bound h' = rw pow-suc (grind (arith, h.0))

pub digits_value-print_dec : (n : ℕ) → digits_value 0 (print_dec n) ≡ n
unfolding print_dec
digits_value-print_dec n = digits_value-dec_digits (suc n) n (omega arith)

pub length-print_dec : (n k : ℕ) → n < 10 ^ k → 0 < k → length (print_dec n) ≤ k
unfolding print_dec
length-print_dec n k h p = length-dec_digits (suc n) n k h p

pub length-print_dec_pos : (n : ℕ) → 0 < length (print_dec n)
unfolding print_dec dec_digits
length-print_dec_pos n =
    ground (arith, length-append (dec_digits n (n / 10)) ((b'0' + n % 10) ∷ []))
