-- ===== src/Os/Order.antt =====
-- `alphasort` on numbers that are printed with the same number of digits.
use auction_server.Common.{
  ℕ, suc, ◌+◌, ◌-◌, ◌*◌, ◌^◌, ◌≡◌, ◌≤◌, ◌<◌, inl, inr, refl, sym, ap, ◌∙◌, true, arith, Bytes, ◌++◌,
  [], ◌∷◌, Bool-cases, length, All, leb, ltb, ◌==◌,
}
use auction_server.Libc.{digits_value, print_padded}
use auction_server.Libc.Numbers.{
  IsDigit, isdigit_iff, digits_value-lt, digits_value-ge, print_padded-IsDigit,
  digits_value-print_padded, length-print_padded,
}
use native.Mathlib.Nat.{mul-le-mul_right}
use auction_server.Os.{bytes_le}

bytes_le_refl : (s : Bytes) → bytes_le s s ≡ true
unfolding bytes_le
bytes_le_refl [] = refl
bytes_le_refl (c ∷ s) = ground (arith, bytes_le_refl s)

-- A smaller leading digit makes a smaller number.
digits_value_first :
    (a b : ℕ) (xs ys : Bytes)
    → a < b
    → length xs ≡ length ys
    → All IsDigit xs
    → All IsDigit ys
    → digits_value a xs < digits_value b ys
digits_value_first a b xs ys l e h k =
    let m : suc a * 10 ^ length ys ≤ b * 10 ^ length ys = mul-le-mul_right (10 ^ length ys) l in
    let small : digits_value a xs < suc a * 10 ^ length ys = rw (sym e) (digits_value-lt a xs h) in
    omega (arith, small, m, digits_value-ge b ys k)

-- Two texts of as many digits are ordered as their values, whatever the same text follows both.
bytes_le-digits_value :
    (acc : ℕ) (xs ys r : Bytes)
    → length xs ≡ length ys
    → All IsDigit xs
    → All IsDigit ys
    → bytes_le (xs ++ r) (ys ++ r) ≡ leb (digits_value acc xs) (digits_value acc ys)
unfolding bytes_le digits_value
bytes_le-digits_value acc [] [] r e h k = bytes_le_refl r ∙ ground arith
bytes_le-digits_value acc [] (y ∷ ys) r e h k = absurd (omega arith)
bytes_le-digits_value acc (x ∷ xs) [] r e h k = absurd (omega arith)
bytes_le-digits_value acc (x ∷ xs) (y ∷ ys) r e h k =
    let e' : length xs ≡ length ys = omega arith in
    let rest = bytes_le-digits_value (acc * 10 + (x - b'0')) xs ys r e' h.1 k.1 in
    rw ((isdigit_iff x).1 h.0, (isdigit_iff y).1 k.0)
      (elim (Bool-cases (x == y)) [
        | inl same ↦
            let eq : x ≡ y = ground arith in
            rw same (
              rest
              ∙ ap
                  (λ z.
                    leb (digits_value (acc * 10 + (x - b'0')) xs)
                      (digits_value (acc * 10 + (z - b'0')) ys))
                  eq)
        | inr other ↦ rw other (elim (Bool-cases (ltb x y)) [
          | inl less ↦
              let v =
                digits_value_first (acc * 10 + (x - b'0')) (acc * 10 + (y - b'0')) xs ys
                  (ground (arith, h.0, k.0)) e' h.1 k.1 in
              ground arith
          | inr more ↦
              let v =
                digits_value_first (acc * 10 + (y - b'0')) (acc * 10 + (x - b'0')) ys xs
                  (ground (arith, h.0, k.0)) (sym e') k.1 h.1 in
              ground arith
        ])
      ])

-- Numbers printed on `k` digits are ordered as numbers.
pub bytes_le-print_padded :
    (k a b : ℕ) (r : Bytes)
    → 0 < k
    → a < 10 ^ k
    → b < 10 ^ k
    → bytes_le (print_padded k a ++ r) (print_padded k b ++ r) ≡ leb a b
bytes_le-print_padded k a b r p h l =
    bytes_le-digits_value 0 (print_padded k a) (print_padded k b) r
      (length-print_padded k a h p ∙ sym (length-print_padded k b l p)) (print_padded-IsDigit k a)
      (print_padded-IsDigit k b)
    ∙ rw (digits_value-print_padded k a, digits_value-print_padded k b)
