-- ===== src/Exchange/Open.antt =====
-- `open`: the server's loop over the arguments, on those that the client has checked.
pub mod Sent
use auction_server.Common.{
  ℕ, ◌+◌, ◌^◌, ◌≤◌, ◌<◌, ◌≡◌, ◌≢◌, refl, ap, ◌∙◌, true, Option, some, List, [], ◌∷◌, ◌++◌, arith,
  ltb, ◌==◌, if◌then◌else◌, Bytes, All, length, inl, inr, if_false,
}
use auction_server.Common.Int.{pos_part}
use auction_server.Libc.{atoi, print_dec}
use auction_server.Libc.Numbers.{
  IsDigit, print_dec-IsDigit, atoi-digits, digits_value-print_dec, length-print_dec,
  length-print_dec_pos, digits_value-lt,
}
use auction_server.Libc.Strtok.{Lacks}
use auction_server.Stream.{unread}
use auction_server.Tcp.Open.{arg_byte, get_opa_arg_len, is_valid_opa_arg}
use auction_server.Exchange.Streams.{feed-word}
use native.Mathlib.Nat.{pow-le-pow_right}
use auction_server.Tcp.Reading.{feed, stop, recv_bytes, result}
use auction_server.Exchange.Session.{digits-Lacks, c_string-Lacks}

arg_byte-more :
    (saved : List Bytes) (current : Bytes) (c : ℕ)
    → c ≢ b' '
    → length current ≤ get_opa_arg_len (length saved)
    → arg_byte (record { saved = saved; current = current }) c
      ≡ inl (record { saved = saved; current = current ++ c ∷ [] })
unfolding arg_byte
arg_byte-more saved current c ne l =
    if_false (ltb (get_opa_arg_len (length saved)) (length current)) _ _ (ground (arith, l))
    ∙ if_false (c == b' ') _ _ (ground (arith, ne))

-- An argument that the loop accepts as its `argno`-th.
pub record OpaArg (argno : ℕ) (arg : Bytes) : Type 0 where
  pub one_word : Lacks b' ' arg
  pub no_nul : Lacks 0 arg
  pub short : length arg ≤ get_opa_arg_len argno
  pub accepted : is_valid_opa_arg arg argno ≡ true

-- The space behind an argument.
arg_byte-end :
    (arg : Bytes) (saved : List Bytes)
    → OpaArg (length saved) arg
    → arg_byte (record { saved = saved; current = arg }) b' ' ≡ (
        if length saved + 1 == 5
        then inr (some (saved ++ arg ∷ []))
        else inl (record { saved = saved ++ arg ∷ []; current = [] }))
unfolding arg_byte
arg_byte-end arg saved a =
    if_false (ltb (get_opa_arg_len (length saved)) (length arg)) _ _ (ground (arith, a.short))
    ∙ rw (c_string-Lacks arg a.no_nul, a.accepted) refl

feed-end :
    (arg r : Bytes) (saved : List Bytes)
    → OpaArg (length saved) arg
    → feed arg_byte (record { saved = saved; current = [] }) (arg ++ b' ' ∷ r)
      ≡ feed arg_byte (record { saved = saved; current = arg }) (b' ' ∷ r)
feed-end arg r saved a =
    feed-word arg_byte (λ t. record { saved = saved; current = t }) (get_opa_arg_len (length saved))
      (arg_byte-more saved) arg r [] a.one_word (omega (arith, a.short))

-- The five arguments.
pub feed-args :
    (a0 a1 a2 a3 a4 r : Bytes)
    → OpaArg 0 a0
    → OpaArg 1 a1
    → OpaArg 2 a2
    → OpaArg 3 a3
    → OpaArg 4 a4
    → feed arg_byte
        (record { saved = []; current = [] })
        (a0 ++ b' ' ∷ (a1 ++ b' ' ∷ (a2 ++ b' ' ∷ (a3 ++ b' ' ∷ (a4 ++ b' ' ∷ r)))))
      ≡ stop (some (a0 ∷ a1 ∷ a2 ∷ a3 ∷ a4 ∷ [])) r
unfolding feed
feed-args a0 a1 a2 a3 a4 r k0 k1 k2 k3 k4 =
    feed-end a0 _ [] k0
    ∙ rw (feed, arg_byte-end a0 [] k0)
        (feed-end a1 _ (a0 ∷ []) k1
          ∙ rw (feed, arg_byte-end a1 (a0 ∷ []) k1)
              (feed-end a2 _ (a0 ∷ a1 ∷ []) k2
                ∙ rw (feed, arg_byte-end a2 (a0 ∷ a1 ∷ []) k2)
                    (feed-end a3 _ (a0 ∷ a1 ∷ a2 ∷ []) k3
                      ∙ rw (feed, arg_byte-end a3 (a0 ∷ a1 ∷ a2 ∷ []) k3)
                          (feed-end a4 _ (a0 ∷ a1 ∷ a2 ∷ a3 ∷ []) k4
                            ∙ rw (feed, arg_byte-end a4 (a0 ∷ a1 ∷ a2 ∷ a3 ∷ []) k4) refl))))

pub atoi-lt : (k : ℕ) (s : Bytes) → length s ≤ k → All IsDigit s → pos_part (atoi s) < 10 ^ k
atoi-lt k s short digits =
    let m : 10 ^ length s ≤ 10 ^ k = pow-le-pow_right (omega arith) short in
    rw (atoi-digits s digits) (ground (arith, digits_value-lt 0 s digits, m))

pub atoi-print_dec : (n : ℕ) → pos_part (atoi (print_dec n)) ≡ n
atoi-print_dec n =
    ap pos_part (atoi-digits (print_dec n) (print_dec-IsDigit n)) ∙ digits_value-print_dec n

pub visible-Lacks : (d : ℕ) (s : Bytes) → d ≤ b' ' → All (λ c. b' ' < c) s → Lacks d s
visible-Lacks d [] l h = tt
visible-Lacks d (c ∷ s) l h = (omega (arith, h.0), visible-Lacks d s l h.1)

pub number-OpaArg :
    (argno n k : ℕ)
    → n < 10 ^ k
    → 0 < k
    → k ≤ get_opa_arg_len argno
    → (((0 < length (print_dec n)) × (length (print_dec n) ≤ k) × All IsDigit (print_dec n))
        → is_valid_opa_arg (print_dec n) argno ≡ true)
    → OpaArg argno (print_dec n)
number-OpaArg argno n k small p fits ok =
    let digits = print_dec-IsDigit n in
    let short = length-print_dec n k small p in
    record {
      one_word = digits-Lacks b' ' (print_dec n) (omega arith) digits;
      no_nul = digits-Lacks 0 (print_dec n) (omega arith) digits;
      short = omega (arith, short, fits);
      accepted = ok (length-print_dec_pos n, short, digits);
    }

-- The loop over what has arrived.
pub recv_bytes-stop :
    (s : Bytes) (r : Option (List Bytes)) (rest : Bytes)
    → feed arg_byte (record { saved = []; current = [] }) s ≡ stop r rest
    → recv_bytes arg_byte (record { saved = []; current = [] }) (unread s [])
      ≡ (result r, unread rest [])
unfolding recv_bytes unread feed
recv_bytes-stop [] r rest e = absurd (ground (arith, e))
recv_bytes-stop (c ∷ s) r rest e = rw (recv_bytes, e) refl
