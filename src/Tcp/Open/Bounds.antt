-- ===== src/Tcp/Open/Bounds.antt =====
-- The arguments of OPA fit into `args[5][30]`.
use auction_server.Common.{
  ℕ, ◌≡◌, ◌≤◌, ◌<◌, ◌⊎◌, inl, inr, Option, none, some, arith, Bytes, List, ◌++◌, [], ◌∷◌, length,
  length-append, All, suc, zero,
}
use mathlib.Core.Path.{subst}
use auction_server.Stream.{Conn}
use auction_server.Tcp.Reading.{recv_bytes, result}
use auction_server.Tcp.Reading.Invariant.{EndOk, Next, recv_bytes-EndOk}
use auction_server.Udp.Dispatch.{c_string}
use auction_server.Tcp.Open.{Args, arg_byte, get_opa_arg_len}

get_opa_arg_len-le : (n : ℕ) → get_opa_arg_len n ≤ 24
unfolding get_opa_arg_len
get_opa_arg_len-le zero = omega arith
get_opa_arg_len-le (suc zero) = omega arith
get_opa_arg_len-le (suc (suc zero)) = omega arith
get_opa_arg_len-le (suc (suc (suc zero))) = omega arith
get_opa_arg_len-le (suc (suc (suc (suc zero)))) = omega arith
get_opa_arg_len-le (suc (suc (suc (suc (suc n))))) = ground arith

length-c_string : (s : Bytes) → length (c_string s) ≤ length s
unfolding c_string
length-c_string [] = omega arith
length-c_string (c ∷ s) = ground (arith, length-c_string s)

-- Fewer than five arguments are saved, each of at most 24 bytes, and at most 25 bytes wait.
pub record Fits (st : Args) : Type 0 where
  pub few : length st.saved < 5
  pub short : All (λ a. length a ≤ 24) st.saved
  pub waiting : length st.current ≤ 25

abbrev FitsNext : Args ⊎ Option (List Bytes) → Type 0
FitsNext (inl st) = Fits st
FitsNext (inr none) = Unit
FitsNext (inr (some args)) = (length args ≡ 5) × All (λ a. length a ≤ 24) args

All-concat :
    (xs : List Bytes) (a : Bytes)
    → All (λ b. length b ≤ 24) xs
    → length a ≤ 24
    → All (λ b. length b ≤ 24) (xs ++ a ∷ [])
All-concat [] a h k = (k, tt)
All-concat (x ∷ xs) a h k = (h.0, All-concat xs a h.1 k)

-- Every byte keeps the arguments within their arrays: at most 25 bytes wait in `args_buff[128]`,
-- each saved argument has at most 24 bytes and a NUL in its `char[30]`, and the loop ends with
-- exactly five of them.
arg_byte-Fits : (st : Args) (c : ℕ) → Fits st → FitsNext (arg_byte st c)
unfolding arg_byte
arg_byte-Fits st c f = ground (
  arith,
  get_opa_arg_len-le (length st.saved),
  length-c_string st.current,
  length-append st.saved (c_string st.current ∷ []),
  length-append st.current (c ∷ []),
  All-concat st.saved (c_string st.current) f.short,
)

abbrev Ended : Option (List Bytes) → Type 0
Ended none = Unit
Ended (some args) = (length args ≡ 5) × All (λ a. length a ≤ 24) args

-- Whatever the peer sends, the loop that reads the arguments of OPA and is not refused ends with five
-- arguments of at most 24 bytes, so each fits into its row of `args[5][30]`.
pub handle_open_args-Fits :
    (conn rest : Conn) (args : List Bytes)
    → recv_bytes arg_byte (record { saved = []; current = [] }) conn ≡ (result (some args), rest)
    → (length args ≡ 5) × All (λ a. length a ≤ 24) args
handle_open_args-Fits conn rest args e =
    subst (λ r. EndOk Fits Ended r.0) e (recv_bytes-EndOk Fits Ended arg_byte kept conn _ start)
  where
    start : Fits (record { saved = []; current = [] })
    start = record { few = omega arith; short = tt; waiting = omega arith }

    kept : (st : Args) (c : ℕ) → Fits st → Next Fits Ended (arg_byte st c)
    kept st c f = at (arg_byte st c) (arg_byte-Fits st c f)
      where
        at : (r : Args ⊎ Option (List Bytes)) → FitsNext r → Next Fits Ended r
        at (inl st') h = h
        at (inr none) h = h
        at (inr (some args')) h = h
