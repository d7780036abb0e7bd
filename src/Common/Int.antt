-- ===== src/Common/Int.antt =====
-- C's signed numbers. `negsuc n` is -(n + 1).
use Prim.Native.Nat.{ℕ, zero, suc, ◌+◌, ◌-◌, ◌%◌, ◌^◌}
use mathlib.Core.Bool.{Bool, true, false}
use auction_server.Common.Tests.{ltb, leb, if◌then◌else◌}

pub data ℤ : Type 0 where
  pos : ℕ → ℤ
  negsuc : ℕ → ℤ

abbrev pub neg : ℕ → ℤ
neg zero = pos 0
neg (suc n) = negsuc n

-- comparisons of a signed number
abbrev pub le_ℕ : ℤ → ℕ → Bool
le_ℕ (pos a) b = leb a b
le_ℕ (negsuc a) b = true

abbrev pub lt_ℕ : ℤ → ℕ → Bool
lt_ℕ (pos a) b = ltb a b
lt_ℕ (negsuc a) b = true

abbrev pub pos_part : ℤ → ℕ
pos_part (pos a) = a
pos_part (negsuc a) = 0

abbrev pub is_pos : ℤ → Bool
is_pos (pos a) = ltb 0 a
is_pos (negsuc a) = false

abbrev pub is_neg : ℤ → Bool
is_neg (pos a) = false
is_neg (negsuc a) = true

abbrev pub is_zero : ℤ → Bool
is_zero (pos zero) = true
is_zero (pos (suc _)) = false
is_zero (negsuc a) = false

-- `now - a` for an unsigned `now`
abbrev pub ℕ_sub : ℕ → ℤ → ℤ
ℕ_sub now (pos a) = if leb a now then pos (now - a) else neg (a - now)
ℕ_sub now (negsuc a) = pos (now + suc a)

-- the value that C's conversion from `long` to a 32-bit `int` gives
abbrev to_int : ℕ → ℤ
to_int n = let r = n % 2 ^ 32 in if ltb r (2 ^ 31) then pos r else neg (2 ^ 32 - r)

abbrev pub int_of : ℤ → ℤ
int_of (pos a) = to_int a
int_of (negsuc a) = to_int (2 ^ 32 - suc a % 2 ^ 32)
