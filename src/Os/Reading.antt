-- ===== src/Os/Reading.antt =====
-- `fgets` on a file of one short line.
use auction_server.Common.{
  ◌≡◌, ◌≢◌, refl, ap, ℕ, zero, suc, ◌≤◌, ◌<◌, ◌-◌, some, arith, Bytes, [], ◌∷◌, ◌++◌, length,
}
use auction_server.Libc.Strtok.{Lacks}
use auction_server.Os.{fgets, fgets_line, up_to_newline, take_bytes}

pub take_bytes_of_le : (n : ℕ) (s : Bytes) → length s ≤ n → take_bytes n s ≡ s
unfolding take_bytes
take_bytes_of_le zero [] h = refl
take_bytes_of_le zero (c ∷ s) h = absurd (omega arith)
take_bytes_of_le (suc n) [] h = refl
take_bytes_of_le (suc n) (c ∷ s) h = ap (◌∷◌ c) (take_bytes_of_le n s (omega arith))

up_to_newline-Lacks : (s : Bytes) → Lacks b'\n' s → up_to_newline s ≡ s
unfolding up_to_newline
up_to_newline-Lacks [] h = refl
up_to_newline-Lacks (c ∷ s) h = ground (arith, up_to_newline-Lacks s h.1)

up_to_newline-append :
    (s r : Bytes) → Lacks b'\n' s → up_to_newline (s ++ b'\n' ∷ r) ≡ s ++ b'\n' ∷ []
unfolding up_to_newline
up_to_newline-append [] r h = refl
up_to_newline-append (c ∷ s) r h = ground (arith, up_to_newline-append s r h.1)

-- A file that holds less than one line and less than the buffer is read whole.
pub fgets_whole : (n : ℕ) (s : Bytes) → s ≢ [] → length s < n → Lacks b'\n' s → fgets n s ≡ some s
unfolding fgets_line
fgets_whole n [] ne h k = absurd (ne refl)
fgets_whole n (c ∷ s) ne h k =
    unfold fgets in
    rw (up_to_newline-Lacks (c ∷ s) k, take_bytes_of_le (n - 1) (c ∷ s) (omega arith))
