-- ===== src/Validators/Laws.antt =====
-- What the validators accept.
use auction_server.Common.{
  ℕ, ◌<◌, ◌≤◌, ◌≡◌, ◌≢◌, refl, ap, ◌∙◌, true, false, Bool, ◌↔◌, ◌⊎◌, [], ◌∷◌, arith, ◌==◌,
  if◌then◌else◌, Bytes, All, length, Bool-cases, inl, inr, not,
}
use auction_server.Common.Int.{pos}
use auction_server.Libc.{isdigit, isalnum, atoi, print_padded}
use auction_server.Libc.Numbers.{
  IsDigit, isdigit_iff, print_padded-IsDigit, length-print_padded, digits_value-print_padded,
  atoi-digits,
}
use auction_server.Validators.{
  all_bytes, is_valid_uid, is_valid_passwd, is_valid_fname, is_valid_path_char, is_valid_aid,
  is_valid_start_value, is_valid_time_active, is_valid_fsize, is_valid_name, is_valid_name_char,
}

-- The loop accepts exactly the texts whose bytes all pass.
all_bytes_iff :
    (p : ℕ → Bool) (P : ℕ → Type 0)
    → ((c : ℕ) → (p c ≡ true) ↔ P c)
    → (s : Bytes) → (all_bytes p s ≡ true) ↔ All P s
unfolding all_bytes
all_bytes_iff p P iff [] = (λ _. tt, λ _. refl)
all_bytes_iff p P iff (c ∷ s) = elim (Bool-cases (p c)) [
  | inl e ↦ (
    λ h. ((iff c).0 e, (all_bytes_iff p P iff s).0 (rw e at h)),
    λ h. rw e ((all_bytes_iff p P iff s).1 h.1),
  )
  | inr e ↦ (λ h. absurd (ground arith), λ h. absurd (ground (arith, (iff c).1 h.0)))
]

-- A test of the size and of every byte.
sized_iff :
    (n : ℕ) (p : ℕ → Bool) (P : ℕ → Type 0)
    → ((c : ℕ) → (p c ≡ true) ↔ P c)
    → (s : Bytes)
    → ((if not (length s == n) then false else all_bytes p s) ≡ true) ↔ ((length s ≡ n) × All P s)
sized_iff n p P iff s = elim (Bool-cases (length s == n)) [
  | inl e ↦ (
    λ h. (ground arith, (all_bytes_iff p P iff s).0 (rw e at h)),
    λ h. rw e ((all_bytes_iff p P iff s).1 h.1),
  )
  | inr e ↦ (λ h. absurd (ground arith), λ h. absurd (ground (arith, h.0)))
]

-- `is_valid_uid` accepts exactly the texts of six decimal digits.
pub is_valid_uid_iff : (s : Bytes) → (is_valid_uid s ≡ true) ↔ ((length s ≡ 6) × All IsDigit s)
unfolding is_valid_uid
is_valid_uid_iff s = sized_iff 6 isdigit IsDigit isdigit_iff s

pub is_valid_aid_iff : (s : Bytes) → (is_valid_aid s ≡ true) ↔ ((length s ≡ 3) × All IsDigit s)
unfolding is_valid_aid
is_valid_aid_iff s = sized_iff 3 isdigit IsDigit isdigit_iff s

-- What the server prints for auction `n` with `%03d`, at most 999, is an AID that `is_valid_aid`
-- accepts and that `atoi` reads back as `n`.
pub is_valid_aid-print_padded :
    (n : ℕ) → n ≤ 999 → (is_valid_aid (print_padded 3 n) ≡ true) × (atoi (print_padded 3 n) ≡ pos n)
is_valid_aid-print_padded n h = (
  (is_valid_aid_iff (print_padded 3 n)).1
      (length-print_padded 3 n (omega arith) (omega arith), print_padded-IsDigit 3 n),
  atoi-digits _ (print_padded-IsDigit 3 n) ∙ ap pos (digits_value-print_padded 3 n),
)

-- A byte of an asset's file name: it is none of the refused ones, such as the separator `/`.
abbrev pub IsPathChar : ℕ → Type 0
IsPathChar c =
    (c ≢ b'/')
    × (c ≢ b':')
    × (c ≢ b'*')
    × (c ≢ b'\\')
    × (c ≢ 96)
    × (c ≢ b'~')
    × (c ≢ b'|')
    × (c ≢ b'?')
    × (c ≢ b'!')
    × (c ≢ b'#')
    × (c ≢ b'$')
    × (c ≢ b'%')

is_valid_path_char_iff : (c : ℕ) → (is_valid_path_char c ≡ true) ↔ IsPathChar c
unfolding is_valid_path_char
is_valid_path_char_iff c = ground arith

abbrev pub IsHidden : Bytes → Type 0
IsHidden [] = ⊥
IsHidden (c ∷ s) = c ≡ b'.'

-- `is_valid_fname` accepts exactly the texts of one to 24 bytes that do not begin with a dot and
-- hold none of the refused bytes: no accepted name leaves the ASSET directory.
pub is_valid_fname_iff :
    (s : Bytes)
    → (is_valid_fname s ≡ true)
      ↔ ((0 < length s) × (length s ≤ 24) × (¬ (IsHidden s)) × All IsPathChar s)
unfolding is_valid_fname
is_valid_fname_iff [] = ground arith
is_valid_fname_iff (c ∷ s) =
    ground (arith, all_bytes_iff is_valid_path_char IsPathChar is_valid_path_char_iff (c ∷ s))

-- `is_valid_start_value` accepts exactly the texts of one to six decimal digits.
pub is_valid_start_value_iff :
    (s : Bytes)
    → (is_valid_start_value s ≡ true) ↔ ((0 < length s) × (length s ≤ 6) × All IsDigit s)
unfolding is_valid_start_value
is_valid_start_value_iff s = ground (arith, all_bytes_iff isdigit IsDigit isdigit_iff s)

abbrev pub IsAlnum : ℕ → Type 0
IsAlnum c = IsDigit c ⊎ ((b'a' ≤ c) × (c ≤ b'z')) ⊎ ((b'A' ≤ c) × (c ≤ b'Z'))

isalnum_iff : (c : ℕ) → (isalnum c ≡ true) ↔ IsAlnum c
unfolding isalnum
isalnum_iff c = ground arith

-- `is_valid_passwd` accepts exactly the texts of eight letters and digits.
pub is_valid_passwd_iff :
    (s : Bytes) → (is_valid_passwd s ≡ true) ↔ ((length s ≡ 8) × All IsAlnum s)
unfolding is_valid_passwd
is_valid_passwd_iff s = sized_iff 8 isalnum IsAlnum isalnum_iff s

pub is_valid_time_active_iff :
    (s : Bytes)
    → (is_valid_time_active s ≡ true) ↔ ((0 < length s) × (length s ≤ 5) × All IsDigit s)
unfolding is_valid_time_active
is_valid_time_active_iff s = ground (arith, all_bytes_iff isdigit IsDigit isdigit_iff s)

pub is_valid_fsize_iff :
    (s : Bytes) → (is_valid_fsize s ≡ true) ↔ ((0 < length s) × (length s ≤ 8) × All IsDigit s)
unfolding is_valid_fsize
is_valid_fsize_iff s = ground (arith, all_bytes_iff isdigit IsDigit isdigit_iff s)

-- An accepted name has at most ten bytes, all of them visible.
pub is_valid_name-visible :
    (s : Bytes) → is_valid_name s ≡ true → (length s ≤ 10) × All (λ c. b' ' < c) s
unfolding is_valid_name
is_valid_name-visible s h = ground (arith, visible s)
  where
    visible_char : (c : ℕ) → is_valid_name_char c ≡ true → b' ' < c
    visible_char c e = unfold is_valid_name_char isalnum in ground (arith, e)

    visible : (t : Bytes) → all_bytes is_valid_name_char t ≡ true → All (λ c. b' ' < c) t
    visible [] e = tt
    visible (c ∷ t) e =
        unfold all_bytes in
        elim (Bool-cases (is_valid_name_char c)) [
          | inl y ↦ (visible_char c y, visible t (rw y at e))
          | inr n ↦ absurd (ground (arith, rw n at e))
        ]
