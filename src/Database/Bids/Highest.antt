-- ===== src/Database/Bids/Highest.antt =====
-- `get_last_bid` reads the value of the last file in the order of the names.
use auction_server.Common.{
  ℕ, ◌≡◌, ◌≤◌, inl, inr, refl, ap, ◌∙◌, true, false, some, arith, if◌then◌else◌, Bytes, List, ◌++◌,
  [], ◌∷◌, Bool-cases, length, All, leb, ltb, ◌==◌, map, codes,
}
use auction_server.Common.Int.{pos}
use auction_server.Libc.{sscanf_d, print_padded, skip_space, digits_value, isspace, isdigit, atoi}
use auction_server.Libc.Numbers.{
  IsDigit, print_padded-IsDigit, digits_value-print_padded, digits_value_stop, length-print_padded,
}
use auction_server.Os.{World, bytes_le, insert_sorted, alphasort, scandir, bids_dir}
use auction_server.Os.Order.{bytes_le-print_padded}
use auction_server.Database.Names.{bid_name}
use auction_server.Database.Bids.{get_last_bid, last_entry, last_bid_of, value_or_0}

abbrev larger : ℕ → ℕ → ℕ
larger a b = if leb a b then b else a

-- the highest of some bids, 0 for none
unfoldable pub highest : List ℕ → ℕ
highest [] = 0
highest (v ∷ vs) = larger v (highest vs)

abbrev insert_value : ℕ → List ℕ → List ℕ
insert_value v [] = v ∷ []
insert_value v (n ∷ ns) = if leb v n then v ∷ n ∷ ns else n ∷ insert_value v ns

abbrev sort_values : List ℕ → List ℕ
sort_values [] = []
sort_values (v ∷ vs) = insert_value v (sort_values vs)

abbrev pub Small : List ℕ → Type 0
Small = All (λ v. v ≤ 999999)

insert_value-Small : (v : ℕ) (ns : List ℕ) → v ≤ 999999 → Small ns → Small (insert_value v ns)
insert_value-Small v [] h k = (h, tt)
insert_value-Small v (n ∷ ns) h k = elim (Bool-cases (leb v n)) [
  | inl e ↦ rw e (h, k)
  | inr e ↦ rw e (k.0, insert_value-Small v ns h k.1)
]

sort_values-Small : (vs : List ℕ) → Small vs → Small (sort_values vs)
sort_values-Small [] h = tt
sort_values-Small (v ∷ vs) h = insert_value-Small v (sort_values vs) h.0 (sort_values-Small vs h.1)

bytes_le-bid_name :
    (a b : ℕ) → a ≤ 999999 → b ≤ 999999 → bytes_le (bid_name a) (bid_name b) ≡ leb a b
unfolding bid_name
bytes_le-bid_name a b h k =
    bytes_le-print_padded 6 a b (codes ".txt") (omega arith) (omega arith) (omega arith)

insert_sorted-bid_name :
    (v : ℕ) (ns : List ℕ)
    → v ≤ 999999
    → Small ns
    → insert_sorted (bid_name v) (map bid_name ns) ≡ map bid_name (insert_value v ns)
unfolding insert_sorted
insert_sorted-bid_name v [] h k = refl
insert_sorted-bid_name v (n ∷ ns) h k = elim (Bool-cases (leb v n)) [
  | inl e ↦ rw (bytes_le-bid_name v n h k.0, e)
  | inr e ↦ rw (bytes_le-bid_name v n h k.0, e, insert_sorted-bid_name v ns h k.1)
]

alphasort-bid_name :
    (vs : List ℕ) → Small vs → alphasort (map bid_name vs) ≡ map bid_name (sort_values vs)
unfolding alphasort
alphasort-bid_name [] h = refl
alphasort-bid_name (v ∷ vs) h =
    rw (alphasort-bid_name vs h.1)
      (insert_sorted-bid_name v (sort_values vs) h.0 (sort_values-Small vs h.1))

abbrev last_value : ℕ → List ℕ → ℕ
last_value d [] = d
last_value d (n ∷ ns) = last_value n ns

-- Every value is at most the last.
abbrev Top : List ℕ → Type 0
Top [] = Unit
Top (n ∷ ns) = (n ≤ last_value n ns) × Top ns

-- A first value below `v` does not matter.
larger_first :
    (v n : ℕ) (ns : List ℕ) → n ≤ v → larger v (last_value 0 ns) ≡ larger v (last_value n ns)
larger_first v n [] h = ground arith
larger_first v n (m ∷ ns) h = refl

last_value-insert_value :
    (d v : ℕ) (ns : List ℕ)
    → Top ns
    → Top (insert_value v ns) × (last_value d (insert_value v ns) ≡ larger v (last_value 0 ns))
last_value-insert_value d v [] t = ground arith
last_value-insert_value d v (n ∷ ns) t =
    let k = last_value-insert_value n v ns t.1 in
    elim (Bool-cases (leb v n)) [
      | inl e ↦ rw e (ground (arith, t.0, t.1))
      | inr e ↦
          let below : n ≤ v = ground arith in
          rw e ((ground (arith, k.1), k.0), k.1 ∙ larger_first v n ns below)
    ]

-- The last of the sorted values is the highest.
last_value-sort_values :
    (vs : List ℕ) → Top (sort_values vs) × (last_value 0 (sort_values vs) ≡ highest vs)
unfolding highest
last_value-sort_values [] = (tt, refl)
last_value-sort_values (v ∷ vs) =
    let k = last_value-sort_values vs in
    let i = last_value-insert_value 0 v (sort_values vs) k.0 in (i.0, i.1 ∙ ap (larger v) k.1)

-- Digits up to a dot are read as their value.
sscanf_d-digits :
    (c : ℕ) (s r : Bytes)
    → All IsDigit (c ∷ s)
    → sscanf_d (c ∷ s ++ b'.' ∷ r) ≡ some (pos (digits_value 0 (c ∷ s)))
unfolding sscanf_d skip_space isspace isdigit atoi
sscanf_d-digits c s r h =
    let v : digits_value 0 (c ∷ s ++ b'.' ∷ r) ≡ digits_value 0 (c ∷ s) =
      digits_value_stop 0 (c ∷ s) b'.' r h refl in
    ground (arith, h.0, v)

-- The name of a bid begins with a digit.
record Named (v : ℕ) (c : ℕ) (s : Bytes) : Type 0 where
  name : bid_name v ≡ c ∷ s ++ codes ".txt"
  digits : All IsDigit (c ∷ s)
  value : digits_value 0 (c ∷ s) ≡ v

bid_name-Named : (v : ℕ) → v ≤ 999999 → (c : ℕ) × (s : Bytes) × Named v c s
unfolding bid_name
bid_name-Named v h =
    at (print_padded 6 v) refl (length-print_padded 6 v (omega arith) (omega arith))
      (print_padded-IsDigit 6 v) (digits_value-print_padded 6 v)
  where
    at :
        (p : Bytes)
        → print_padded 6 v ≡ p
        → length p ≡ 6
        → All IsDigit p
        → digits_value 0 p ≡ v
        → (c : ℕ) × (s : Bytes) × Named v c s
    at [] e l d i = absurd (omega arith)
    at (c ∷ s) e l d i = (c, s, record { name = rw e; digits = d; value = i })

pub sscanf_d-bid_name : (v : ℕ) → v ≤ 999999 → sscanf_d (bid_name v) ≡ some (pos v)
sscanf_d-bid_name v h =
    let (c, s, n) = bid_name-Named v h in
    rw (n.name, sscanf_d-digits c s (codes "txt") n.digits, n.value)

last_entry-bid_name :
    (d n : ℕ) (ns : List ℕ) → last_entry (map bid_name (n ∷ ns)) ≡ bid_name (last_value d (n ∷ ns))
unfolding last_entry
last_entry-bid_name d n [] = refl
last_entry-bid_name d n (m ∷ ns) = last_entry-bid_name n m ns

-- A dot is in front of every digit.
insert_sorted-dot :
    (t : Bytes) (ns : List ℕ)
    → Small ns
    → insert_sorted (b'.' ∷ t) (map bid_name ns) ≡ (b'.' ∷ t) ∷ map bid_name ns
unfolding insert_sorted bytes_le
insert_sorted-dot t [] h = refl
insert_sorted-dot t (n ∷ ns) h =
    let (c, s, k) = bid_name-Named n h.0 in
    let other : (b'.' == c) ≡ false = ground (arith, k.digits.0) in
    let less : ltb b'.' c ≡ true = ground (arith, k.digits.0) in rw (k.name, other, less)

last_value-le : (n : ℕ) (ns : List ℕ) → Small (n ∷ ns) → last_value n ns ≤ 999999
last_value-le n [] h = h.0
last_value-le n (m ∷ ns) h = last_value-le m ns h.1

-- The two entries that every directory has come first.
alphasort_dots :
    (vs : List ℕ)
    → Small vs
    → alphasort (codes "." ∷ codes ".." ∷ map bid_name vs)
      ≡ codes "." ∷ codes ".." ∷ map bid_name (sort_values vs)
unfolding alphasort
alphasort_dots vs h =
    rw
      (
        alphasort-bid_name vs h,
        insert_sorted-dot (codes ".") (sort_values vs) (sort_values-Small vs h),
      )
      (unfold insert_sorted bytes_le in refl)

-- Where the files in BIDS are named for the values of the bids, at most 999999, `get_last_bid`
-- returns the highest of them, and 0 if there is none.
pub get_last_bid-highest :
    (aid : Bytes) (vs : List ℕ) (w : World)
    → scandir (bids_dir aid) w ≡ some (codes "." ∷ codes ".." ∷ map bid_name vs)
    → Small vs
    → get_last_bid aid w ≡ pos (highest vs)
unfolding get_last_bid last_bid_of
get_last_bid-highest aid vs w e h =
    rw (e, alphasort_dots vs h)
      (at (sort_values vs) (last_value-sort_values vs).1 (sort_values-Small vs h))
  where
    at :
        (ns : List ℕ)
        → last_value 0 ns ≡ highest vs
        → Small ns
        → value_or_0 (sscanf_d (last_entry (codes "." ∷ codes ".." ∷ map bid_name ns)))
          ≡ pos (highest vs)
    at [] e' k = unfold sscanf_d skip_space isspace isdigit value_or_0 last_entry in ap pos e'
    at (n ∷ ns) e' k =
        unfold last_entry value_or_0 in
        rw (last_entry-bid_name 0 n ns, sscanf_d-bid_name (last_value n ns) (last_value-le n ns k))
          (ap pos e')
