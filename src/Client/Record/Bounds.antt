-- ===== src/Client/Record/Bounds.antt =====
-- What the client's reading of a record writes, and how long it takes.
use auction_server.Common.{
  ℕ, zero, suc, ◌+◌, ◌*◌, ◌≤◌, ◌<◌, ◌≡◌, ◌≢◌, refl, Bool, true, Option, none, some, [], ◌∷◌, ◌++◌,
  arith, ltb, Bytes, codes, bytes_eq, length, length-append, Bool-cases, inl, inr,
}
use auction_server.Libc.{strtok}
use auction_server.Libc.Strtok.{length-strtok, length-rest}
use auction_server.Validators.{
  is_valid_uid, is_valid_start_value, is_valid_name, is_valid_fname, is_valid_time_active,
}
use mathlib.Core.Path.{subst}
use auction_server.Validators.Laws.{is_valid_uid_iff}
use auction_server.Validators.DateTime.{fits_date_time, is_valid_date_time, date_time_length}
use auction_server.Client.Record.{
  Parsed, ◌>>=◌, parsed, unknown, past_end, date_past_end, no_fuel, next, accepted, next_time,
  checked_time, record_head, bid_text, bid_line, any_text, bid_end, bid_count, is_bid, strcat,
  bids_loop, auction_status, record_data, record_payload, record_answer,
}

-- A parser that has fuel enough, does not write behind `bids_str` unless `Over` holds, and whose value
-- satisfies `P`.
abbrev pub Ends : {A : Type 0} → Type 0 → (A → Type 0) → Parsed A → Type 0
Ends Over P (parsed a) = P a
Ends Over P unknown = Unit
Ends Over P past_end = Over
Ends Over P date_past_end = Unit
Ends Over P no_fuel = ⊥

-- One step after the other.
then-Ends :
    {A B : Type 0} (Over : Type 0) (P : A → Type 0) (Q : B → Type 0) (m : Parsed A)
    (f : A → Parsed B)
    → Ends Over P m
    → ((a : A) → P a → Ends Over Q (f a))
    → Ends Over Q (m >>= f)
then-Ends Over P Q (parsed a) f h k = k a h
then-Ends Over P Q unknown f h k = tt
then-Ends Over P Q past_end f h k = h
then-Ends Over P Q date_past_end f h k = tt
then-Ends Over P Q no_fuel f h k = absurd h

-- A token that the validator accepts, and a shorter text behind it.
abbrev Shorter : (Bytes → Bool) → Bytes → Bytes × Bytes → Type 0
Shorter valid s (t, r) = (valid t ≡ true) × (length t + length r ≤ length s) × (length r < length s)

accepted-Ends :
    (Over : Type 0) (d : ℕ) (valid : Bytes → Bool) (s : Bytes) (o : Option Bytes × Bytes)
    → strtok d s ≡ o
    → Ends Over (Shorter valid s) (accepted valid o)
unfolding accepted
accepted-Ends Over d valid s (none, r) e = tt
accepted-Ends Over d valid s (some t, r) e = elim (Bool-cases (valid t)) [
  | inl v ↦ rw v (v, (length-strtok d s e).0, (length-strtok d s e).1)
  | inr v ↦ rw v tt
]

next-Ends :
    (Over : Type 0) (d : ℕ) (valid : Bytes → Bool) (s : Bytes)
    → Ends Over (Shorter valid s) (next d valid s)
unfolding next
next-Ends Over d valid s = accepted-Ends Over d valid s (strtok d s) refl

-- One token of a chain, and what holds of the rest.
then_next :
    {B : Type 0} (Over : Type 0) (Q : B → Type 0) (d : ℕ) (valid : Bytes → Bool) (s : Bytes)
    (f : Bytes × Bytes → Parsed B)
    → ((t r : Bytes) → Shorter valid s (t, r) → Ends Over Q (f (t, r)))
    → Ends Over Q (next d valid s >>= f)
then_next Over Q d valid s f k =
    then-Ends Over (Shorter valid s) Q (next d valid s) f (next-Ends Over d valid s)
      (λ x h. k x.0 x.1 h)

checked_time-Ends :
    (Over : Type 0) (date s : Bytes) (o : Option Bytes × Bytes)
    → strtok b' ' s ≡ o
    → Ends Over (Shorter (λ t. is_valid_date_time date t) s) (checked_time date o)
unfolding checked_time
checked_time-Ends Over date s (none, r) e = tt
checked_time-Ends Over date s (some t, r) e = elim (Bool-cases (fits_date_time date t)) [
  | inr f ↦ rw f tt
  | inl f ↦ elim (Bool-cases (is_valid_date_time date t)) [
    | inl v ↦ rw (f, v) (v, (length-strtok b' ' s e).0, (length-strtok b' ' s e).1)
    | inr v ↦ rw (f, v) tt
  ]
]

-- A time of a chain, and what holds of the rest.
then_time :
    {B : Type 0} (Over : Type 0) (Q : B → Type 0) (date s : Bytes) (f : Bytes × Bytes → Parsed B)
    → ((t r : Bytes) → Shorter (λ u. is_valid_date_time date u) s (t, r) → Ends Over Q (f (t, r)))
    → Ends Over Q (next_time date s >>= f)
unfolding next_time
then_time Over Q date s f k =
    then-Ends Over (Shorter (λ u. is_valid_date_time date u) s) Q
      (checked_time date (strtok b' ' s)) f (checked_time-Ends Over date s (strtok b' ' s) refl)
      (λ x h. k x.0 x.1 h)

-- A bid's text, with the newline that may follow, is no longer than twice what it is read from.
abbrev Bid : Bytes → Bytes × Bytes → Type 0
Bid s (text, r) = (length text + 1 + 2 * length r ≤ 2 * length s) × (length r < length s)

length-bid_line :
    (uid value date time sec : Bytes)
    → length (bid_line uid value date time sec)
      ≡ 13 + length uid + length value + length date + length time + length sec
length-bid_line uid value date time sec =
    let end = sec ++ codes "| " in
    let times = time ++ (codes " - " ++ end) in
    let dates = date ++ b' ' ∷ times in
    let values = value ++ (codes " - " ++ dates) in
    omega (
      arith,
      length-append sec (codes "| "),
      length-append time (codes " - " ++ end),
      length-append date (b' ' ∷ times),
      length-append value (codes " - " ++ dates),
      length-append uid (codes " - " ++ values),
    )

bid_text-Ends : (Over : Type 0) (s : Bytes) → Ends Over (Bid s) (bid_text s)
unfolding bid_text
bid_text-Ends Over s = then_next Over (Bid s) b' ' is_valid_uid s _ (λ uid s1 h1.
    then_next Over (Bid s) b' ' is_valid_start_value s1 _ (λ value s2 h2.
      then_next Over (Bid s) b' ' any_text s2 _ (λ date s3 h3.
        then_time Over (Bid s) date s3 _ (λ time s4 h4.
          then_next Over (Bid s) b' ' is_valid_start_value s4 _ (λ sec s5 h5.
            let six : length uid ≡ 6 = ((is_valid_uid_iff uid).0 h1.0).0 in
            let eighteen = date_time_length date time h4.0 in
            let size = length-bid_line uid value date time sec in
            (
              omega (arith, six, eighteen, size, h1.1, h2.1, h3.1, h4.1, h5.1),
              omega (arith, h1.2, h2.2, h3.2, h4.2, h5.2),
            ))))))

module _ (Over : Type 0) (bound : ℕ) (over : 16384 ≤ bound → Over) where
  strcat-Ends :
      (bids text : Bytes)
      → length bids + length text ≤ bound
      → Ends Over (λ b. length b ≡ length bids + length text) (strcat bids text)
  unfolding strcat
  strcat-Ends bids text h = elim (Bool-cases (ltb (length bids + length text) 16384)) [
    | inl e ↦ rw e (length-append bids text)
    | inr e ↦ rw e (over (ground (arith, e, h)))
  ]

  length-bid_end : (count : ℕ) → length (bid_end count) ≤ 1
  unfolding bid_end
  length-bid_end count = ground arith

  -- What the loop leaves: `bids_str` within the bound with a newline.
  abbrev Bids : Bytes × Option Bytes × Bytes → Type 0
  Bids (bids, token, s) = length bids + 1 ≤ bound

  bids_loop-Ends :
      (f : ℕ) (bids : Bytes) (count : ℕ) (o : Option Bytes × Bytes)
      → length o.1 < f
      → length bids + 2 * length o.1 + 1 ≤ bound
      → Ends Over Bids (bids_loop f bids count o)
  unfolding bids_loop
  bids_loop-Ends zero bids count (token, s) l h = absurd (omega (arith, l))
  bids_loop-Ends (suc f) bids count (token, s) l h = elim (Bool-cases (is_bid token)) [
    | inl e ↦ rw e (
        then-Ends Over (Bid s) Bids (bid_text s) _ (bid_text-Ends Over s) (λ x k.
          let text = x.0 ++ bid_end count in
          let size : length text ≤ length x.0 + 1 =
            omega (arith, length-append x.0 (bid_end count), length-bid_end count) in
          then-Ends Over (λ b. length b ≡ length bids + length text) Bids (strcat bids text) _
            (strcat-Ends bids text (omega (arith, size, k.0, h)))
            (λ b m.
              bids_loop-Ends f b (bid_count count) (strtok b' ' x.1)
                (omega (arith, length-rest b' ' x.1, k.1, l))
                (omega (arith, m, size, length-rest b' ' x.1, k.0, h)))))
    | inr e ↦ rw e (omega (arith, h))
  ]

  record_head-Ends : (aid s : Bytes) → Ends Over (λ x. length x.1 ≤ length s) (record_head aid s)
  unfolding record_head
  record_head-Ends aid s =
      let P : Bytes × Bytes → Type 0 = λ x. length x.1 ≤ length s in
      then_next Over P b' ' is_valid_uid s _ (λ host_uid s1 h1.
        then_next Over P b' ' is_valid_name s1 _ (λ name s2 h2.
          then_next Over P b' ' is_valid_fname s2 _ (λ fname s3 h3.
            then_next Over P b' ' is_valid_start_value s3 _ (λ sv s4 h4.
              then_next Over P b' ' any_text s4 _ (λ date s5 h5.
                then_time Over P date s5 _ (λ time s6 h6.
                  then_next Over P b' ' is_valid_time_active s6 _
                    (λ ta s7 h7. omega (arith, h1.1, h2.1, h3.1, h4.1, h5.1, h6.1, h7.1))))))))

  auction_status-Ends :
      (token : Option Bytes) (s : Bytes) → Ends Over (λ x. Unit {0}) (auction_status token s)
  unfolding auction_status
  auction_status-Ends none s = tt
  auction_status-Ends (some token) s =
      let P : Bytes → Type 0 = λ x. Unit in
      elim (Bool-cases (bytes_eq token (codes "E"))) [
        | inl e ↦ rw e (
            then_next Over P b' ' any_text s _ (λ date s1 h1.
              then_time Over P date s1 _
                (λ time s2 h2. then_next Over P b'\n' is_valid_start_value s2 _ (λ sec s3 h3. tt))))
        | inr e ↦ rw e tt
      ]

  record_data-Ends :
      (aid s : Bytes) → 2 * length s + 1 ≤ bound → Ends Over (λ x. Unit {0}) (record_data aid s)
  unfolding record_data
  record_data-Ends aid s h =
      let P : Bytes → Type 0 = λ x. Unit in
      then-Ends Over (λ x. length x.1 ≤ length s) P (record_head aid s) _ (record_head-Ends aid s)
        (λ x k.
          then-Ends Over Bids P (bids_loop (suc (length x.1)) [] 0 (strtok b' ' x.1)) _
            (bids_loop-Ends (suc (length x.1)) [] 0 (strtok b' ' x.1)
              (omega (arith, length-rest b' ' x.1)) (omega (arith, length-rest b' ' x.1, k, h)))
            (λ y m.
              then-Ends Over (λ b. length b ≡ length y.0 + 1) P (strcat y.0 (codes "\n")) _
                (strcat-Ends y.0 (codes "\n") m)
                (λ b i.
                  then-Ends Over (λ x. Unit {0}) P (auction_status y.1 y.2) _
                    (auction_status-Ends y.1 y.2) (λ t u. tt))))

  record_payload-Ends :
      (aid s : Bytes) → 2 * length s + 1 ≤ bound → Ends Over (λ x. Unit {0}) (record_payload aid s)
  unfolding record_payload
  record_payload-Ends aid s h =
      let P : Bytes → Type 0 = λ x. Unit in
      elim (Bool-cases (bytes_eq s (codes "ERR"))) [
        | inl e ↦ rw e tt
        | inr e ↦ rw e (elim (Bool-cases (bytes_eq s (codes "NOK"))) [
          | inl n ↦ rw n tt
          | inr n ↦ rw n (
              then_next Over P b' ' _ s _ (λ status s1 h1.
                then_next Over P b'\n' any_text s1 _ (λ data_text s2 h2.
                  record_data-Ends aid data_text (omega (arith, h1.1, h2.1, h)))))
        ])
      ]

  record_answer-Ends :
      (aid buffer : Bytes)
      → 2 * length buffer + 1 ≤ bound
      → Ends Over (λ x. Unit {0}) (record_answer aid buffer)
  unfolding record_answer
  record_answer-Ends aid buffer h =
      let P : Bytes → Type 0 = λ x. Unit in
      then_next Over P b' ' _ buffer _ (λ command s1 h1.
        then_next Over P b'\n' any_text s1 _
          (λ payload s2 h2. record_payload-Ends aid payload (omega (arith, h1.1, h2.1, h))))

-- Reading a record always ends: whatever the answer, the loop over its bids never needs more rounds
-- than it is given, one more than the bytes behind the auction's data.
pub record_answer-ne-no_fuel : (aid buffer : Bytes) → record_answer aid buffer ≢ no_fuel
record_answer-ne-no_fuel aid buffer e =
    subst (Ends Unit (λ x. Unit {0})) e
      (record_answer-Ends Unit (2 * length buffer + 1) (λ h. tt) aid buffer (omega arith))

-- An answer of at most 8191 bytes never makes the client write behind `bids_str` with its 16384 bytes,
-- whatever it holds.
pub record_answer-ne-past_end :
    (aid buffer : Bytes) → length buffer ≤ 8191 → record_answer aid buffer ≢ past_end
record_answer-ne-past_end aid buffer h e = subst (Ends ⊥ (λ x. Unit {0})) e (
    record_answer-Ends ⊥ (2 * length buffer + 1) (λ l. absurd (omega (arith, l, h))) aid buffer
      (omega arith))
