-- ===== src/Database/Names/StartLine.antt =====
-- The words of a START line, as the handlers and `seconds_since` read them back with `strtok`.
use auction_server.Common.{
  ℕ, zero, suc, ◌+◌, ◌≡◌, ◌≢◌, refl, ap, ◌∙◌, some, arith, Bytes, ◌++◌, [], ◌∷◌, length,
  length-append, append_assoc, All, Bool-cases, inl, inr, ltb, ◌/◌, ◌%◌,
}
use auction_server.Libc.{strtok, print_dec, dec_digits, skip}
use auction_server.Libc.Numbers.{IsDigit, print_dec-IsDigit, print_padded-IsDigit}
use auction_server.Libc.Strtok.{Lacks, strtok-append}
use auction_server.Libc.Time.{datetime_str, date_str, time_str}
use auction_server.Database.Names.{start_info, nth_token}

-- A word that is not empty and holds no space.
pub record IsWord (s : Bytes) : Type 0 where
  pub some_byte : s ≢ []
  pub one_word : Lacks b' ' s

digits-Lacks : (s : Bytes) → All IsDigit s → Lacks b' ' s
digits-Lacks [] h = tt
digits-Lacks (c ∷ s) h = ((λ e. omega (arith, h.0)), digits-Lacks s h.1)

-- `strtok` walks over a first word.
nth_token-append :
    (k : ℕ) (t r : Bytes) → IsWord t → nth_token (suc k) b' ' (t ++ b' ' ∷ r) ≡ nth_token k b' ' r
unfolding nth_token
nth_token-append k t r w =
    ap (λ p. nth_token k b' ' p.1) (strtok-append b' ' t r w.some_byte w.one_word)

print_dec-ne : (n : ℕ) → print_dec n ≢ []
unfolding print_dec dec_digits
print_dec-ne n e = elim (Bool-cases (ltb n 10)) [
  | inl l ↦ absurd (ground (arith, rw l at e))
  | inr l ↦
      let k = rw l at e in
      absurd
        (omega (arith, ap length k, length-append (dec_digits n (n / 10)) ((b'0' + n % 10) ∷ [])))
]

print_dec-IsWord : (n : ℕ) → IsWord (print_dec n)
print_dec-IsWord n = record {
  some_byte = print_dec-ne n;
  one_word = digits-Lacks (print_dec n) (print_dec-IsDigit n);
}

newline_free : (s : Bytes) → All IsDigit s → Lacks b'\n' s
newline_free [] h = tt
newline_free (c ∷ s) h = ((λ e. omega (arith, h.0)), newline_free s h.1)

Lacks-join :
    (a b : Bytes) (c : ℕ) → Lacks b' ' a → c ≢ b' ' → Lacks b' ' b → Lacks b' ' (a ++ c ∷ b)
Lacks-join [] b c h n k = (n, k)
Lacks-join (x ∷ a) b c h n k = (h.0, Lacks-join a b c h.1 n k)

-- Three numbers with a sign between them.
joined-IsWord :
    (a b d : Bytes) (c : ℕ)
    → c ≢ b' '
    → All IsDigit a
    → All IsDigit b
    → All IsDigit d
    → IsWord (a ++ c ∷ (b ++ c ∷ d))
joined-IsWord a b d c n ha hb hd = record {
  some_byte = λ e. absurd (omega (arith, ap length e, length-append a (c ∷ (b ++ c ∷ d))));
  one_word =
      Lacks-join a (b ++ c ∷ d) c (digits-Lacks a ha) n
        (Lacks-join b d c (digits-Lacks b hb) n (digits-Lacks d hd));
}

date_str-IsWord : (t : ℕ) → IsWord (date_str t)
unfolding date_str
date_str-IsWord t =
    joined-IsWord _ _ _ b'-' (omega arith) (print_dec-IsDigit _) (print_padded-IsDigit 2 _)
      (print_padded-IsDigit 2 _)

time_str-IsWord : (t : ℕ) → IsWord (time_str t)
unfolding time_str
time_str-IsWord t =
    joined-IsWord _ _ _ b':' (omega arith) (print_padded-IsDigit 2 _) (print_padded-IsDigit 2 _)
      (print_padded-IsDigit 2 _)

-- The first word is the first token.
first_token : (t r : Bytes) → IsWord t → (nth_token 0 b' ' (t ++ b' ' ∷ r)).0 ≡ some t
unfolding nth_token
first_token t r w = ap (λ p. p.0) (strtok-append b' ' t r w.some_byte w.one_word)

-- A space in front is skipped.
nth_token-space : (k : ℕ) (s : Bytes) → nth_token k b' ' (b' ' ∷ s) ≡ nth_token k b' ' s
unfolding nth_token strtok skip
nth_token-space zero s = refl
nth_token-space (suc k) s = refl

-- What the words of a START line are.
pub record StartWords (line uid name fname : Bytes) (sv ta now : ℕ) : Type 0 where
  pub owner : (nth_token 0 b' ' line).0 ≡ some uid
  pub title : (nth_token 1 b' ' line).0 ≡ some name
  pub asset : (nth_token 2 b' ' line).0 ≡ some fname
  pub start_value : (nth_token 3 b' ' line).0 ≡ some (print_dec sv)
  pub time_active : (nth_token 4 b' ' line).0 ≡ some (print_dec ta)
  pub start_date : (nth_token 5 b' ' line).0 ≡ some (date_str now)
  pub start_time : (nth_token 6 b' ' line).0 ≡ some (time_str now)
  pub start_sec_time : (strtok b'\n' (nth_token 6 b' ' line).1).0 ≡ some (print_dec now)

-- The line that `create_new_auction` writes is read back word by word when its three texts are words:
-- the owner, the name, the file's name, the start value, the duration, the date, the time, and up to
-- the newline the second of the start.
pub start_info-StartWords :
    (uid name fname : Bytes) (sv ta now : ℕ)
    → IsWord uid
    → IsWord name
    → IsWord fname
    → StartWords (start_info uid name fname sv ta now) uid name fname sv ta now
unfolding start_info nth_token
start_info-StartWords uid name fname sv ta now u n f =
    let second = print_dec now ++ b'\n' ∷ [] in
    let day = time_str now ++ b' ' ∷ second in
    let time = datetime_str now ++ b' ' ∷ second in
    let date = date_str now ++ b' ' ∷ day in
    let split : time ≡ date =
      unfold datetime_str in append_assoc (date_str now) (b' ' ∷ time_str now) (b' ' ∷ second) in
    let active = print_dec ta ++ b' ' ∷ time in
    let value = print_dec sv ++ b' ' ∷ active in
    let file_name = fname ++ b' ' ∷ value in
    let title = name ++ b' ' ∷ file_name in
    let past_uid = λ (k : ℕ). nth_token-append k uid title u in
    let past_name = λ (k : ℕ). past_uid (suc k) ∙ nth_token-append k name file_name n in
    let past_fname = λ (k : ℕ). past_name (suc k) ∙ nth_token-append k fname value f in
    let past_value = λ (k : ℕ).
      past_fname (suc k) ∙ nth_token-append k (print_dec sv) active (print_dec-IsWord sv) in
    let past_active = λ (k : ℕ).
      past_value (suc k)
      ∙ nth_token-append k (print_dec ta) time (print_dec-IsWord ta)
      ∙ ap (nth_token k b' ') split in
    let past_date = λ (k : ℕ).
      past_active (suc k) ∙ nth_token-append k (date_str now) day (date_str-IsWord now) in
    record {
      owner = first_token uid title u;
      title = ap (λ p. p.0) (past_uid 0) ∙ first_token name file_name n;
      asset = ap (λ p. p.0) (past_name 0) ∙ first_token fname value f;
      start_value =
          ap (λ p. p.0) (past_fname 0) ∙ first_token (print_dec sv) active (print_dec-IsWord sv);
      time_active =
          ap (λ p. p.0) (past_value 0) ∙ first_token (print_dec ta) time (print_dec-IsWord ta);
      start_date =
          ap (λ p. p.0) (past_active 0) ∙ first_token (date_str now) day (date_str-IsWord now);
      start_time =
          ap (λ p. p.0) (past_date 0) ∙ first_token (time_str now) second (time_str-IsWord now);
      start_sec_time =
          ap (λ p. (strtok b'\n' p.1).0) (past_date 0)
          ∙ ap (λ p. (strtok b'\n' p.1).0)
              (strtok-append b' ' (time_str now) second (time_str-IsWord now).some_byte
                (time_str-IsWord now).one_word)
          ∙ ap (λ p. p.0)
              (strtok-append b'\n' (print_dec now) [] (print_dec-ne now)
                (newline_free (print_dec now) (print_dec-IsDigit now)));
    }

-- An empty name shifts the words: what is read as the start value is the time active.
start_info_empty_name :
    (uid fname : Bytes) (sv ta now : ℕ)
    → IsWord uid
    → IsWord fname
    → (nth_token 3 b' ' (start_info uid [] fname sv ta now)).0 ≡ some (print_dec ta)
unfolding start_info
start_info_empty_name uid fname sv ta now u f =
    let time = datetime_str now ++ b' ' ∷ (print_dec now ++ b'\n' ∷ []) in
    let active = print_dec ta ++ b' ' ∷ time in
    let value = print_dec sv ++ b' ' ∷ active in
    ap (λ p. p.0)
      (nth_token-append 2 uid (b' ' ∷ (fname ++ b' ' ∷ value)) u
        ∙ nth_token-space 2 (fname ++ b' ' ∷ value)
        ∙ nth_token-append 1 fname value f
        ∙ nth_token-append 0 (print_dec sv) active (print_dec-IsWord sv))
    ∙ first_token (print_dec ta) time (print_dec-IsWord ta)
