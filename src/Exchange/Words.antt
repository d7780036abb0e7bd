-- ===== src/Exchange/Words.antt =====
-- The words of `BID` and `CLS` that the client sends and the server takes apart.
use auction_server.Common.{
  ℕ, ◌≤◌, ◌≡◌, ◌≢◌, refl, ap, ◌∙◌, true, some, [], ◌∷◌, ◌++◌, arith, Bytes, length, length-append,
  append_assoc,
}
use auction_server.Libc.Strtok.{Lacks, strtok-append}
use auction_server.Validators.{is_valid_aid}
use auction_server.Validators.Laws.{is_valid_aid_iff}
use auction_server.Tcp.Close.{three_args}
use auction_server.Exchange.Session.{
  Valid, uid_form, passwd_form, digits-Lacks, alnum-Lacks, Lacks-append,
}
use auction_server.Exchange.Lists.Board.{aid-Lacks}

-- The three words that the server reads for `BID` and `CLS`.
abbrev pub three_words : Bytes → Bytes → Bytes → ℕ → Bytes
three_words uid passwd aid d = uid ++ b' ' ∷ (passwd ++ b' ' ∷ (aid ++ d ∷ []))

pub three_words-append :
    (uid passwd aid : Bytes) (d : ℕ) (r : Bytes)
    → three_words uid passwd aid d ++ r ≡ uid ++ b' ' ∷ (passwd ++ b' ' ∷ (aid ++ d ∷ r))
three_words-append uid passwd aid d r =
    append_assoc uid _ r
    ∙ ap (λ s. uid ++ b' ' ∷ s)
        (append_assoc passwd _ r ∙ ap (λ s. passwd ++ b' ' ∷ s) (append_assoc aid (d ∷ []) r))

module _ {uid passwd : Bytes} (aid : Bytes) (v : Valid uid passwd)
    (h : is_valid_aid aid ≡ true) where
  pub length-three_words : (d : ℕ) → length (three_words uid passwd aid d) ≡ 20
  length-three_words d = omega (
    arith,
    (uid_form v).0,
    (passwd_form v).0,
    ((is_valid_aid_iff aid).0 h).0,
    length-append uid (b' ' ∷ (passwd ++ b' ' ∷ (aid ++ d ∷ []))),
    length-append passwd (b' ' ∷ (aid ++ d ∷ [])),
    length-append aid (d ∷ []),
  )

  pub three_words-Lacks : (d : ℕ) → d ≢ 0 → Lacks 0 (three_words uid passwd aid d)
  three_words-Lacks d ne = Lacks-append 0 uid _ (digits-Lacks 0 uid (omega arith) (uid_form v).1) (
    omega arith,
    Lacks-append 0 passwd _ (alnum-Lacks 0 passwd (omega arith) (passwd_form v).1)
        (omega arith, Lacks-append 0 aid _ (aid-Lacks 0 aid (omega arith) h) (ne, tt)),
  )

  -- The server takes them apart.
  pub three_args-three_words :
      (d : ℕ) → d ≤ b' ' → three_args d (three_words uid passwd aid d) ≡ some (uid, passwd, aid)
  unfolding three_args
  three_args-three_words d l =
      rw
        (
          strtok-append b' ' uid (passwd ++ b' ' ∷ (aid ++ d ∷ []))
              (λ e. absurd (omega (arith, ap length e, (uid_form v).0)))
              (digits-Lacks b' ' uid (omega arith) (uid_form v).1),
          strtok-append b' ' passwd (aid ++ d ∷ [])
              (λ e. absurd (omega (arith, ap length e, (passwd_form v).0)))
              (alnum-Lacks b' ' passwd (omega arith) (passwd_form v).1),
          strtok-append d aid []
              (λ e. absurd (omega (arith, ap length e, ((is_valid_aid_iff aid).0 h).0)))
              (aid-Lacks d aid l h),
          v.uid_ok,
          v.passwd_ok,
          h,
        )
        refl
