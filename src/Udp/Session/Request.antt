-- ===== src/Udp/Session/Request.antt =====
-- The arguments of a session command.
use auction_server.Common.{
  ◌≡◌, ap, true, Option, none, some, arith, Bytes, [], ◌∷◌, ◌++◌, length, All, inl, inr, Bool-cases,
}
use auction_server.Libc.{strtok}
use auction_server.Libc.Numbers.{IsDigit}
use auction_server.Libc.Strtok.{Lacks, strtok-append}
use auction_server.Validators.{is_valid_uid, is_valid_passwd}
use auction_server.Validators.Laws.{is_valid_uid_iff, is_valid_passwd_iff, IsAlnum}
use auction_server.Udp.Session.{credentials, valid_uid, valid_passwd}

valid_passwd-valid :
    (uid : Bytes) (o : Option Bytes) {u p : Bytes}
    → valid_passwd uid o ≡ some (u, p)
    → (u ≡ uid) × (is_valid_passwd p ≡ true)
unfolding valid_passwd
valid_passwd-valid uid none h = ground arith
valid_passwd-valid uid (some q) h = ground arith

valid_uid-valid :
    (o : Option Bytes × Bytes) {u p : Bytes}
    → valid_uid o ≡ some (u, p)
    → (is_valid_uid u ≡ true) × (is_valid_passwd p ≡ true)
unfolding valid_uid
valid_uid-valid (none, rest) h = ground arith
valid_uid-valid (some uid, rest) {u} {p} h = elim (Bool-cases (is_valid_uid uid)) [
  | inl e ↦
      (let (same, ok) = valid_passwd-valid uid (strtok b'\n' rest).0 {u = u} {p = p} (rw e at h) in
        (rw same e, ok))
  | inr e ↦ absurd (ground arith)
]

-- Only a valid UID and a valid password are taken for credentials.
pub credentials_valid :
    (input : Bytes) {u p : Bytes}
    → credentials input ≡ some (u, p)
    → (is_valid_uid u ≡ true) × (is_valid_passwd p ≡ true)
unfolding credentials
credentials_valid input h = valid_uid-valid _ h

digits-Lacks : (s : Bytes) → All IsDigit s → Lacks b' ' s
digits-Lacks [] h = tt
digits-Lacks (c ∷ s) h = (omega (arith, h.0), digits-Lacks s h.1)

alnum-Lacks : (s : Bytes) → All IsAlnum s → Lacks b'\n' s
alnum-Lacks [] h = tt
alnum-Lacks (c ∷ s) h = (ground (arith, h.0), alnum-Lacks s h.1)

-- `UID password\n`, as the client sends it, gives back the UID and the password.
pub credentials_lem :
    (u p : Bytes)
    → is_valid_uid u ≡ true
    → is_valid_passwd p ≡ true
    → credentials (u ++ b' ' ∷ (p ++ b'\n' ∷ [])) ≡ some (u, p)
unfolding credentials valid_uid valid_passwd
credentials_lem u p hu hp =
    let (six, digits) = (is_valid_uid_iff u).0 hu in
    let (eight, alnum) = (is_valid_passwd_iff p).0 hp in
    rw (
      strtok-append b' ' u (p ++ b'\n' ∷ []) (λ e. absurd (omega (arith, ap length e)))
          (digits-Lacks u digits),
      hu,
      strtok-append b'\n' p [] (λ e. absurd (omega (arith, ap length e))) (alnum-Lacks p alnum),
      hp,
    )
