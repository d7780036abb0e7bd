-- ===== src/Exchange/Lists/Board.antt =====
-- From the server's answer to the text on the user's screen.
use auction_server.Common.{
  ℕ, ◌≡◌, ◌≤◌, ◌<◌, refl, sym, ap, ◌≢◌, Bool, true, false, none, some, List, [], ◌∷◌, ◌++◌, arith,
  if◌then◌else◌, Bytes, codes, bytes_eq, bytes_eq_refl, All, length,
}
use auction_server.Libc.{strtok}
use auction_server.Libc.Strtok.{Lacks, strtok-append, strtok-Lacks}
use auction_server.Libc.Tokens.{tokens-delimiter}
use auction_server.Validators.{is_valid_aid}
use auction_server.Validators.Laws.{is_valid_aid_iff}
use auction_server.Client.{ClientState, returned}
use auction_server.Client.Lists.{Kind, list_answer, lookup_text, rls, rma, rmb, to_end}
use auction_server.Exchange.Session.{digits-Lacks, Lacks-append}
use auction_server.Exchange.Lists.{Item, item_text, board, IsWord, tokens-item_text, entries-words}

-- Every AID of the list is valid.
abbrev pub AllAids : List Item → Type 0
AllAids = All (λ i. is_valid_aid i.0 ≡ true)

-- What the theorem needs of the three commands.
pub record Lists (kind : Kind) : Type 0 where
  pub word : IsWord kind.command
  pub ok_is_no_text : (s : Bytes) → lookup_text kind.texts (codes "OK " ++ s) ≡ none
  pub data_whole : (s : Bytes) → s ≢ [] → Lacks b'\n' s → kind.data_of s ≡ some s
  pub aids : (s : Bytes) → is_valid_aid s ≡ true → kind.valid s ≡ true

to_newline_whole : (s : Bytes) → s ≢ [] → Lacks b'\n' s → (strtok b'\n' s).0 ≡ some s
to_newline_whole s ne h = ap (λ r. r.0) (strtok-Lacks b'\n' s ne h)

to_end_whole : (s : Bytes) → s ≢ [] → Lacks b'\n' s → to_end s ≡ some s
unfolding to_end
to_end_whole [] ne h = absurd (ne refl)
to_end_whole (c ∷ s) ne h = refl

pub rls-Lists : Lists rls
unfolding lookup_text bytes_eq
rls-Lists = record {
  word = record {
    nonempty = ground arith;
    no_space = (omega arith, (omega arith, (omega arith, tt)));
  };
  ok_is_no_text = λ s. refl;
  data_whole = to_newline_whole;
  aids = λ s h. refl;
}

pub rma-Lists : (uid : Bytes) → Lists (rma uid)
unfolding lookup_text bytes_eq
rma-Lists uid = record {
  word = record {
    nonempty = ground arith;
    no_space = (omega arith, (omega arith, (omega arith, tt)));
  };
  ok_is_no_text = λ s. refl;
  data_whole = to_end_whole;
  aids = λ s h. h;
}

pub rmb-Lists : Lists rmb
unfolding lookup_text bytes_eq
rmb-Lists = record {
  word = record {
    nonempty = ground arith;
    no_space = (omega arith, (omega arith, (omega arith, tt)));
  };
  ok_is_no_text = λ s. refl;
  data_whole = to_end_whole;
  aids = λ s h. refl;
}

pub aid-Lacks : (d : ℕ) (aid : Bytes) → d ≤ b' ' → is_valid_aid aid ≡ true → Lacks d aid
aid-Lacks d aid l h = digits-Lacks d aid l ((is_valid_aid_iff aid).0 h).1

aids-IsWord : (items : List Item) → AllAids items → All (λ i. IsWord i.0) items
aids-IsWord [] h = tt
aids-IsWord (i ∷ items) h = (
  record {
    nonempty = λ e. absurd (omega (arith, ap length e, ((is_valid_aid_iff i.0).0 h.0).0));
    no_space = aid-Lacks b' ' i.0 (omega arith) h.0;
  },
  aids-IsWord items h.1,
)

aids-valid :
    {kind : Kind} (k : Lists kind) (items : List Item)
    → AllAids items
    → All (λ i. kind.valid i.0 ≡ true) items
aids-valid k [] h = tt
aids-valid k (i ∷ items) h = (k.aids i.0 h.0, aids-valid k items h.1)

state_byte : (d : ℕ) (active : Bool) → d < b' ' → (if active then b'1' else b'0') ≢ d
state_byte d true l = omega (arith, l)
state_byte d false l = omega (arith, l)

-- A list holds no byte below the space.
pub item_text-Lacks :
    (d : ℕ) (items : List Item) → d < b' ' → AllAids items → Lacks d (item_text items)
unfolding item_text
item_text-Lacks d [] l h = tt
item_text-Lacks d ((aid, active) ∷ items) l h = (
  omega (arith, l),
  Lacks-append d aid _ (aid-Lacks d aid (omega (arith, l)) h.0)
      (omega (arith, l), (state_byte d active l, item_text-Lacks d items l h.1)),
)

-- The list without the space in front of it.
abbrev list_data : Item → List Item → Bytes
list_data (aid, active) items = aid ++ b' ' ∷ (if active then b'1' else b'0') ∷ item_text items

-- `CMD OK aid state aid state ...\n`
abbrev pub list_message : Kind → List Item → Bytes
list_message kind items = kind.command ++ b' ' ∷ (codes "OK" ++ (item_text items ++ b'\n' ∷ []))

list_data-nonempty :
    (i : Item) (items : List Item) → is_valid_aid i.0 ≡ true → list_data i items ≢ []
list_data-nonempty ([], active) items h e = absurd (omega (arith, ap length e))
list_data-nonempty (c ∷ aid, active) items h e = absurd (omega (arith, ap length e))

-- The client shows every auction of the list that the server sent, in its order, with its state and
-- six to a line, and nothing else.
pub list_answer-board :
    (kind : Kind) (k : Lists kind) (i : Item) (items : List Item) (client : ClientState)
    → AllAids (i ∷ items)
    → list_answer kind client (list_message kind (i ∷ items))
      ≡ returned 0 (kind.header ++ board 0 (i ∷ items)) client
unfolding list_answer item_text
list_answer-board kind k i items client h =
    let t = list_data i items in
    let line = codes "OK " ++ t in
    let no_newline : Lacks b'\n' t = (item_text-Lacks b'\n' (i ∷ items) (omega arith) h).1 in
    rw
      (
        strtok-append b' ' kind.command (line ++ b'\n' ∷ []) k.word.nonempty k.word.no_space,
        bytes_eq_refl kind.command,
        strtok-append b'\n' line [] (λ e. absurd (omega (arith, ap length e)))
            (omega arith, (omega arith, (omega arith, no_newline))),
        k.ok_is_no_text t,
        strtok-append b' ' (codes "OK") t (λ e. absurd (omega (arith, ap length e)))
            (omega arith, (omega arith, tt)),
        bytes_eq_refl (codes "OK"),
        k.data_whole t (list_data-nonempty i items h.0) no_newline,
        sym (tokens-delimiter b' ' t),
        tokens-item_text (i ∷ items) (aids-IsWord (i ∷ items) h),
        entries-words kind.valid 0 (i ∷ items) (aids-valid k (i ∷ items) h),
      )
      refl
