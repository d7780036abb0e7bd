-- ===== src/Exchange/Lists.antt =====
-- What the client shows of the list that the server sends.
pub mod Board
pub mod Served
use auction_server.Common.{
  ℕ, suc, ◌%◌, ◌≢◌, ◌≡◌, refl, sym, ap, ◌∙◌, Bool, true, false, some, List, [], ◌∷◌, ◌++◌, arith,
  ◌==◌, if◌then◌else◌, Bytes, codes, bytes_eq, All, append-nil,
}
use auction_server.Libc.Strtok.{Lacks}
use auction_server.Libc.Tokens.{tokens, tokens-append, tokens-Lacks, tokens-delimiter}
use auction_server.Client.Lists.{entries, next_count, line_end, status_text}

-- The auctions of a list: the AID, and whether the auction is still active.
abbrev pub Item : Type 0
Item = Bytes × Bool

-- A list as the server prints it behind `OK`.
unfoldable pub item_text : List Item → Bytes
item_text [] = []
item_text ((aid, active) ∷ items) =
    b' ' ∷ (aid ++ b' ' ∷ (if active then b'1' else b'0') ∷ item_text items)

-- The list on the user's screen, from its `i`th auction on: six to a line.
unfoldable pub board : ℕ → List Item → Bytes
board i [] = if i % 6 == 0 then [] else codes "\n"
board i ((aid, active) ∷ items) =
    b'|'
    ∷ (aid
        ++ ((if active then codes " - A| " else codes " - C| ")
            ++ ((if i % 6 == 5 then codes "\n" else []) ++ board (suc i) items)))

abbrev pub words : List Item → List Bytes
words [] = []
words ((aid, active) ∷ items) = aid ∷ (if active then codes "1" else codes "0") ∷ words items

-- An AID is a word.
pub record IsWord (s : Bytes) : Type 0 where
  pub nonempty : s ≢ []
  pub no_space : Lacks b' ' s

-- The first token of a text in front of a list.
tokens-front :
    (t : Bytes) (items : List Item)
    → IsWord t
    → tokens b' ' (t ++ item_text items) ≡ t ∷ tokens b' ' (item_text items)
unfolding item_text tokens
tokens-front t [] w = ap (tokens b' ') (append-nil t) ∙ tokens-Lacks b' ' t w.nonempty w.no_space
tokens-front t ((aid, active) ∷ items) w =
    tokens-append b' ' t _ w.nonempty w.no_space
    ∙ ap (◌∷◌ t) (
        sym
          (tokens-delimiter b' ' (aid ++ b' ' ∷ (if active then b'1' else b'0') ∷ item_text items)))

status-IsWord : (active : Bool) → IsWord (if active then codes "1" else codes "0")
status-IsWord true = record { nonempty = ground arith; no_space = (omega arith, tt) }
status-IsWord false = record { nonempty = ground arith; no_space = (omega arith, tt) }

status-front :
    (active : Bool) (s : Bytes)
    → (if active then b'1' else b'0') ∷ s ≡ (if active then codes "1" else codes "0") ++ s
status-front true s = refl
status-front false s = refl

-- The tokens that the client's loop walks over.
pub tokens-item_text :
    (items : List Item) → All (λ i. IsWord i.0) items → tokens b' ' (item_text items) ≡ words items
unfolding item_text
tokens-item_text [] h = unfold tokens in refl
tokens-item_text ((aid, active) ∷ items) h =
    let status : Bytes = if active then codes "1" else codes "0" in
    let rest = (if active then b'1' else b'0') ∷ item_text items in
    tokens-delimiter b' ' (aid ++ b' ' ∷ rest)
    ∙ tokens-append b' ' aid rest h.0.nonempty h.0.no_space
    ∙ ap (λ s. aid ∷ tokens b' ' s) (status-front active (item_text items))
    ∙ ap (◌∷◌ aid) (tokens-front status items (status-IsWord active))
    ∙ ap (λ ts. aid ∷ status ∷ ts) (tokens-item_text items h.1)

next_count-mod : (i : ℕ) → next_count (i % 6) ≡ suc i % 6
unfolding next_count
next_count-mod i = grind arith

line_end-mod : (i : ℕ) → line_end (i % 6) ≡ (if i % 6 == 5 then codes "\n" else [])
unfolding line_end
line_end-mod i = ground arith

status_text-word :
    (active : Bool)
    → status_text (if active then codes "1" else codes "0")
      ≡ some (if active then codes " - A| " else codes " - C| ")
unfolding status_text bytes_eq
status_text-word true = refl
status_text-word false = refl

-- The loop shows the board, where it has shown `i` auctions.
pub entries-words :
    (valid : Bytes → Bool) (i : ℕ) (items : List Item)
    → All (λ x. valid x.0 ≡ true) items
    → entries valid (i % 6) (words items) ≡ some (board i items)
unfolding entries board
entries-words valid i [] h = ground arith
entries-words valid i ((aid, active) ∷ items) h =
    rw
      (
        h.0,
        status_text-word active,
        next_count-mod i,
        entries-words valid (suc i) items h.1,
        line_end-mod i,
      )
      refl
