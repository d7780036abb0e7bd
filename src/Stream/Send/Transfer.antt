-- ===== src/Stream/Send/Transfer.antt =====
-- An asset that is sent is received, however `read`, `send` and `recv` cut it.
use auction_server.Common.{ℕ, ◌≤◌, ◌≡◌, List, [], ◌∷◌, ◌++◌, Bytes, length}
use auction_server.Stream.Send.{Accepts, takes, fails, Piece, piece, unreadable, Sending}

-- No `send` fails.
abbrev pub Willing : List Accepts → Type 0
Willing [] = Unit
Willing (takes k ∷ calls) = Willing calls
Willing (fails ∷ calls) = ⊥

-- The pieces of the file, one behind the other, where no `read` fails.
abbrev pub Readable : List Piece → Type 0
Readable [] = Unit
Readable (piece c s ∷ pieces) = Readable pieces
Readable (unreadable ∷ pieces) = ⊥

abbrev pub content : List Piece → Bytes
content [] = []
content (piece c s ∷ pieces) = c ∷ s ++ content pieces
content (unreadable ∷ pieces) = []

-- A loop that has sent the text, on calls that leave enough for `n` bytes more.
record Done (s : Bytes) (n : ℕ) (r : Sending) : Type 0 where
  no_error : r.err ≡ 0
  all_sent : r.bytes ≡ s
  willing : Willing r.left
  enough : n ≤ length r.left
