-- ===== src/Stream/Received.antt =====
-- What `as_recv_asset_file` keeps of the bytes that arrive.
use auction_server.Common.{ℕ, ◌≡◌, Bytes, ◌++◌, [], ◌∷◌, length}
use auction_server.Stream.{Conn, got, broken}

-- The bytes that arrive before the connection fails or ends.
unfoldable pub arriving : Conn → Bytes
arriving [] = []
arriving (broken ∷ conn) = []
arriving (got c s ∷ conn) = c ∷ s ++ arriving conn

-- The asset is its announced size, and a newline follows it.
pub record Received (fsize : ℕ) (arrived s rest : Bytes) : Type 0 where
  pub size : length s ≡ fsize
  pub bytes : arrived ≡ s ++ b'\n' ∷ rest
