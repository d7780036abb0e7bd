-- ===== src/Database/Monad.antt =====
-- A function that returns 0 or an error, and that stops at its first error.
use auction_server.Common.{Bool, true, false, if◌then◌else◌}
use auction_server.Os.{FilePath, World, Mkdir, made, exists, failed, mkdir}

-- `true` stands for the return value 0.
abbrev pub Action : Type 0
Action = World → Bool × World

infixl 5 ◌>>◌
abbrev pub ◌>>◌ : Action → Action → Action
◌>>◌ m k w = let (done, w') = m w in if done then k w' else (false, w')

unfoldable pub tolerate : Mkdir → Bool
tolerate made = true
tolerate exists = true
tolerate failed = false

-- `if (mkdir(p) != 0) { if (errno != EEXIST) return -1; }`
unfoldable pub ensure_dir : FilePath → Action
unfolding mkdir tolerate
ensure_dir p w = let (m, w') = mkdir p w in (tolerate m, w')
