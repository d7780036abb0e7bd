-- ===== src/Tests/Creating.antt =====
-- An auction opened on a small database.
use auction_server.Common.{[], ◌∷◌, codes}
use auction_server.Stream.{Conn, got}
use auction_server.Os.{World, Files, user_dir, hosted_dir, dir, insert}
use auction_server.Tests.Worlds.{empty, uid}

abbrev fs_hosted : Files
fs_hosted = insert (hosted_dir uid) dir (insert (user_dir uid) dir empty.fs)

abbrev host : World
host = record empty { fs = fs_hosted }

abbrev picture : Conn
picture = got 97 (codes "bc\n") ∷ []
