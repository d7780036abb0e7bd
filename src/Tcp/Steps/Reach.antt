-- ===== src/Tcp/Steps/Reach.antt =====
-- The worlds that the handlers of server/tcp.c leave.
use auction_server.Os.{World}
use auction_server.Database.Auctions.{update_database}
use auction_server.Database.Steps.{Run, Run-trans, one, updates}
use auction_server.Tcp.Reading.{TcpResult, ended, crash}

-- The world behind a connection, if the server survives it.
abbrev pub Reaches : World → TcpResult → Type 0
Reaches w (ended err text conn w') = Run w w'
Reaches w crash = Unit

-- A request behind `update_database`.
pub updated : (w : World) (r : TcpResult) → Reaches (update_database w) r → Reaches w r
updated w (ended err text conn w') h = Run-trans w (update_database w) w' (one w _ (updates w)) h
updated w crash h = tt
