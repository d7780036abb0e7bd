-- ===== src/Tcp/Steps/ShowAsset.antt =====
-- What `handle_show_asset` of server/tcp.c does to the database is a sequence of calls of server/database.c.
use auction_server.Common.{not, Option, none, some, if-all, Bytes, ◌==◌, get_or}
use auction_server.Libc.{strtok}
use auction_server.Validators.{is_valid_aid}
use auction_server.Stream.{
  Conn, ReadResult, filled, read_error, overrun, read_tcp_stream, err_tcp_read_closed,
}
use auction_server.Os.{World, asset_file, fopen_r}
use auction_server.Database.Auctions.{exists_auction, get_auction_info}
use auction_server.Database.Names.{nth_token}
use auction_server.Database.Steps.{stays}
use auction_server.Udp.Dispatch.{c_string}
use auction_server.Tcp.Reading.{zero_buff}
use auction_server.Tcp.ShowAsset.{
  asset_reply, asset_named, asset_info, show_asset, show_read, handle_show_asset,
}
use auction_server.Tcp.Steps.Reach.{Reaches}

asset_info-Reaches :
    (aid : Bytes) (line : Option Bytes) (conn : Conn) (w : World)
    → Reaches w (asset_info aid line conn w)
unfolding asset_info asset_named asset_reply
asset_info-Reaches aid none conn w = stays w
asset_info-Reaches aid (some line) conn w = named (nth_token 2 b' ' line).0
  where
    reply : (fname : Bytes) (content : Option Bytes) → Reaches w (asset_reply fname content conn w)
    reply fname none = unfold asset_reply in stays w
    reply fname (some content) = unfold asset_reply in stays w

    named : (fname : Option Bytes) → Reaches w (asset_named aid fname conn w)
    named none = unfold asset_named in stays w
    named (some fname) = unfold asset_named in reply fname (fopen_r (asset_file aid fname) w)

show_asset-Reaches :
    (aid : Option Bytes) (conn : Conn) (w : World) → Reaches w (show_asset aid conn w)
unfolding show_asset
show_asset-Reaches none conn w = stays w
show_asset-Reaches (some aid) conn w = if-all (Reaches w) (not (is_valid_aid aid)) _ _ (stays w) (
    if-all (Reaches w) (not (exists_auction aid w)) _ _ (stays w)
      (asset_info-Reaches aid (get_auction_info aid 256 w) conn w))

show_read-Reaches : (r : ReadResult × Conn) (w : World) → Reaches w (show_read r w)
unfolding show_read
show_read-Reaches (overrun, conn) w = tt
show_read-Reaches (read_error e, conn) w =
    if-all (Reaches w) (e == err_tcp_read_closed) _ _ (stays w) (stays w)
show_read-Reaches (filled buff, conn) w =
    if-all (Reaches w) (not (get_or buff 3 0 == b'\n')) _ _ (stays w)
      (show_asset-Reaches (strtok b'\n' (c_string buff)).0 conn w)

pub handle_show_asset-Reaches : (conn : Conn) (w : World) → Reaches w (handle_show_asset conn w)
unfolding handle_show_asset
handle_show_asset-Reaches conn w = show_read-Reaches (read_tcp_stream (zero_buff 8) 4 conn) w
