-- ===== src/Exchange/Asset.antt =====
-- `showasset`: what the server sends is what the client saves.
use auction_server.Common.{
  ℕ, ◌≤◌, ◌<◌, ◌≡◌, ◌≢◌, refl, sym, ap, ◌∙◌, true, false, some, List, [], ◌∷◌, ◌++◌, arith, ltb,
  ◌==◌, Bytes, codes, bytes_eq, join, All, length, append_assoc, inl, inr, take_of_le, drop,
  if_false,
}
use auction_server.Common.Int.{pos}
use auction_server.Libc.{atoi, print_dec}
use auction_server.Libc.Numbers.{
  IsDigit, print_dec-IsDigit, atoi-digits, digits_value-print_dec, length-print_dec,
  length-print_dec_pos,
}
use auction_server.Libc.Strtok.{Lacks, strtok-Lacks}
use auction_server.Validators.{is_valid_aid, is_valid_fname}
use auction_server.Validators.Laws.{is_valid_aid_iff, is_valid_fname_iff, IsPathChar, IsHidden}
use auction_server.Stream.{Conn, unread, asset}
use auction_server.Stream.Received.{arriving}
use auction_server.Stream.Complete.{Unbroken, as_recv_asset_file-whole}
use auction_server.Tcp.Reading.{feed, stop, recv_bytes, result}
use auction_server.Tcp.ShowAsset.{asset_text}
use auction_server.Client.{ClientState, Network, Errno, answering, returned}
use auction_server.Client.Asset.{
  show_arg_byte, get_show_asset_arg_len, download, into, recv_sized, handle_show_asset,
  command_download, status_download, args_read,
}
use auction_server.Exchange.Streams.{read_text-front, feed-word}
use auction_server.Exchange.Session.{digits-Lacks, c_string-Lacks}
use auction_server.Exchange.Lists.Board.{aid-Lacks}

-- "RSA OK %s %ld "
unfoldable pub header_text : Bytes → Bytes → Bytes
header_text fname content =
    codes "RSA OK " ++ (fname ++ b' ' ∷ (print_dec (length content) ++ b' ' ∷ []))

asset_text-header :
    (fname content : Bytes)
    → asset_text fname content ≡ header_text fname content ++ (content ++ b'\n' ∷ [])
unfolding asset_text header_text
asset_text-header fname content = sym (
    ap (◌++◌ (codes "RSA OK ")) (
      append_assoc fname _ _
      ∙ ap (λ s. fname ++ b' ' ∷ s) (append_assoc (print_dec (length content)) (b' ' ∷ []) _)))

show_arg_byte-more :
    (saved : List Bytes) (current : Bytes) (c : ℕ)
    → c ≢ b' '
    → length current ≤ get_show_asset_arg_len (length saved)
    → show_arg_byte (record { saved = saved; current = current }) c
      ≡ inl (record { saved = saved; current = current ++ c ∷ [] })
unfolding show_arg_byte
show_arg_byte-more saved current c ne l =
    if_false (ltb (get_show_asset_arg_len (length saved)) (length current)) _ _ (ground (arith, l))
    ∙ if_false (c == b' ') _ _ (ground (arith, ne))

name_end :
    (fname : Bytes)
    → Lacks 0 fname
    → length fname ≤ 24
    → show_arg_byte (record { saved = []; current = fname }) b' '
      ≡ inl (record { saved = fname ∷ []; current = [] })
unfolding show_arg_byte
name_end fname z l =
    if_false (ltb (get_show_asset_arg_len 0) (length fname)) _ _ (ground (arith, l))
    ∙ ap (λ t. inl (record { saved = t ∷ []; current = [] })) (c_string-Lacks fname z)

size_end :
    (fname fsize : Bytes)
    → Lacks 0 fsize
    → length fsize ≤ 8
    → show_arg_byte (record { saved = fname ∷ []; current = fsize }) b' '
      ≡ inr (some (fname ∷ fsize ∷ []))
unfolding show_arg_byte
size_end fname fsize z l =
    if_false (ltb (get_show_asset_arg_len 1) (length fsize)) _ _ (ground (arith, l))
    ∙ ap (λ t. inr (some (fname ∷ t ∷ []))) (c_string-Lacks fsize z)

append-cancel : (a b c : Bytes) → a ++ b ≡ a ++ c → b ≡ c
append-cancel [] b c e = e
append-cancel (x ∷ a) b c e = append-cancel a b c (ap (drop 1) e)

-- Both arguments.
feed-args :
    (fname fsize r : Bytes)
    → Lacks b' ' fname
    → Lacks b' ' fsize
    → Lacks 0 fname
    → Lacks 0 fsize
    → length fname ≤ 24
    → length fsize ≤ 8
    → feed show_arg_byte (record { saved = []; current = [] }) (fname ++ b' ' ∷ (fsize ++ b' ' ∷ r))
      ≡ stop (some (fname ∷ fsize ∷ [])) r
unfolding get_show_asset_arg_len feed
feed-args fname fsize r sf ss zf zs lf ls =
    feed-word show_arg_byte (λ t. record { saved = []; current = t }) 24 (show_arg_byte-more [])
      fname (fsize ++ b' ' ∷ r) [] sf (omega (arith, lf))
    ∙ rw (feed, name_end fname zf lf)
        (feed-word show_arg_byte (λ t. record { saved = fname ∷ []; current = t }) 8
            (show_arg_byte-more (fname ∷ [])) fsize r [] ss (omega (arith, ls))
          ∙ rw (feed, size_end fname fsize zs ls) refl)

-- A file name as the server keeps it: accepted, and one word.
pub record FileName (fname : Bytes) : Type 0 where
  pub accepted : is_valid_fname fname ≡ true
  pub one_word : Lacks b' ' fname
  pub no_nul : Lacks 0 fname

digits-fname : (s : Bytes) → All IsDigit s → 0 < length s → length s ≤ 8 → is_valid_fname s ≡ true
digits-fname s h p l =
    (is_valid_fname_iff s).1 (omega (arith, p), omega (arith, l), visible s h, chars s h)
  where
    visible : (t : Bytes) → All IsDigit t → ¬ (IsHidden t)
    visible [] d e = e
    visible (c ∷ t) d e = omega (arith, d.0, e)

    chars : (t : Bytes) → All IsDigit t → All IsPathChar t
    chars [] d = tt
    chars (c ∷ t) d = (ground (arith, d.0), chars t d.1)

recv_args :
    (fname fsize : Bytes) (conn : Conn)
    → 0 < length fname
    → feed show_arg_byte
        (record { saved = []; current = [] })
        (fname ++ b' ' ∷ (fsize ++ b' ' ∷ []))
      ≡ stop (some (fname ∷ fsize ∷ [])) []
    → recv_bytes show_arg_byte
        (record { saved = []; current = [] })
        (unread (fname ++ b' ' ∷ (fsize ++ b' ' ∷ [])) conn)
      ≡ (result (some (fname ∷ fsize ∷ [])), conn)
unfolding recv_bytes unread
recv_args [] fsize conn p e = absurd (omega (arith, p))
recv_args (c ∷ s) fsize conn p e = rw (recv_bytes, e) refl

module _ (fname content : Bytes) (k : FileName fname) (small : length content ≤ 10000000) where
  abbrev fsize : Bytes
  fsize = print_dec (length content)

  fsize_digits : All IsDigit fsize
  fsize_digits = print_dec-IsDigit (length content)

  fsize_short : length fsize ≤ 8
  fsize_short = length-print_dec (length content) 8 (omega (arith, small)) (omega arith)

  atoi-fsize : atoi fsize ≡ pos (length content)
  atoi-fsize = atoi-digits fsize fsize_digits ∙ ap pos (digits_value-print_dec (length content))

  -- The client reads the header that the server sends.
  download-header :
      (e : Errno) (conn : Conn) (client : ClientState)
      → download e (unread (header_text fname content) conn) client
        ≡ into fname (pos (length content)) conn
  unfolding download header_text bytes_eq
  download-header e conn client =
      let (nonempty, short, _, _) = (is_valid_fname_iff fname).0 k.accepted in
      let args = fname ++ b' ' ∷ (fsize ++ b' ' ∷ []) in
      ap (λ g. command_download e g client)
        (read_text-front 8 b'R' (codes "SA ") (codes "OK " ++ args) conn false e (omega arith)
          (omega arith, (omega arith, (omega arith, (omega arith, tt)))))
      ∙ ap (λ g. status_download e g client)
          (read_text-front 4 b'O' (codes "K ") args conn false e (omega arith)
            (omega arith, (omega arith, (omega arith, tt))))
      ∙ ap (λ r. args_read e r client)
          (recv_args fname fsize conn nonempty (
            feed-args fname fsize [] k.one_word (digits-Lacks b' ' fsize (omega arith) fsize_digits)
              k.no_nul (digits-Lacks 0 fsize (omega arith) fsize_digits) short fsize_short))
      ∙ rw
          (
            k.accepted,
            digits-fname fsize fsize_digits (length-print_dec_pos (length content)) fsize_short,
            atoi-fsize,
          )
          (if_false (ltb 10000000 (length content)) _ _ (ground (arith, small)))

abbrev pub text_for : Bytes → Bytes → ℕ → Bytes
text_for aid fname size = join (
    codes "Successfully retrieved auction "
    ∷ aid
    ∷ codes " asset "
    ∷ fname
    ∷ codes " of size "
    ∷ print_dec size
    ∷ codes "\n"
    ∷ [])

recv_sized-whole :
    (conn : Conn) (content : Bytes)
    → Unbroken conn
    → arriving conn ≡ content ++ b'\n' ∷ []
    → recv_sized (pos (length content)) conn ≡ asset content
unfolding recv_sized
recv_sized-whole conn content u e = ap (λ r. r.0) (as_recv_asset_file-whole conn content u e)

-- A user who types `showasset` with a valid AID, and to whom the server sends the file as it keeps
-- it, gets exactly that file under its name, however the network cuts it behind the header, where the
-- file can be created and written: the client saves the bytes that the server has.
pub handle_show_asset-saved :
    {N : Type 0} (net : Network N) (client : ClientState) (n n1 n2 n3 : N)
    (aid fname content : Bytes) (e : Errno) (conn : Conn)
    → is_valid_aid aid ≡ true
    → FileName fname
    → length content ≤ 10000000
    → Unbroken conn
    → header_text fname content ++ arriving conn ≡ asset_text fname content
    → net.dial (codes "SAS " ++ (aid ++ codes "\n")) n
      ≡ (answering e (unread (header_text fname content) conn), n1)
    → net.create fname n1 ≡ (true, n2)
    → net.save fname content n2 ≡ (true, n3)
    → handle_show_asset net aid client n
      ≡ (returned 0 (text_for aid fname (length content)) client, n3)
unfolding handle_show_asset
handle_show_asset-saved net client n n1 n2 n3 aid fname content e conn ha k small u arrive d c sv =
    let three = ((is_valid_aid_iff aid).0 ha).0 in
    let whole : arriving conn ≡ content ++ b'\n' ∷ [] =
      append-cancel (header_text fname content) _ _ (arrive ∙ asset_text-header fname content) in
    rw
      (
        strtok-Lacks b' ' aid (λ x. absurd (omega (arith, ap length x, three)))
            (aid-Lacks b' ' aid (omega arith) ha),
        ha,
        take_of_le 3 aid (omega (arith, three)),
        d,
        download-header fname content k small e conn client,
        c,
        recv_sized-whole conn content u whole,
        sv,
      )
      (ap (λ a. (returned 0 (text_for a fname (length content)) client, n3))
        (take_of_le 3 aid (omega (arith, three))))
