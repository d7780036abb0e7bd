-- ===== src/Exchange/Lists/Served.antt =====
-- `list`, typed by a user, on the auctions of the server's database.
use auction_server.Common.{
  suc, ◌+◌, ◌*◌, ◌≤◌, ◌≡◌, refl, sym, ap, ◌∙◌, Bool, true, false, not, some, List, [], ◌∷◌, ◌++◌,
  arith, ◌==◌, if◌then◌else◌, Bytes, codes, All, append_assoc, length, length-append, take_of_le,
  if_false, Bool-cases, inl, inr,
}
use auction_server.Validators.{is_valid_aid, is_hidden}
use auction_server.Validators.Laws.{is_valid_aid_iff}
use auction_server.Os.{World, auctions, end_file, scandir, alphasort, take_bytes, fopen_r}
use auction_server.Os.Reading.{take_bytes_of_le}
use auction_server.Database.Users.{is_open}
use auction_server.Database.Auctions.{update_database}
use auction_server.Database.Lists.{statuses, auction_status, get_auctions_list}
use auction_server.Udp.Listing as Udp
use auction_server.Udp.Session.{answer}
use auction_server.Udp.Dispatch.{
  handle_udp_command, get_udp_handler_fn, handled, send, sent, serve_datagram,
}
use auction_server.Client.{
  ClientState, returned, receive_udp_response, on_response, datagram, other_errno, response,
}
use auction_server.Client.Lists.{handle_list, rls}
use auction_server.Exchange.{Joint, server}
use auction_server.Exchange.Session.{
  receive_udp_response-line, serve_datagram-handled, Lacks-append,
}
use auction_server.Exchange.Lists.{Item, item_text, board}
use auction_server.Exchange.Lists.Board.{
  AllAids, rls-Lists, list_answer-board, list_message, item_text-Lacks,
}

-- The entries below AUCTIONS, with the state of each auction.
abbrev pub items_of : World → List Bytes → List Item
items_of w [] = []
items_of w (name ∷ names) = (name, not (is_open (fopen_r (end_file name) w))) ∷ items_of w names

items_of-AllAids :
    (w : World) (names : List Bytes)
    → All (λ s. is_valid_aid s ≡ true) names
    → AllAids (items_of w names)
items_of-AllAids w [] h = tt
items_of-AllAids w (n ∷ ns) h = (h.0, items_of-AllAids w ns h.1)

length-items_of : (w : World) (names : List Bytes) → length (items_of w names) ≡ length names
length-items_of w [] = refl
length-items_of w (n ∷ ns) = ap suc (length-items_of w ns)

aid-is_hidden : (s : Bytes) → is_valid_aid s ≡ true → is_hidden s ≡ false
unfolding is_hidden
aid-is_hidden [] h = absurd (ground (arith, (is_valid_aid_iff []).0 h))
aid-is_hidden (c ∷ s) h = let digit = ((is_valid_aid_iff (c ∷ s)).0 h).1.0 in ground (arith, digit)

status-item :
    (w : World) (name : Bytes) (rest : Bytes)
    → is_valid_aid name ≡ true
    → auction_status name w ++ rest
      ≡ b' '
        ∷ (name ++ b' ' ∷ (if not (is_open (fopen_r (end_file name) w)) then b'1' else b'0') ∷ rest)
unfolding auction_status
status-item w name rest h =
    rw (take_bytes_of_le 3 name (omega (arith, ((is_valid_aid_iff name).0 h).0)))
      (ended (is_open (fopen_r (end_file name) w)))
  where
    ended :
        (b : Bool)
        → b' ' ∷ (name ++ (if b then codes " 0" else codes " 1")) ++ rest
          ≡ b' ' ∷ (name ++ b' ' ∷ (if not b then b'1' else b'0') ∷ rest)
    ended true = ap (◌∷◌ b' ') (append_assoc name (codes " 0") rest)
    ended false = ap (◌∷◌ b' ') (append_assoc name (codes " 1") rest)

-- The list that the server prints.
statuses-items :
    (w : World) (names : List Bytes)
    → All (λ s. is_valid_aid s ≡ true) names
    → statuses names w ≡ item_text (items_of w names) ++ b'\n' ∷ []
unfolding statuses item_text
statuses-items w [] h = refl
statuses-items w (n ∷ ns) h =
    let state = if not (is_open (fopen_r (end_file n) w)) then b'1' else b'0' in
    let list = item_text (items_of w ns) in
    if_false (is_hidden n) _ _ (aid-is_hidden n h.0)
    ∙ status-item w n (statuses ns w) h.0
    ∙ ap (λ s. b' ' ∷ (n ++ b' ' ∷ state ∷ s)) (statuses-items w ns h.1)
    ∙ ap (◌∷◌ b' ') (sym (append_assoc n (b' ' ∷ state ∷ list) (b'\n' ∷ [])))

-- The entries of a directory whose names do not begin with a dot.
abbrev pub visible : List Bytes → List Bytes
visible [] = []
visible (name ∷ names) = if is_hidden name then visible names else name ∷ visible names

statuses-visible : (w : World) (names : List Bytes) → statuses names w ≡ statuses (visible names) w
unfolding statuses
statuses-visible w [] = refl
statuses-visible w (name ∷ names) = elim (Bool-cases (is_hidden name)) [
  | inl e ↦ rw e (statuses-visible w names)
  | inr e ↦ rw (e, statuses, e) (ap (λ s. auction_status name w ++ s) (statuses-visible w names))
]

length-item_text : (items : List Item) → AllAids items → length (item_text items) ≡ 6 * length items
unfolding item_text
length-item_text [] h = refl
length-item_text ((aid, active) ∷ items) h = omega (
  arith,
  ((is_valid_aid_iff aid).0 h.0).0,
  length-append aid (b' ' ∷ (if active then b'1' else b'0') ∷ item_text items),
  length-item_text items h.1,
)

module _ (w : World) (names : List Bytes) (n : Bytes) (ns : List Bytes)
    (d : scandir auctions (update_database w) ≡ some names) (a : visible (alphasort names) ≡ n ∷ ns)
    (h : All (λ s. is_valid_aid s ≡ true) (n ∷ ns)) where
  abbrev items : List Item
  items = items_of (update_database w) (n ∷ ns)

  abbrev text : Bytes
  text = item_text items ++ b'\n' ∷ []

  items-AllAids : AllAids items
  items-AllAids = items_of-AllAids (update_database w) (n ∷ ns) h

  length-text : length text ≡ 6 * length (n ∷ ns) + 1
  length-text = omega (
    arith,
    length-append (item_text items) (b'\n' ∷ []),
    length-item_text items items-AllAids,
    length-items_of (update_database w) ns,
  )

  handle_list-text :
      Udp.handle_list [] w ≡ answer (codes "RLS OK" ++ text) (6 + length text) (update_database w)
  unfolding Udp.handle_list get_auctions_list
  handle_list-text =
      rw
        (
          d,
          statuses-visible (update_database w) (alphasort names),
          a,
          statuses-items (update_database w) (n ∷ ns) h,
        )
        (if_false (length text == 1) _ _ (ground (arith, length-text)))

  -- The server's answer to `LST`.
  list_served : serve_datagram (codes "LST\n") w ≡ sent (list_message rls items) (update_database w)
  unfolding handle_udp_command get_udp_handler_fn take_bytes send handled
  list_served =
      serve_datagram-handled (codes "LST") w (omega arith)
        (omega arith, (omega arith, (omega arith, tt)))
      ∙ ap (λ r. send (handled r) w) handle_list-text
      ∙ ap (λ t. sent t (update_database w)) (take_of_le _ (codes "RLS OK" ++ text) (omega arith))

  -- It fits into the client's buffer.
  list_received :
      length (n ∷ ns) ≤ 1300
      → receive_udp_response 8191 (datagram other_errno (list_message rls items))
        ≡ response (list_message rls items)
  list_received few =
      receive_udp_response-line 8191 other_errno (codes "RLS OK" ++ item_text items)
        (omega (
          arith,
          few,
          length-item_text items items-AllAids,
          length-items_of (update_database w) ns,
        ))
        (Lacks-append 0 (codes "RLS OK") (item_text items)
          (
            omega arith,
            (omega arith, (omega arith, (omega arith, (omega arith, (omega arith, tt))))),
          )
          (item_text-Lacks 0 items (omega arith) items-AllAids))

-- A user who types `list`, on a server that has at most 1300 auctions and at least one, is shown all
-- of them, in their order, each as active or closed once the expired ones have been closed; the
-- server's database is that in which they have been closed.
pub handle_list-board :
    (input : Bytes) (client : ClientState) (j : Joint) (names : List Bytes) (n : Bytes)
    (ns : List Bytes)
    → scandir auctions (update_database j.world) ≡ some names
    → visible (alphasort names) ≡ n ∷ ns
    → All (λ s. is_valid_aid s ≡ true) (n ∷ ns)
    → length (n ∷ ns) ≤ 1300
    → handle_list server input client j ≡ (
      returned 0 (rls.header ++ board 0 (items_of (update_database j.world) (n ∷ ns))) client,
      record j { world = update_database j.world },
    )
unfolding handle_list server on_response
handle_list-board input client j names n ns d a h few =
    rw
      (
        list_served j.world names n ns d a h,
        list_received j.world names n ns d a h few,
        list_answer-board rls rls-Lists
            (n, not (is_open (fopen_r (end_file n) (update_database j.world))))
            (items_of (update_database j.world) ns) client (items-AllAids j.world names n ns d a h),
      )
      refl
