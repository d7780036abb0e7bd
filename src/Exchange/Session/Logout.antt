-- ===== src/Exchange/Session/Logout.antt =====
-- `logout` and `unregister`, typed by a user who is logged in.
use auction_server.Common.{
  ◌≡◌, refl, ◌∙◌, true, false, not, none, some, arith, if◌then◌else◌, Bytes, codes, ap, bytes_eq,
  if_false, Bool-cases, inl, inr,
}
use auction_server.Os.{World, take_bytes}
use auction_server.Database.Account.{Account, account}
use auction_server.Udp.Session.{Reply, handle_logout, handle_unregister}
use auction_server.Udp.Session.Refine.{handle_logout-Refines, handle_unregister-Refines}
use auction_server.Udp.Session.Request.{credentials_lem}
use auction_server.Udp.Session.Spec.{Serving, Refines, spec_logout, spec_unregister}
use auction_server.Udp.Dispatch.{
  serve_datagram, sent, handled, handle_udp_command, get_udp_handler_fn,
}
use auction_server.Client.{ClientState, on_response, receive_udp_response, datagram, other_errno}
use auction_server.Client.Session.{session_message, logout_status, unregister_status}
use auction_server.Client.Session as Typed
use auction_server.Exchange.{Joint, server}
use auction_server.Exchange.Session.{Valid, words, serve_datagram-session}
use auction_server.Exchange.Session.Login.{Ends, Refines-Ends}

-- The text shown, the client's state, and the account of a user who logs out.
abbrev pub logout_outcome : Account → ClientState → Bytes × ClientState × Account
logout_outcome none client = (codes "Unknown user\n", client, none)
logout_outcome (some (stored, false)) client =
    (codes "User not logged in\n", client, some (stored, false))
logout_outcome (some (stored, true)) client =
    if bytes_eq stored client.passwd
    then (codes "Successful logout\n", record client { logged_in = false }, some (stored, false))
    else (codes "User not logged in\n", client, some (stored, true))

-- The same for a user who unregisters.
abbrev pub unregister_outcome : Account → ClientState → Bytes × ClientState × Account
unregister_outcome none client = (codes "Unknown user\n", client, none)
unregister_outcome (some (stored, false)) client =
    (codes "Incorrect unregister attempt\n", client, some (stored, false))
unregister_outcome (some (stored, true)) client =
    if bytes_eq stored client.passwd
    then (codes "Successful unregister\n", record client { logged_in = false }, none)
    else (codes "Incorrect unregister attempt\n", client, some (stored, true))

module _ (client : ClientState) (v : Valid client.uid client.passwd) (j : Joint)
    (s : Serving j.world) where
  abbrev logout_reply : Reply × World
  logout_reply = handle_logout (words client.uid client.passwd) j.world

  logout-served :
      (a : Account)
      → account client.uid j.world ≡ a
      → Refines client.uid (spec_logout a client.passwd) j.world logout_reply
  unfolding handle_logout
  logout-served a e = rw (← e) (
      (handle_logout-Refines _ client.uid client.passwd j.world s
        (credentials_lem client.uid client.passwd v.uid_ok v.passwd_ok)).0)

  logout-sent :
      (a : Account)
      → account client.uid j.world ≡ a
      → serve_datagram (session_message (codes "LOU ") client.uid client.passwd) j.world
        ≡ sent (spec_logout a client.passwd).0 logout_reply.1
  unfolding handle_udp_command get_udp_handler_fn take_bytes handled
  logout-sent a e =
      serve_datagram-session v (codes "LOU ") handle_logout (spec_logout a client.passwd) j.world
        refl (omega arith, (omega arith, (omega arith, (omega arith, tt)))) refl (logout-served a e)

  logout-received :
      (a : Account)
      → account client.uid j.world ≡ a
      → client.logged_in ≡ true
      → (input : Bytes)
      → Typed.handle_logout server input client j ≡ (
        on_response
            (logout_status client)
            client
            (receive_udp_response 31 (datagram other_errno (spec_logout a client.passwd).0)),
        record j { world = logout_reply.1 },
      )
  unfolding Typed.handle_logout server
  logout-received a e on input =
      if_false (not client.logged_in) _ _ (ap not on) ∙ rw (logout-sent a e) refl

  logout-Ends :
      (a : Account)
      → account client.uid j.world ≡ a
      → client.logged_in ≡ true
      → (input : Bytes)
      → Ends client.uid (logout_outcome a client) j (Typed.handle_logout server input client j)
  unfolding logout_status spec_logout on_response receive_udp_response bytes_eq
  logout-Ends none e on input =
      Refines-Ends client.uid (logout_outcome none client) (codes "RLO UNR\n") j logout_reply _
        (logout-served none e) (logout-received none e on input)
  logout-Ends (some (stored, false)) e on input =
      Refines-Ends client.uid (logout_outcome (some (stored, false)) client) (codes "RLO NOK\n") j
        logout_reply _ (logout-served (some (stored, false)) e)
        (logout-received (some (stored, false)) e on input)
  logout-Ends (some (stored, true)) e on input = elim (Bool-cases (bytes_eq stored client.passwd)) [
    | inl same ↦
        let k = rw same at (logout-served (some (stored, true)) e) in
        let h = rw same at (logout-received (some (stored, true)) e on input) in
        rw same (Refines-Ends client.uid _ (codes "RLO OK\n") j logout_reply _ k h)
    | inr other ↦
        let k = rw other at (logout-served (some (stored, true)) e) in
        let h = rw other at (logout-received (some (stored, true)) e on input) in
        rw other (Refines-Ends client.uid _ (codes "RLO NOK\n") j logout_reply _ k h)
  ]

  abbrev unregister_reply : Reply × World
  unregister_reply = handle_unregister (words client.uid client.passwd) j.world

  unregister-served :
      (a : Account)
      → account client.uid j.world ≡ a
      → Refines client.uid (spec_unregister a client.passwd) j.world unregister_reply
  unfolding handle_unregister
  unregister-served a e = rw (← e) (
      handle_unregister-Refines _ client.uid client.passwd j.world s
        (credentials_lem client.uid client.passwd v.uid_ok v.passwd_ok))

  unregister-sent :
      (a : Account)
      → account client.uid j.world ≡ a
      → serve_datagram (session_message (codes "UNR ") client.uid client.passwd) j.world
        ≡ sent (spec_unregister a client.passwd).0 unregister_reply.1
  unfolding handle_udp_command get_udp_handler_fn take_bytes handled
  unregister-sent a e =
      serve_datagram-session v (codes "UNR ") handle_unregister (spec_unregister a client.passwd)
        j.world refl (omega arith, (omega arith, (omega arith, (omega arith, tt)))) refl
        (unregister-served a e)

  unregister-received :
      (a : Account)
      → account client.uid j.world ≡ a
      → client.logged_in ≡ true
      → (input : Bytes)
      → Typed.handle_unregister server input client j ≡ (
        on_response
            (unregister_status client)
            client
            (receive_udp_response 31 (datagram other_errno (spec_unregister a client.passwd).0)),
        record j { world = unregister_reply.1 },
      )
  unfolding Typed.handle_unregister server
  unregister-received a e on input =
      if_false (not client.logged_in) _ _ (ap not on) ∙ rw (unregister-sent a e) refl

  unregister-Ends :
      (a : Account)
      → account client.uid j.world ≡ a
      → client.logged_in ≡ true
      → (input : Bytes)
      → Ends client.uid
          (unregister_outcome a client)
          j
          (Typed.handle_unregister server input client j)
  unfolding unregister_status spec_unregister on_response receive_udp_response bytes_eq
  unregister-Ends none e on input =
      Refines-Ends client.uid (unregister_outcome none client) (codes "RUR UNR\n") j
        unregister_reply _ (unregister-served none e) (unregister-received none e on input)
  unregister-Ends (some (stored, false)) e on input =
      Refines-Ends client.uid (unregister_outcome (some (stored, false)) client) (codes "RUR NOK\n")
        j unregister_reply _ (unregister-served (some (stored, false)) e)
        (unregister-received (some (stored, false)) e on input)
  unregister-Ends (some (stored, true)) e on input =
      elim (Bool-cases (bytes_eq stored client.passwd)) [
        | inl same ↦
            let k = rw same at (unregister-served (some (stored, true)) e) in
            let h = rw same at (unregister-received (some (stored, true)) e on input) in
            rw same (Refines-Ends client.uid _ (codes "RUR OK\n") j unregister_reply _ k h)
        | inr other ↦
            let k = rw other at (unregister-served (some (stored, true)) e) in
            let h = rw other at (unregister-received (some (stored, true)) e on input) in
            rw other (Refines-Ends client.uid _ (codes "RUR NOK\n") j unregister_reply _ k h)
      ]

-- A logged-in user who types `logout` or `unregister`, on a server whose kernel refuses nothing, is
-- told what the account calls for; with a session on the server and the same password, the session
-- ends on both sides, and `unregister` removes the account. No other account changes.
pub handle_logout_unregister-Ends :
    (input : Bytes) (client : ClientState) (j : Joint)
    → Valid client.uid client.passwd
    → Serving j.world
    → client.logged_in ≡ true
    → Ends client.uid
        (logout_outcome (account client.uid j.world) client)
        j
        (Typed.handle_logout server input client j)
      × Ends client.uid
          (unregister_outcome (account client.uid j.world) client)
          j
          (Typed.handle_unregister server input client j)
handle_logout_unregister-Ends input client j v s on =
    (logout-Ends client v j s _ refl on input, unregister-Ends client v j s _ refl on input)
