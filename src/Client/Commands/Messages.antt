-- ===== src/Client/Commands/Messages.antt =====
-- Every error code that a handler of the client returns has a message.
use auction_server.Common.{
  ℕ, ◌≤◌, ◌≡◌, ◌≢◌, refl, Option, none, some, List, [], ◌∷◌, arith, Bytes, All, Bool-cases, inl,
  inr, bytes_eq, ap,
}
use mathlib.Core.Path.{subst}
use auction_server.Libc.{strtok}
use auction_server.Client.{ClientState, Result, returned, exited, overflow, Network}
use auction_server.Client.Session.{handle_login, handle_logout, handle_unregister, handle_exit}
use auction_server.Client.Lists.{handle_list, handle_my_auctions, handle_my_bids}
use auction_server.Client.Record.{handle_show_record}
use auction_server.Client.Tcp.{handle_open, handle_close, handle_bid}
use auction_server.Client.Asset.{handle_show_asset}
use auction_server.Client.Commands.{
  Command, handle_cmd, get_handler_func, command_table, search_table, result_text, died,
  handle_help, handle_clear, handle_format, run_handler, run_cmd,
}

abbrev pub code_of : Result → ℕ
code_of (returned err text client) = err
code_of exited = 0
code_of overflow = 0

abbrev from_some : {A : Type 0} → A → Option A → A
from_some d none = d
from_some d (some a) = a

module _ {N : Type 0} (net : Network N) where
  -- The handler returns only codes of the table.
  abbrev Coded : Command N → Type 0
  Coded h = (input : Bytes) (client : ClientState) (n : N) → code_of (h input client n).0 ≤ 28

  handle_login-Coded : Coded (handle_login net)
  unfolding handle_login
  handle_login-Coded input client n = ground arith

  handle_logout-Coded : Coded (handle_logout net)
  unfolding handle_logout
  handle_logout-Coded input client n = ground arith

  handle_unregister-Coded : Coded (handle_unregister net)
  unfolding handle_unregister
  handle_unregister-Coded input client n = ground arith

  handle_exit-Coded : Coded (handle_exit net)
  unfolding handle_exit
  handle_exit-Coded input client n = ground arith

  handle_list-Coded : Coded (handle_list net)
  unfolding handle_list
  handle_list-Coded input client n = ground arith

  handle_my_auctions-Coded : Coded (handle_my_auctions net)
  unfolding handle_my_auctions
  handle_my_auctions-Coded input client n = ground arith

  handle_my_bids-Coded : Coded (handle_my_bids net)
  unfolding handle_my_bids
  handle_my_bids-Coded input client n = ground arith

  handle_show_record-Coded : Coded (handle_show_record net)
  unfolding handle_show_record
  handle_show_record-Coded input client n = ground arith

  handle_close-Coded : Coded (handle_close net)
  unfolding handle_close
  handle_close-Coded input client n = ground arith

  handle_bid-Coded : Coded (handle_bid net)
  unfolding handle_bid
  handle_bid-Coded input client n = ground arith

  handle_open-Coded : Coded (handle_open net)
  unfolding handle_open
  handle_open-Coded input client n = ground arith

  handle_show_asset-Coded : Coded (handle_show_asset net)
  unfolding handle_show_asset
  handle_show_asset-Coded input client n = ground arith

  local-Coded : Coded (handle_help net) × Coded (handle_clear net) × Coded (handle_format net)
  unfolding handle_help handle_clear handle_format
  local-Coded = (λ i c n. omega arith, λ i c n. omega arith, λ i c n. omega arith)

  AllCoded : List (Bytes × Command N) → Type 0
  AllCoded = All (λ entry. Coded entry.1)

  command_table-AllCoded : AllCoded (command_table net)
  unfolding command_table AllCoded
  command_table-AllCoded = (
    handle_login-Coded,
    (
      handle_logout-Coded,
      (
        handle_unregister-Coded,
        (
          handle_exit-Coded,
          (
            handle_exit-Coded,
            (
              handle_exit-Coded,
              (
                handle_open-Coded,
                (
                  handle_close-Coded,
                  (
                    handle_my_auctions-Coded,
                    (
                      handle_my_auctions-Coded,
                      (
                        handle_my_bids-Coded,
                        (
                          handle_my_bids-Coded,
                          (
                            handle_list-Coded,
                            (
                              handle_list-Coded,
                              (
                                handle_show_asset-Coded,
                                (
                                  handle_show_asset-Coded,
                                  (
                                    handle_bid-Coded,
                                    (
                                      handle_bid-Coded,
                                      (
                                        handle_show_record-Coded,
                                        (
                                          handle_show_record-Coded,
                                          (
                                            local-Coded.1,
                                            (
                                              local-Coded.0,
                                              (
                                                local-Coded.0,
                                                (
                                                  local-Coded.0,
                                                  (local-Coded.2, (local-Coded.2, tt)),
                                                ),
                                              ),
                                            ),
                                          ),
                                        ),
                                      ),
                                    ),
                                  ),
                                ),
                              ),
                            ),
                          ),
                        ),
                      ),
                    ),
                  ),
                ),
              ),
            ),
          ),
        ),
      ),
    ),
  )

  search_table-Coded :
      (cmd : Bytes) (table : List (Bytes × Command N)) (h : Command N)
      → AllCoded table
      → search_table cmd table ≡ some h
      → Coded h
  unfolding search_table AllCoded
  search_table-Coded cmd [] h k e = absurd (ground (arith, e))
  search_table-Coded cmd ((op, fn) ∷ table) h k e = elim (Bool-cases (bytes_eq cmd op)) [
    | inl same ↦ subst Coded (ap (from_some fn) (rw same at e)) k.0
    | inr other ↦ search_table-Coded cmd table h k.1 (rw other at e)
  ]

  run_handler-Coded :
      (cmd : Bytes) (o : Option (Command N)) (args : Bytes) (client : ClientState) (n : N)
      → get_handler_func net cmd ≡ o
      → code_of (run_handler net o args client n).0 ≤ 28
  unfolding run_handler get_handler_func
  run_handler-Coded cmd none args client n e = omega arith
  run_handler-Coded cmd (some h) args client n e =
      search_table-Coded cmd (command_table net) h command_table-AllCoded e args client n

  run_cmd-Coded :
      (o : Option Bytes) (input : Bytes) (client : ClientState) (n : N)
      → code_of (run_cmd net o input client n).0 ≤ 28
  unfolding run_cmd
  run_cmd-Coded none input client n = omega arith
  run_cmd-Coded (some cmd) input client n = run_handler-Coded cmd _ _ client n refl

-- An error code of the table has a message.
result_text-ne-died : (r : Result) → code_of r ≤ 28 → r ≢ overflow → result_text r ≢ died
unfolding result_text
result_text-ne-died (returned err text client) h k e = absurd (ground (arith, e, h))
result_text-ne-died exited h k e = absurd (ground (arith, e))
result_text-ne-died overflow h k e = absurd (k refl)

-- Whatever the user types and whatever the network answers, the loop prints a text for the command,
-- or the command ends the process: every error code has its message, so `run_client` never prints
-- a NULL. The one exception is a command that has written behind a buffer.
pub handle_cmd-ne-died :
    {N : Type 0} (net : Network N) (input : Bytes) (client : ClientState) (n : N)
    → (handle_cmd net input client n).0 ≢ overflow
    → result_text (handle_cmd net input client n).0 ≢ died
unfolding handle_cmd
handle_cmd-ne-died net input client n h =
    result_text-ne-died _ (run_cmd-Coded net (strtok b' ' input).0 input client n) h
