-- ===== src/Tests/Commands.antt =====
-- Lines typed at the client's prompt.
use auction_server.Common.{true, ◌≡◌, ◌≢◌, refl, false, none, [], Bytes, codes, arith, bytes_eq}
use auction_server.Libc.{strtok, skip}
use auction_server.Udp.Dispatch.{c_string}
use auction_server.Validators.{is_valid_uid}
use auction_server.Client.{ClientState, returned, overflow, Network, unconnected}
use auction_server.Client.Commands.{handle_cmd, result_text, died, arguments}
use auction_server.Client.Commands.Messages.{handle_cmd-ne-died}
use auction_server.Client.Session.{login_args, handle_login}

-- Nothing answers.
abbrev silence : Network Bytes
silence = record {
  ask = λ message n. (none, message);
  dial = λ message n. (unconnected, n);
  asset_file = λ fname n. none;
  create = λ fname n. (false, n);
  save = λ fname content n. (true, n);
}

abbrev nobody : ClientState
nobody = record { logged_in = false; uid = []; passwd = [] }

bad_login : (handle_cmd silence (codes "login 12345 passw0rd") nobody []).0 ≡ returned 5 [] nobody
unfolding handle_cmd login_args strtok skip c_string bytes_eq is_valid_uid arguments handle_login
bad_login = refl

handle_cmd-ne-died_example :
    result_text (handle_cmd silence (codes "login 12345 passw0rd") nobody []).0 ≢ died
handle_cmd-ne-died_example =
    handle_cmd-ne-died silence (codes "login 12345 passw0rd") nobody [] written
  where
    written : (handle_cmd silence (codes "login 12345 passw0rd") nobody []).0 ≢ overflow
    written e = absurd (ground (arith, e, bad_login))

-- With a space in front, the arguments of a command are lost.
leading_space : arguments (codes " login 123456 passw0rd") (codes "login") ≡ []
unfolding arguments skip c_string
leading_space = refl

plain_arguments :
    arguments (codes "login 123456 passw0rd") (codes "login") ≡ codes "123456 passw0rd"
unfolding arguments skip c_string
plain_arguments = refl
