-- ===== src/Tests/Reading.antt =====
-- Requests and connections.
use auction_server.Common.{
  ◌≡◌, ◌≢◌, ◌≤◌, refl, false, some, arith, Bytes, List, [], ◌∷◌, codes, length, All, inr, bytes_eq,
}
use auction_server.Libc.{strtok}
use auction_server.Os.{take_bytes}
use auction_server.Stream.{Conn, got, overrun, read_tcp_stream}
use auction_server.Stream.Chunks.{read_tcp_stream_split}
use auction_server.Stream.Received.{Received}
use auction_server.Tcp.Open.{arg_byte, is_valid_opa_arg, get_opa_arg_len}
use auction_server.Tcp.Open.Bounds.{handle_open_args-Fits}
use auction_server.Tcp.Reading.{recv_bytes, result, zero_buff}
use auction_server.Udp.Dispatch.{handle_udp_command, crash, c_string}
use auction_server.Udp.Dispatch.Crash.{handle_udp_command-crash, handle_udp_command-ne-crash}
use auction_server.Validators.{
  is_valid_aid, is_valid_name, is_valid_start_value, is_valid_time_active, is_valid_fname,
  is_valid_fsize,
}
use auction_server.Tests.Worlds.{empty}

handle_udp_command-crash_example : handle_udp_command (codes "SRC 12\n") empty ≡ crash
handle_udp_command-crash_example =
    handle_udp_command-crash (codes "12\n") empty (inr (codes "12", token, bad))
  where
    token : (strtok b'\n' (codes "12\n")).0 ≡ some (codes "12")
    token = unfold strtok in refl

    bad : is_valid_aid (codes "12") ≡ false
    bad = unfold is_valid_aid in refl

handle_udp_command-ne-crash_example :
    handle_udp_command (codes "LIN 123456 passw0rd\n") empty ≢ crash
handle_udp_command-ne-crash_example =
    handle_udp_command-ne-crash (codes "LIN 123456 passw0rd\n") empty
      (unfold bytes_eq take_bytes in refl) (unfold bytes_eq take_bytes in refl)

abbrev whole : Conn
whole = got 97 (codes "bcde") ∷ []

-- A bid's 20 bytes, the first 16 of them alone.
read_tcp_stream_split_example :
    read_tcp_stream
      (zero_buff 32)
      20
      (got b' ' (codes "123456 passw0rd") ∷ got b' ' (codes "001 50") ∷ [])
    ≡ (overrun, [])
read_tcp_stream_split_example =
    read_tcp_stream_split (zero_buff 32) 20 b' ' b' ' (codes "123456 passw0rd") (codes "001 50") []
      (omega arith) (omega arith) (unfold zero_buff in omega arith)
      (unfold zero_buff in omega arith)

abbrev picture : Conn
picture = got 97 (codes "b") ∷ got 99 (codes "\n") ∷ []

abbrev arguments : Conn
arguments = got 97 (codes " 20 3600 a.png 4 ") ∷ []

abbrev read_arguments : List Bytes
read_arguments = codes "a" ∷ codes "20" ∷ codes "3600" ∷ codes "a.png" ∷ codes "4" ∷ []

handle_open_args-Fits_example :
    (length read_arguments ≡ 5) × All (λ a. length a ≤ 24) read_arguments
handle_open_args-Fits_example = handle_open_args-Fits arguments [] read_arguments five
  where
    five :
        recv_bytes arg_byte (record { saved = []; current = [] }) arguments
        ≡ (result (some read_arguments), [])
    five =
        unfold recv_bytes arg_byte c_string is_valid_opa_arg get_opa_arg_len is_valid_name
          is_valid_start_value is_valid_time_active is_valid_fname is_valid_fsize in
        refl
