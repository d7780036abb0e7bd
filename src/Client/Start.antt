-- ===== src/Client/Start.antt =====
-- The command line of client/main.c, and `initialize_client` of client/client.c. `inet_pton` says
-- whether a text is an IPv4 address, which only decides on a warning.
use auction_server.Common.{
  ℕ, Bool, true, false, not, Option, none, some, List, [], ◌∷◌, ◌++◌, if◌then◌else◌, Bytes,
}
use auction_server.Validators.{is_valid_port, default_port}
use auction_server.Client.{ClientState}

-- An option that `getopt` finds; `invalid` is its '?'.
pub data Opt : Type 0 where
  help debug invalid : Opt
  ip_arg port_arg : Bytes → Opt

-- What is known behind the loop, with the arguments that were warned about.
pub record Settings : Type 0 where
  pub debugging : Bool
  pub ip : Option Bytes
  pub port : Bytes
  pub warned : List Bytes

pub data Parsed : Type 0 where
  exits : ℕ → Parsed
  runs : Settings → Parsed

-- `LOG_WARN` about an argument that is not accepted
abbrev warn : Bool → Bytes → List Bytes → List Bytes
warn ok arg warned = if ok then warned else warned ++ arg ∷ []

module _ (inet_pton : Bytes → Bool) where
  unfoldable is_valid_ip_addr : Bytes → Bool
  is_valid_ip_addr ip_str = inet_pton ip_str

  unfoldable read_options : List Opt → Settings → Parsed
  unfolding is_valid_ip_addr
  read_options [] s = runs s
  read_options (help ∷ opts) s = exits 0
  read_options (invalid ∷ opts) s = exits 1
  read_options (debug ∷ opts) s = read_options opts (record s { debugging = true })
  read_options (ip_arg a ∷ opts) s =
      read_options opts (record s { ip = some a; warned = warn (is_valid_ip_addr a) a s.warned })
  read_options (port_arg p ∷ opts) s = read_options opts (record s {
    port = if is_valid_port p then p else s.port;
    warned = warn (is_valid_port p) p s.warned;
  })

  -- What `main` hands to `run_client`, or its exit code.
  unfoldable pub main : List Opt → Parsed
  unfolding read_options
  main opts =
      read_options opts (record { debugging = false; ip = none; port = default_port; warned = [] })

-- Which calls of `initialize_client` succeed; `getaddrinfo` finds an address for the host and port.
pub record Setup : Type 0 where
  pub getaddrinfo : Option Bytes → Bytes → Bool
  pub socket_ok : Bool
  pub recv_timeout_ok : Bool
  pub send_timeout_ok : Bool

-- The client that is set up: `none` for a return value that is not 0. The user's fields are as the
-- stack left them.
unfoldable pub initialize_client : Setup → Option Bytes → Bytes → ClientState → Option ClientState
initialize_client os ip port client =
    if not (os.getaddrinfo ip port)
    then none
    else if not os.socket_ok
    then none
    else if not os.recv_timeout_ok
    then none
    else if not os.send_timeout_ok
    then none
    else some (record client { logged_in = false })

-- From the command line to the loop of `run_client`, or to the exit code.
pub data Started : Type 0 where
  left : ℕ → Started
  ready : ClientState → Started

abbrev initialized : Option ClientState → Started
initialized none = left 1
initialized (some client) = ready client

abbrev begun : Setup → ClientState → Parsed → Started
begun os client (exits code) = left code
begun os client (runs s) = initialized (initialize_client os s.ip s.port client)

unfoldable pub start_client : (Bytes → Bool) → Setup → List Opt → ClientState → Started
unfolding main initialize_client
start_client inet_pton os opts client = begun os client (main inet_pton opts)
