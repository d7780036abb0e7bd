-- ===== src/Server/Options.antt =====
-- The command line of server/main.c. `getopt` is what its successive calls return.
use auction_server.Common.{
  ℕ, ◌≡◌, refl, ap, sym, ◌∙◌, Bool, true, false, not, Option, none, some, List, [], ◌∷◌,
  if◌then◌else◌, Bytes, Bool-cases, inl, inr,
}
use auction_server.Validators.{is_valid_port, default_port}

data LogLevel : Type 0 where
  log_normal log_verbose log_debug : LogLevel

-- An option that `getopt` finds; `invalid` is its '?'.
data Opt : Type 0 where
  help verbose debug invalid : Opt
  port_arg log_arg : Bytes → Opt

record Settings : Type 0 where
  g_level : LogLevel
  port : Bytes
  log_file : Option Bytes

-- `if (!g_level)`
abbrev raise_verbose : LogLevel → LogLevel
raise_verbose log_normal = log_verbose
raise_verbose l = l

-- `exit(code)`, or what is known behind the loop.
data Parsed : Type 0 where
  exits : ℕ → Parsed
  runs : Settings → Parsed

unfoldable read_options : List Opt → Settings → Parsed
read_options [] s = runs s
read_options (help ∷ opts) s = exits 0
read_options (invalid ∷ opts) s = exits 1
read_options (verbose ∷ opts) s = read_options opts (record s { g_level = raise_verbose s.g_level })
read_options (debug ∷ opts) s = read_options opts (record s { g_level = log_debug })
read_options (port_arg p ∷ opts) s =
    read_options opts (record s { port = if is_valid_port p then p else s.port })
read_options (log_arg f ∷ opts) s = read_options opts (record s { log_file = some f })

abbrev defaults : Settings
defaults = record { g_level = log_normal; port = default_port; log_file = none }

-- Whether the log file can be opened, and each of the two `dup2` succeeds.
record Redirect : Type 0 where
  open_ok : Bool
  stdout_ok : Bool
  stderr_ok : Bool

redirected : Redirect → Option Bytes → Bool
redirected r none = true
redirected r (some f) =
    if not r.open_ok then false else if not r.stdout_ok then false else r.stderr_ok

serves : Redirect → Parsed → Parsed
unfolding redirected
serves r (exits code) = exits code
serves r (runs s) = if redirected r s.log_file then runs s else exits 1

-- What `main` hands to `server`, or its exit code.
unfoldable main : List Opt → Redirect → Parsed
unfolding read_options serves
main opts r = serves r (read_options opts defaults)

-- The `-p` arguments that are valid ports, in their order.
abbrev valid_ports : List Opt → List Bytes
valid_ports [] = []
valid_ports (port_arg p ∷ opts) = if is_valid_port p then p ∷ valid_ports opts else valid_ports opts
valid_ports (_ ∷ opts) = valid_ports opts

abbrev last_or : Bytes → List Bytes → Bytes
last_or d [] = d
last_or d (p ∷ ps) = last_or p ps

abbrev has_debug : List Opt → Bool
has_debug [] = false
has_debug (debug ∷ opts) = true
has_debug (_ ∷ opts) = has_debug opts

abbrev has_verbose : List Opt → Bool
has_verbose [] = false
has_verbose (verbose ∷ opts) = true
has_verbose (_ ∷ opts) = has_verbose opts

-- The level from a starting one, whether `-d` and `-v` are given.
abbrev level : LogLevel → Bool → Bool → LogLevel
level l true v = log_debug
level l false true = raise_verbose l
level l false false = l

level_verbose : (l : LogLevel) (d v : Bool) → level (raise_verbose l) d v ≡ level l d true
level_verbose l true v = refl
level_verbose log_normal false true = refl
level_verbose log_normal false false = refl
level_verbose log_verbose false true = refl
level_verbose log_verbose false false = refl
level_verbose log_debug false true = refl
level_verbose log_debug false false = refl

level_debug : (d v : Bool) → level log_debug d v ≡ log_debug
level_debug true v = refl
level_debug false true = refl
level_debug false false = refl

-- What the loop makes of the settings that it starts from.
record Read (opts : List Opt) (s t : Settings) : Type 0 where
  port : t.port ≡ last_or s.port (valid_ports opts)
  g_level : t.g_level ≡ level s.g_level (has_debug opts) (has_verbose opts)

read_options-Read :
    (opts : List Opt) (s t : Settings) → read_options opts s ≡ runs t → Read opts s t
unfolding read_options
read_options-Read [] s t e =
    let same = settings-injective s t e in
    record { port = ap (λ x. x.port) (sym same); g_level = ap (λ x. x.g_level) (sym same) }
  where
    settings-injective : (a b : Settings) → runs a ≡ runs b → a ≡ b
    settings-injective a b h = cc h
read_options-Read (help ∷ opts) s t e = absurd (cc e)
read_options-Read (invalid ∷ opts) s t e = absurd (cc e)
read_options-Read (verbose ∷ opts) s t e =
    let r = read_options-Read opts (record s { g_level = raise_verbose s.g_level }) t e in
    record {
      port = r.port;
      g_level = r.g_level ∙ level_verbose s.g_level (has_debug opts) (has_verbose opts);
    }
read_options-Read (debug ∷ opts) s t e =
    let r = read_options-Read opts (record s { g_level = log_debug }) t e in
    record { port = r.port; g_level = r.g_level ∙ level_debug (has_debug opts) (has_verbose opts) }
read_options-Read (port_arg p ∷ opts) s t e =
    let r =
      read_options-Read opts (record s { port = if is_valid_port p then p else s.port }) t e in
    record {
      port = r.port ∙ elim (Bool-cases (is_valid_port p)) [ inl h ↦ rw h refl | inr h ↦ rw h refl ];
      g_level = r.g_level;
    }
read_options-Read (log_arg f ∷ opts) s t e =
    let r = read_options-Read opts (record s { log_file = some f }) t e in
    record { port = r.port; g_level = r.g_level }

serves-runs : (r : Redirect) (p : Parsed) (t : Settings) → serves r p ≡ runs t → p ≡ runs t
unfolding serves
serves-runs r (exits code) t e = absurd (cc e)
serves-runs r (runs s) t e = elim (Bool-cases (redirected r s.log_file)) [
  | inl h ↦ rw (serves, h) at e
  | inr h ↦ absurd (cc (rw (serves, h) at e))
]

-- The level that is asked for, whether `-d` and `-v` are given.
abbrev wanted : Bool → Bool → LogLevel
wanted true v = log_debug
wanted false true = log_verbose
wanted false false = log_normal

level-wanted : (d v : Bool) → level log_normal d v ≡ wanted d v
level-wanted true v = refl
level-wanted false true = refl
level-wanted false false = refl

-- Where `main` starts the server, its port is the last of the `-p` arguments that are valid ports, or
-- the default port, and it logs at the level of `-d` if that is given, else at that of `-v` if that
-- is, in whatever order they stand.
main-runs :
    (opts : List Opt) (r : Redirect) (s : Settings)
    → main opts r ≡ runs s
    → (s.port ≡ last_or default_port (valid_ports opts))
      × (s.g_level ≡ wanted (has_debug opts) (has_verbose opts))
unfolding main
main-runs opts r s e =
    let k = read_options-Read opts defaults s (serves-runs r (read_options opts defaults) s e) in
    (k.port, k.g_level ∙ level-wanted (has_debug opts) (has_verbose opts))
