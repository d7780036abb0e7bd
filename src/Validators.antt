-- ===== src/Validators.antt =====
-- utils/validators.c and the limits of utils/constants.h. A C string is its list of bytes, so
-- `strlen` is `length`, and a loop over all bytes is `all_bytes`. `is_valid_ip_addr` stands with
-- its only caller, in Client/Start; `is_valid_date_time` is in Validators/DateTime.
pub mod DateTime
pub mod Laws
use auction_server.Common.{
  ℕ, Bool, true, false, not, ◌&&◌, ◌||◌, [], ◌∷◌, ltb, ◌==◌, codes, if◌then◌else◌, Bytes, length,
}
use auction_server.Common.Int.{le_ℕ, is_pos}
use auction_server.Libc.{isdigit, isalnum, atoi}

abbrev uid_size : ℕ
uid_size = 6

abbrev password_size : ℕ
password_size = 8

abbrev aid_size : ℕ
aid_size = 3

abbrev pub asset_name_len : ℕ
asset_name_len = 10

abbrev pub start_value_len : ℕ
start_value_len = 6

abbrev pub time_active_len : ℕ
time_active_len = 5

abbrev pub fname_len : ℕ
fname_len = 24

abbrev pub fsize_str_len : ℕ
fsize_str_len = 8

-- `for (i = 0; i < len; i++) if (!p(s[i])) return 0; return 1;`
unfoldable pub all_bytes : (ℕ → Bool) → Bytes → Bool
all_bytes p [] = true
all_bytes p (c ∷ s) = if p c then all_bytes p s else false

-- DEFAULT_PORT of utils/config.h
abbrev pub default_port : Bytes
default_port = codes "58078"

unfoldable pub is_valid_port : Bytes → Bool
is_valid_port port = is_pos (atoi port) && le_ℕ (atoi port) 65535

unfoldable pub is_valid_uid : Bytes → Bool
unfolding all_bytes isdigit
is_valid_uid uid = if not (length uid == uid_size) then false else all_bytes isdigit uid

unfoldable pub is_valid_passwd : Bytes → Bool
unfolding all_bytes isalnum
is_valid_passwd passwd =
    if not (length passwd == password_size) then false else all_bytes isalnum passwd

unfoldable is_valid_name_char : ℕ → Bool
unfolding isalnum
is_valid_name_char c = isalnum c || c == b'-' || c == b'@' || c == b'!' || c == b'?' || c == b'_'

unfoldable pub is_valid_name : Bytes → Bool
unfolding all_bytes is_valid_name_char
is_valid_name name =
    if ltb asset_name_len (length name) then false else all_bytes is_valid_name_char name

-- The loops of four validators: at most `limit` digits, and at least one.
short_number : ℕ → Bytes → Bool
unfolding all_bytes isdigit
short_number limit s = if ltb limit (length s) || length s == 0 then false else all_bytes isdigit s

unfoldable pub is_valid_start_value : Bytes → Bool
unfolding short_number
is_valid_start_value sv = short_number start_value_len sv

unfoldable pub is_valid_time_active : Bytes → Bool
unfolding short_number
is_valid_time_active ta = short_number time_active_len ta

unfoldable pub is_valid_path_char : ℕ → Bool
is_valid_path_char c =
    not (c == b'/')
    && not (c == b':')
    && not (c == b'*')
    && not (c == b'\\')
    && not (c == 96)
    && not (c == b'~')
    && not (c == b'|')
    && not (c == b'?')
    && not (c == b'!')
    && not (c == b'#')
    && not (c == b'$')
    && not (c == b'%')

-- `fname[0] == '.'`
unfoldable pub is_hidden : Bytes → Bool
is_hidden [] = false
is_hidden (c ∷ s) = c == b'.'

unfoldable pub is_valid_fname : Bytes → Bool
unfolding all_bytes is_valid_path_char is_hidden
is_valid_fname fname =
    if ltb fname_len (length fname) || length fname == 0
    then false
    else if is_hidden fname
    then false
    else all_bytes is_valid_path_char fname

unfoldable pub is_valid_fsize : Bytes → Bool
unfolding short_number
is_valid_fsize fsize = short_number fsize_str_len fsize

unfoldable pub is_valid_aid : Bytes → Bool
unfolding all_bytes isdigit
is_valid_aid aid = if not (length aid == aid_size) then false else all_bytes isdigit aid
