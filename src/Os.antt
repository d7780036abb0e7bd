-- ===== src/Os.antt =====
-- The operating system as server/database.c sees it: the files below ASDIR, the clock, and the
-- calls that the kernel refuses. A path is a constructor for each format string of the sources;
-- UIDs are six bytes and AIDs three, so that `%6s`, `%.6s`, `%3s` and `%.3s` print them whole.
pub mod Children
pub mod Laws
pub mod Order
pub mod Reading
use auction_server.Common.{
  ℕ, zero, suc, ◌-◌, Bool, true, false, not, ◌&&◌, ◌||◌, Option, none, some, List, [], ◌∷◌, ◌++◌,
  ltb, ◌==◌, if◌then◌else◌, Bytes, codes, bytes_eq, length, drop,
}

pub data FilePath : Type 0 where
  root users auctions : FilePath
  user_dir hosted_dir bidded_dir login_file pass_file : Bytes → FilePath
  auction_dir bids_dir asset_dir start_file end_file : Bytes → FilePath
  hosted_file bidded_file bid_file asset_file : Bytes → Bytes → FilePath

abbrev pub parent : FilePath → FilePath
parent root = root
parent users = root
parent auctions = root
parent (user_dir u) = users
parent (hosted_dir u) = user_dir u
parent (bidded_dir u) = user_dir u
parent (login_file u) = user_dir u
parent (pass_file u) = user_dir u
parent (auction_dir a) = auctions
parent (bids_dir a) = auction_dir a
parent (asset_dir a) = auction_dir a
parent (start_file a) = auction_dir a
parent (end_file a) = auction_dir a
parent (hosted_file u n) = hosted_dir u
parent (bidded_file u n) = bidded_dir u
parent (bid_file a n) = bids_dir a
parent (asset_file a n) = asset_dir a

-- the last component, which is the `d_name` of a directory entry
abbrev pub base_name : FilePath → Bytes
base_name root = codes "."
base_name users = codes "USERS"
base_name auctions = codes "AUCTIONS"
base_name (user_dir u) = u
base_name (hosted_dir u) = codes "HOSTED"
base_name (bidded_dir u) = codes "BIDDED"
base_name (login_file u) = u ++ codes "_login.txt"
base_name (pass_file u) = u ++ codes "_pass.txt"
base_name (auction_dir a) = a
base_name (bids_dir a) = codes "BIDS"
base_name (asset_dir a) = codes "ASSET"
base_name (start_file a) = codes "START_" ++ a ++ codes ".txt"
base_name (end_file a) = codes "END_" ++ a ++ codes ".txt"
base_name (hosted_file u n) = n
base_name (bidded_file u n) = n
base_name (bid_file a n) = n
base_name (asset_file a n) = n

abbrev pub shape : FilePath → ℕ × Bytes × Bytes
shape root = (0, [], [])
shape users = (1, [], [])
shape auctions = (2, [], [])
shape (user_dir u) = (3, u, [])
shape (hosted_dir u) = (4, u, [])
shape (bidded_dir u) = (5, u, [])
shape (login_file u) = (6, u, [])
shape (pass_file u) = (7, u, [])
shape (auction_dir a) = (8, a, [])
shape (bids_dir a) = (9, a, [])
shape (asset_dir a) = (10, a, [])
shape (start_file a) = (11, a, [])
shape (end_file a) = (12, a, [])
shape (hosted_file u n) = (13, u, n)
shape (bidded_file u n) = (14, u, n)
shape (bid_file a n) = (15, a, n)
shape (asset_file a n) = (16, a, n)

abbrev same_shape : ℕ × Bytes × Bytes → ℕ × Bytes × Bytes → Bool
same_shape (k, a, b) (l, c, d) = k == l && bytes_eq a c && bytes_eq b d

-- Do two paths name the same file?
unfoldable pub path_eq : FilePath → FilePath → Bool
unfolding bytes_eq
path_eq p q = same_shape (shape p) (shape q)

pub data Node : Type 0 where
  dir : Node
  file : Bytes → Node

abbrev pub Files : Type 0
Files = List (FilePath × Node)

unfoldable pub lookup : FilePath → Files → Option Node
lookup p [] = none
lookup p ((q, n) ∷ fs) = if path_eq p q then some n else lookup p fs

unfoldable pub insert : FilePath → Node → Files → Files
insert p n [] = (p, n) ∷ []
insert p n ((q, m) ∷ fs) = if path_eq q p then (p, n) ∷ fs else (q, m) ∷ insert p n fs

unfoldable pub delete : FilePath → Files → Files
delete p [] = []
delete p ((q, m) ∷ fs) = let rest = delete p fs in if path_eq q p then rest else (q, m) ∷ rest

-- the names in a directory, in the order in which they stand there
unfoldable pub children : FilePath → Files → List Bytes
children p [] = []
children p ((q, m) ∷ fs) =
    let rest = children p fs in if path_eq (parent q) p then base_name q ∷ rest else rest

pub data Call : Type 0 where
  making opening reading writing removing scanning : Call

-- `auc_count` is the static variable of database.c, `now` what `time(NULL)` returns, and `refuses`
-- says which calls fail for a reason that is not in the files (permissions, space, limits).
pub record World : Type 0 where
  pub fs : Files
  pub auc_count : ℕ
  pub now : ℕ
  pub refuses : Call → FilePath → Bool

abbrev pub put : FilePath → Node → World → World
put p n w = record w { fs = insert p n w.fs }

unfoldable pub is_dir : Option Node → Bool
is_dir (some dir) = true
is_dir _ = false

unfoldable pub is_absent : Option Node → Bool
is_absent none = true
is_absent (some _) = false

-- `mkdir` returns 0, or fails with `EEXIST`, or fails otherwise.
pub data Mkdir : Type 0 where
  made exists failed : Mkdir

unfoldable pub mkdir : FilePath → World → Mkdir × World
unfolding is_dir is_absent
mkdir p w =
    if w.refuses making p
    then (failed, w)
    else if not (is_absent (lookup p w.fs))
    then (exists, w)
    else if is_dir (lookup (parent p) w.fs)
    then (made, put p dir w)
    else (failed, w)

create : Option Node → Bool → FilePath → World → Bool × World
create (some dir) parent_ok p w = (false, w)
create (some (file s)) parent_ok p w = (true, w)
create none parent_ok p w = if parent_ok then (true, put p (file []) w) else (false, w)

-- `open(p, O_CREAT ...)` and the `close` behind it: a file that is there is left alone.
unfoldable pub open_creat : FilePath → World → Bool × World
unfolding create is_dir
open_creat p w =
    if w.refuses opening p
    then (false, w)
    else create (lookup p w.fs) (is_dir (lookup (parent p) w.fs)) p w

-- `fopen(p, "w")`
unfoldable pub fopen_w : FilePath → World → Bool × World
unfolding open_creat
fopen_w p w =
    let (done, w') = open_creat p w in if done then (true, put p (file []) w') else (false, w)

unfoldable pub contents : Option Node → Option Bytes
contents (some (file s)) = some s
contents _ = none

-- `fopen(p, "r")`, with the contents of the file
unfoldable pub fopen_r : FilePath → World → Option Bytes
unfolding contents
fopen_r p w = if w.refuses reading p then none else contents (lookup p w.fs)

unfoldable pub text_of : Option Bytes → Bytes
text_of none = []
text_of (some s) = s

-- `fputs(s, fp)` on a file opened by `fopen_w`: behind what was written
unfoldable pub fputs : FilePath → Bytes → World → Bool × World
unfolding contents text_of
fputs p s w =
    if w.refuses writing p
    then (false, w)
    else (true, put p (file (text_of (contents (lookup p w.fs)) ++ s)) w)

-- `write(fd, s, n)` at the start of a file opened without `O_TRUNC`
unfoldable pub write_start : FilePath → Bytes → World → Bool × World
unfolding contents text_of
write_start p s w =
    if w.refuses writing p
    then (false, w)
    else (true, put p (file (s ++ drop (length s) (text_of (contents (lookup p w.fs))))) w)

unfoldable pub is_empty : List Bytes → Bool
is_empty [] = true
is_empty (_ ∷ _) = false

-- `remove(p)`: a file, or a directory that is empty
unfoldable pub remove : FilePath → World → Bool × World
unfolding is_absent is_dir is_empty
remove p w =
    if w.refuses removing p || is_absent (lookup p w.fs)
    then (false, w)
    else if is_dir (lookup p w.fs) && not (is_empty (children p w.fs))
    then (false, w)
    else (true, record w { fs = delete p w.fs })

-- `strcmp(a, b) <= 0`, the order of `alphasort` in the C locale
unfoldable pub bytes_le : Bytes → Bytes → Bool
bytes_le [] b = true
bytes_le (x ∷ a) [] = false
bytes_le (x ∷ a) (y ∷ b) = if x == y then bytes_le a b else ltb x y

unfoldable pub insert_sorted : Bytes → List Bytes → List Bytes
insert_sorted a [] = a ∷ []
insert_sorted a (b ∷ bs) = if bytes_le a b then a ∷ b ∷ bs else b ∷ insert_sorted a bs

unfoldable pub alphasort : List Bytes → List Bytes
unfolding insert_sorted bytes_le
alphasort [] = []
alphasort (a ∷ bs) = insert_sorted a (alphasort bs)

-- `scandir`, which lists `.` and `..` too
unfoldable pub scandir : FilePath → World → Option (List Bytes)
unfolding is_dir
scandir p w =
    if w.refuses scanning p || not (is_dir (lookup p w.fs))
    then none
    else some (codes "." ∷ codes ".." ∷ children p w.fs)

up_to_newline : Bytes → Bytes
up_to_newline [] = []
up_to_newline (c ∷ s) = let rest = up_to_newline s in if c == b'\n' then c ∷ [] else c ∷ rest

unfoldable pub take_bytes : ℕ → Bytes → Bytes
take_bytes zero s = []
take_bytes (suc n) [] = []
take_bytes (suc n) (c ∷ s) = c ∷ take_bytes n s

fgets_line : ℕ → Bytes → Option Bytes
fgets_line n [] = none
fgets_line n (c ∷ s) = some (take_bytes (n - 1) (up_to_newline (c ∷ s)))

-- `fgets(buff, n, fp)` at the start of a file: NULL if there is nothing to read
unfoldable pub fgets : ℕ → Bytes → Option Bytes
unfolding up_to_newline take_bytes fgets_line
fgets n s = fgets_line n s
