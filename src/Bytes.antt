-- ===== src/Bytes.antt =====
-- Byte slices: the copying loops that the servers share, and the byte helpers of new/main.go, with
-- the search for a JSON text of its packet parser.
-- A slice is the list of its bytes; an index out of range is a panic, `none`.
pub mod Slices
pub mod Copy
pub mod Search
pub mod Remove
pub mod Json
mod Tests
use gitee_fork_gateway.Prelude.{
  ℕ, zero, suc, ◌+◌, ◌-◌, Bool, true, false, Option, none, some, List, length, get_elem?, set, take,
  ltb, ◌==◌, ◌&&◌, if◌then◌else◌, ◌>>=◌,
}

-- `dst[i] = v`.
abbrev pub store : List ℕ → ℕ → ℕ → Option (List ℕ)
store dst i v = if ltb i (length dst) then some (set dst i v) else none

-- `src[0:n]`, with a panic past the slice's length. Go panics past its capacity only; the slices of
-- the model have no capacity beyond their length, so that `none` here may be a longer slice there.
unfoldable pub prefix : List ℕ → ℕ → Option (List ℕ)
prefix src n = if ltb (length src) n then none else some (take n src)

-- `for i := i; i < i + n; i++ { dst[i] = src[i] }`, the copying loop of many functions.
unfoldable pub copy_loop : ℕ → ℕ → List ℕ → List ℕ → Option (List ℕ)
copy_loop zero i src dst = some dst
copy_loop (suc n) i src dst = do
  v ← get_elem? src i
  dst' ← store dst i v
  copy_loop n (i + 1) src dst'

-- `for j := j; j < substr_len && ret; j++`, with the rounds left.
unfoldable pub match_loop : ℕ → ℕ → ℕ → List ℕ → List ℕ → Option Bool
match_loop zero i j src substr = some true
match_loop (suc rounds) i j src substr = do
  a ← get_elem? src (i + j)
  b ← get_elem? substr j
  let rest = match_loop rounds i (j + 1) src substr
  if a == b then rest else some false

-- `for i := i; i < src_len-substr_len+1; i++`, with the rounds left.
unfoldable pub contains_loop : ℕ → ℕ → List ℕ → List ℕ → ℕ → Option (Bool × ℕ)
unfolding match_loop
contains_loop zero i src substr substr_len = some (false, 0)
contains_loop (suc rounds) i src substr substr_len = do
  a ← get_elem? src i
  b ← get_elem? substr 0
  let inner = match_loop (substr_len - 1) i 1 src substr
  ret ← (if a == b then inner else some false)
  let rest = contains_loop rounds (i + 1) src substr substr_len
  if ret then some (true, i) else rest

unfoldable pub contains : List ℕ → List ℕ → ℕ → ℕ → Option (Bool × ℕ)
unfolding contains_loop
contains src substr src_len substr_len =
    if ltb src_len substr_len
    then some (false, 0)
    else contains_loop (src_len - substr_len + 1) 0 src substr substr_len

-- `for i := i; i < src_size; i++`, with the rounds left.
unfoldable pub remove_loop : ℕ → ℕ → List ℕ → ℕ → ℕ → Option (List ℕ)
remove_loop zero i src src_size sub_size = some src
remove_loop (suc rounds) i src src_size sub_size = do
  let moved = get_elem? src (i + sub_size) >>= λ v. store src i v
  src' ← (if ltb i (src_size - sub_size) then moved else some src)
  remove_loop rounds (i + 1) src' src_size sub_size

unfoldable pub remove_bytes : List ℕ → ℕ → ℕ → ℕ → Option (List ℕ)
unfolding remove_loop
remove_bytes src index src_size sub_size =
    remove_loop (src_size - index) index src src_size sub_size

-- `for i := i; i < src_len; i++` of `trimLeft`, with the rounds left; the result is `m`.
unfoldable pub trim_loop : ℕ → ℕ → List ℕ → ℕ → ℕ → Option ℕ
trim_loop zero i src ch m = some m
trim_loop (suc rounds) i src ch m = do
  a ← get_elem? src i
  let rest = trim_loop rounds (i + 1) src ch (m + 1)
  if a == ch then rest else some m

-- The length that is left, and the slice.
unfoldable pub trim_left : List ℕ → ℕ → ℕ → Option (ℕ × List ℕ)
unfolding trim_loop remove_bytes
trim_left src src_len ch = do
  m ← trim_loop src_len 0 src ch 0
  src' ← remove_bytes src 0 src_len m
  some (src_len - m, src')

-- The variables of `checkMayJson`; `from` and `to` are `none` where the source has -1, and `num` is
-- `opened - closed`, which may be negative.
pub record JsonScan : Type 0 where
  pub from : Option ℕ
  pub to : Option ℕ
  pub opened : ℕ
  pub closed : ℕ

-- `from = i` if it is -1.
abbrev pub from_once : Option ℕ → ℕ → Option ℕ
from_once none i = some i
from_once (some f) i = some f

-- `from >= 0 && to > from`.
abbrev pub ordered : Option ℕ → Option ℕ → Bool
ordered none to = false
ordered (some f) none = false
ordered (some f) (some t) = ltb f t

-- `from > to`.
abbrev pub from_gt_to : Option ℕ → Option ℕ → Bool
from_gt_to none to = false
from_gt_to (some f) none = true
from_gt_to (some f) (some t) = ltb t f

-- What one byte changes: 123 is `{` and 125 is `}`.
unfoldable pub json_byte : ℕ → ℕ → JsonScan → JsonScan
json_byte b i s =
    let s1 : JsonScan =
      (if b == 123 then record s { from = from_once s.from i; opened = s.opened + 1 } else s) in
    if b == 125 then record s1 { to = some i; closed = s1.closed + 1 } else s1

-- `for i := i; i < l; i++`, with the rounds left.
unfoldable pub json_loop : ℕ → ℕ → List ℕ → JsonScan → Option JsonScan
unfolding json_byte
json_loop zero i bys s = some s
json_loop (suc rounds) i bys s = do
  b ← get_elem? bys i
  let s' = json_byte b i s
  let rest = json_loop rounds (i + 1) bys s'
  if ordered s'.from s'.to && (s'.opened == s'.closed) then some s' else rest

unfoldable pub check_may_json : List ℕ → ℕ → Option (Option ℕ × Option ℕ)
unfolding json_loop
check_may_json bys l = do
  let start : JsonScan = record { from = none; to = none; opened = 0; closed = 0 }
  s ← json_loop l 0 bys start
  some (if from_gt_to s.from s.to then none else s.from, s.to)
