-- ===== src/Parser.antt =====
-- new/main.go, `TcpPackageParseEntity.Parser` and `WebSocketParse.Parser`, on the slices of the entities
-- that they work on, once these are acquired. `none` is a panic: an index out of range.
pub mod Beats
pub mod Cast
pub mod Pooled
pub mod Shrink
mod Tests
use gitee_fork_gateway.Prelude.{
  ℕ, zero, suc, ◌+◌, ◌-◌, Bool, true, false, Option, none, some, List, length, get_elem?, ltb, ◌==◌,
  if◌then◌else◌, ◌>>=◌,
}
use gitee_fork_gateway.Bytes.{store, copy_loop, contains, remove_bytes, trim_left, check_may_json}

-- The interface `CryptImpl`: a call answers with its three results and leaves two slices, `src` and
-- `dst`.
pub record CryptImpl : Type 0 where
  pub en_crypt : List ℕ → List ℕ → ℕ → ℕ → Option (Bool × ℕ × ℕ × List ℕ × List ℕ)
  pub de_crypt : List ℕ → List ℕ → ℕ → ℕ → Option (Bool × ℕ × ℕ × List ℕ × List ℕ)

-- What `Parser` returns besides 0 for `s_size` and its own `tcp_serial`, and the slices and the
-- length that it leaves.
pub record Parsed : Type 0 where
  pub ca_size : ℕ
  pub beat : Bool
  pub bytes : List ℕ
  pub tbyte : List ℕ
  pub src_len : ℕ

-- The same with the two buffers that it acquires, as it leaves them.
pub record Worked : Type 0 where
  pub parsed : Parsed
  pub cwp : List ℕ
  pub cdt : List ℕ

-- `for ok`: removes heartbeats, with a bound on the rounds. `parse` gives one round more than there
-- are bytes, so that `contains` is called in any case, and panics for a heartbeat that is empty.
unfoldable pub strip : ℕ → List ℕ → List ℕ → ℕ → Bool → Option (List ℕ × ℕ × Bool)
strip zero alive cdt dlen beat = some (cdt, dlen, beat)
strip (suc rounds) alive cdt dlen beat = do
  (ok, bi) ← contains cdt alive dlen (length alive)
  let more = do
    cdt' ← remove_bytes cdt bi dlen (length alive)
    strip rounds alive cdt' (dlen - length alive) true
  if ok then more else some (cdt, dlen, beat)

-- `tbyte[i-from] = cdt[i]`, with the rounds left.
unfoldable pub cast_loop : ℕ → ℕ → ℕ → List ℕ → List ℕ → Option (List ℕ)
cast_loop zero i from cdt tbyte = some tbyte
cast_loop (suc rounds) i from cdt tbyte = do
  v ← get_elem? cdt i
  tbyte' ← store tbyte (i - from) v
  cast_loop rounds (i + 1) from cdt tbyte'

-- `cdt[i] = cdt[i+ca_size]`, with the rounds left.
unfoldable pub shift_loop : ℕ → ℕ → ℕ → List ℕ → Option (List ℕ)
shift_loop zero i ca_size cdt = some cdt
shift_loop (suc rounds) i ca_size cdt = do
  v ← get_elem? cdt (i + ca_size)
  cdt' ← store cdt i v
  shift_loop rounds (i + 1) ca_size cdt'

-- The JSON text goes to `tbyte`: the size of it, the two slices, and the length that is left.
unfoldable pub cut : List ℕ → List ℕ → ℕ → Option (ℕ × List ℕ × List ℕ × ℕ)
unfolding cast_loop shift_loop
cut cdt tbyte dlen = do
  (from, to) ← check_may_json cdt dlen
  elim from [
    | none ↦ some (0, cdt, tbyte, dlen)
    | some f ↦ elim to [
      | none ↦ none
      | some t ↦ do
        let ca_size = t - f + 1
        tbyte' ← cast_loop ca_size f f cdt tbyte
        cdt' ← shift_loop ca_size f ca_size cdt
        some (ca_size, cdt', tbyte', dlen - ca_size)
    ]
  ]

-- `bytes[dlen+i] = cwp[i]`, with the rounds left.
unfoldable pub left_loop : ℕ → ℕ → ℕ → List ℕ → List ℕ → Option (List ℕ)
left_loop zero i dlen cwp bytes = some bytes
left_loop (suc rounds) i dlen cwp bytes = do
  v ← get_elem? cwp i
  bytes' ← store bytes (dlen + i) v
  left_loop rounds (i + 1) dlen cwp bytes'

-- What is not parsed goes back to the buffer: the slice and its new length, and `cdt`.
unfoldable pub put_back :
    Option CryptImpl → ℕ → List ℕ → List ℕ → List ℕ → ℕ → ℕ → Option (List ℕ × ℕ × List ℕ)
unfolding left_loop
put_back none piece cdt bytes cwp dlen left_len = do
  bytes' ← copy_loop dlen 0 cdt bytes
  some (bytes', dlen, cdt)
put_back (some v) piece cdt bytes cwp dlen left_len = do
  let sealed = do
    (status, used, d, cdt', bytes') ← v.en_crypt cdt bytes dlen piece
    some (d, bytes', cdt')
  (d, bytes', cdt') ← (if ltb 0 dlen then sealed else some (dlen, bytes, cdt))
  bytes'' ← left_loop left_len 0 d cwp bytes'
  some (bytes'', d + left_len, cdt')

-- The decrypted text: whether there is one, the slice, its length, the bytes left over, and `cwp`.
unfoldable pub plain_text :
    Option CryptImpl → ℕ → List ℕ → List ℕ → List ℕ → ℕ → Option (Bool × List ℕ × ℕ × ℕ × List ℕ)
plain_text none piece bytes cwp cdt dlen = do
  cdt' ← copy_loop dlen 0 bytes cdt
  some (true, cdt', dlen, 0, cwp)
plain_text (some v) piece bytes cwp cdt dlen = do
  cwp' ← copy_loop dlen 0 bytes cwp
  (ok, left_len, d, cwp'', cdt') ← v.de_crypt cwp' cdt dlen piece
  (d', cdt'') ← trim_left cdt' d 32
  some (ok, cdt'', d', left_len, cwp'')

-- `cwp` and `cdt` are the two buffers acquired, and `tbyte` the slice of `tocast`. (With an empty
-- packet the code returns before it acquires them.)
unfoldable pub parse :
    List ℕ → Option CryptImpl → ℕ → List ℕ → List ℕ → List ℕ → List ℕ → ℕ → Option Worked
unfolding strip cut put_back plain_text
parse alive v piece bytes cwp cdt tbyte src_len =
    let unchanged : Parsed = record {
      ca_size = 0;
      beat = false;
      bytes = bytes;
      tbyte = tbyte;
      src_len = src_len;
    } in
    let body = do
      (ok, cdt1, dlen1, left_len, cwp1) ← plain_text v piece bytes cwp cdt src_len
      let rest = do
        (cdt2, dlen2, beat) ← strip (suc dlen1) alive cdt1 dlen1 false
        (ca_size, cdt3, tbyte3, dlen3) ← cut cdt2 tbyte dlen2
        (bytes4, dlen4, cdt4) ← put_back v piece cdt3 bytes cwp1 dlen3 left_len
        let parsed : Parsed = record {
          ca_size = ca_size;
          beat = beat;
          bytes = bytes4;
          tbyte = tbyte3;
          src_len = dlen4;
        }
        let worked : Worked = record { parsed = parsed; cwp = cwp1; cdt = cdt4 }
        some worked
      if ok then rest else some (record { parsed = unchanged; cwp = cwp1; cdt = cdt1 })
    in if src_len == 0 then some (record { parsed = unchanged; cwp = cwp; cdt = cdt }) else body

-- `WebSocketParse.Parser`: the whole message is cast. `cbytes` is the slice of `tocast`.
unfoldable pub web_socket_parse : List ℕ → List ℕ → ℕ → Option Parsed
web_socket_parse bytes cbytes src_len = do
  cbytes' ← copy_loop src_len 0 bytes cbytes
  let parsed : Parsed = record {
    ca_size = src_len;
    beat = false;
    bytes = bytes;
    tbyte = cbytes';
    src_len = src_len;
  }
  some parsed
