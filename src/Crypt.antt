-- ===== src/Crypt.antt =====
-- `CryptEntity` of new/main.go: the codec behind the interface `CryptImpl`. Both calls return the two
-- slices besides their results. `none` is a panic.
pub mod RoundTrip
pub mod Cut
mod Tests
use gitee_fork_gateway.Prelude.{
  ℕ, zero, suc, ◌+◌, ◌-◌, ◌*◌, ◌/◌, ◌%◌, Bool, true, false, Option, none, some, List, get_elem?,
  ltb, if◌then◌else◌, ◌>>=◌,
}
use gitee_fork_gateway.Bytes.{store}
use gitee_fork_gateway.Codec
use gitee_fork_gateway.Parser.{CryptImpl}

-- `for i := i; i < k; i++ { src[src_len+i] = 32 }`, with the rounds left.
unfoldable pub pad_loop : ℕ → ℕ → ℕ → List ℕ → Option (List ℕ)
pad_loop zero i src_len src = some src
pad_loop (suc rounds) i src_len src = do
  src' ← store src (src_len + i) 32
  pad_loop rounds (i + 1) src_len src'

unfoldable pub en_crypt : List ℕ → List ℕ → ℕ → ℕ → Option (Bool × ℕ × ℕ × List ℕ × List ℕ)
unfolding pad_loop
en_crypt src dst src_len dst_buff_len = do
  let k = if ltb 0 (src_len % 3) then 3 - src_len % 3 else 0
  src1 ← pad_loop k 0 src_len src
  let sealed = do
    (dlen, dst1) ← Codec.en_crypt src1 dst (src_len + k)
    some (true, src_len + k, dlen, src1, dst1)
  if ltb dst_buff_len ((src_len + k) * 4 / 3) then some (false, 0, 0, src1, dst) else sealed

-- `for i := i; i < k; i++ { src[i] = src[i+src_len] }`, with the rounds left.
unfoldable pub front_loop : ℕ → ℕ → ℕ → List ℕ → Option (List ℕ)
front_loop zero i src_len src = some src
front_loop (suc rounds) i src_len src = do
  v ← get_elem? src (i + src_len)
  src' ← store src i v
  front_loop rounds (i + 1) src_len src'

unfoldable pub de_crypt : List ℕ → List ℕ → ℕ → ℕ → Option (Bool × ℕ × ℕ × List ℕ × List ℕ)
unfolding front_loop
de_crypt src dst src_len dst_buff_len =
    let opened = do
      (dlen, src1, dst1) ← Codec.de_crypt src dst (src_len - src_len % 4)
      src2 ← front_loop (src_len % 4) 0 (src_len - src_len % 4) src1
      some (true, src_len % 4, dlen, src2, dst1)
    in if ltb dst_buff_len (src_len * 3 / 4) then some (false, 0, 0, src, dst) else opened

unfoldable pub crypt_entity : CryptImpl
unfolding en_crypt de_crypt
crypt_entity = record { en_crypt = en_crypt; de_crypt = de_crypt }
