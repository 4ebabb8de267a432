-- ===== src/Codec.antt =====
-- new/mix_base64.go: base64 with the order of the bytes changed within each group of four. `none`
-- is a panic.
pub mod Mix
pub mod Base64
mod Tests
use gitee_fork_gateway.Prelude.{
  ℕ, zero, suc, ◌+◌, ◌-◌, ◌*◌, ◌/◌, Option, none, some, List, ◌++◌, length, take, drop, get_elem?,
  ltb, if◌then◌else◌, ◌>>=◌,
}
use gitee_fork_gateway.Bytes.{store}
use gitee_fork_gateway.Codec.Base64.{base64_encode, base64_decode}

-- `swap(&src[i], &src[j])`.
unfoldable pub swap : List ℕ → ℕ → ℕ → Option (List ℕ)
swap src i j = do a ← get_elem? src i; b ← get_elem? src j; src' ← store src i b; store src' j a

-- `for i < length-3`, with a bound on the rounds.
unfoldable pub mix_loop : ℕ → ℕ → List ℕ → ℕ → Option (List ℕ)
unfolding swap
mix_loop zero i src length = some src
mix_loop (suc rounds) i src length =
    let turn = do
      src1 ← swap src (i + 2) (i + 3)
      src2 ← swap src1 i (i + 2)
      mix_loop rounds (i + 4) src2 length
    in if ltb (i + 3) length then turn else some src

-- A round goes on by four, so `length` rounds are enough.
unfoldable pub mix_four : List ℕ → ℕ → Option (List ℕ)
unfolding mix_loop
mix_four src length = mix_loop length 0 src length

unfoldable pub de_mix_loop : ℕ → ℕ → List ℕ → ℕ → Option (List ℕ)
unfolding swap
de_mix_loop zero i src length = some src
de_mix_loop (suc rounds) i src length =
    let turn = do
      src1 ← swap src i (i + 2)
      src2 ← swap src1 (i + 2) (i + 3)
      de_mix_loop rounds (i + 4) src2 length
    in if ltb (i + 3) length then turn else some src

unfoldable pub de_mix_four : List ℕ → ℕ → Option (List ℕ)
unfolding de_mix_loop
de_mix_four src length = de_mix_loop length 0 src length

-- What `Encode` and `Decode` write to the front of a slice; too short a slice panics.
unfoldable pub write_front : List ℕ → List ℕ → Option (List ℕ)
write_front text dst =
    if ltb (length dst) (length text) then none else some (text ++ drop (length text) dst)

-- The length of the text, and `dst`; `src` stays as it was.
unfoldable pub en_crypt : List ℕ → List ℕ → ℕ → Option (ℕ × List ℕ)
unfolding write_front
en_crypt src dst n =
    let body = do
      dst1 ← write_front (base64_encode (take n src)) dst
      dst2 ← mix_four dst1 (n / 3 * 4)
      some (n / 3 * 4, dst2)
    in if ltb (length src) n then none else body

-- The number of bytes that `Decode` writes, and the two slices.
unfoldable pub de_crypt : List ℕ → List ℕ → ℕ → Option (ℕ × List ℕ × List ℕ)
unfolding write_front
de_crypt src dst n =
    let body = do
      src1 ← de_mix_four src n
      dst1 ← write_front (base64_decode (take n src1)) dst
      some (length (base64_decode (take n src1)), src1, dst1)
    in if ltb (length src) n then none else body
