-- ===== src/Ack.antt =====
-- new/main.go, `AckEntity.AckSerial`: which new connection is a device and which is a monitor. The
-- connection's `Read` is an argument, and so is what the acquired buffer `tmp` holds. `none` is a
-- panic.
pub mod Connect
pub mod Pooled
pub mod Serial
mod Tests
use gitee_fork_gateway.Prelude.{
  ℕ, zero, suc, ◌-◌, Bool, true, false, ◌&&◌, ◌||◌, Option, none, some, List, [], length, get_elem?,
  take, drop, ltb, ◌==◌, if◌then◌else◌, ◌>>=◌,
}
use gitee_fork_gateway.Bytes.{copy_loop}
use gitee_fork_gateway.Parser.{CryptImpl}

-- A space or a zero byte.
abbrev pub blank : ℕ → Bool
blank b = (b == 32) || (b == 0)

-- `for size > 8`, with a bound on the rounds.
unfoldable pub trim_right : ℕ → List ℕ → ℕ → Option ℕ
trim_right zero buf size = some size
trim_right (suc rounds) buf size =
    let turn = do
      b ← get_elem? buf (size - 1)
      let rest = trim_right rounds buf (size - 1)
      if blank b then rest else some size
    in if ltb 8 size then turn else some size

-- The answer for the first three bytes: 77, 79, 78 is `MON`, and 84, 84, 71 is `TTG`.
unfoldable pub classify : List ℕ → ℕ → ℕ → ℕ → ℕ → Bool × List ℕ × ℕ
classify buf size d0 d1 d2 =
    if (d0 == 77) && (d1 == 79) && (d2 == 78)
    then (true, take (size - 8) (drop 8 buf), 1)
    else if (d0 == 84) && (d1 == 84) && (d2 == 71)
    then (true, take size buf, 0)
    else (false, [], 0)

-- From the guard on; each round takes one byte, so `size` rounds are enough.
unfoldable pub ack_text : List ℕ → ℕ → Option (Bool × List ℕ × ℕ)
unfolding trim_right classify
ack_text buf size =
    let body = do
      size' ← trim_right size buf size
      d0 ← get_elem? buf 0
      d1 ← get_elem? buf 1
      d2 ← get_elem? buf 2
      some (classify buf size' d0 d1 d2)
    in if ltb size 8 then some (false, [], 0) else body

-- `read` is the buffer and the number of bytes that `Read` leaves, or `none` for an error. The
-- serial, and whether it is a monitor's (1) or a device's (0).
unfoldable pub ack_serial :
    Option CryptImpl → Option (List ℕ × ℕ) → List ℕ → Option (Bool × List ℕ × ℕ)
unfolding ack_text
ack_serial v none tmp = some (false, [], 0)
ack_serial none (some (buf, size)) tmp = ack_text buf size
ack_serial (some v) (some (buf, size)) tmp = do
  (status, k, d, buf', tmp') ← v.de_crypt buf tmp size (length tmp)
  let open_text = do buf'' ← copy_loop d 0 tmp' buf'; ack_text buf'' d
  if status then open_text else some (false, [], 0)
