-- ===== src/Ack/Pooled.antt =====
-- new/main.go, `AckEntity.AckSerial` with the entities that it works on. The connection's `Read` is an
-- argument: the buffer's slice as it leaves it and the number of bytes, or `none` for an error. `none`
-- is a panic.
use gitee_fork_gateway.Prelude.{ℕ, Bool, false, Option, none, some, List, [], if◌then◌else◌, ◌>>=◌}
use gitee_fork_gateway.Bytes.{copy_loop}
use gitee_fork_gateway.Entities.{Store, acquire, slice, put_slice, free}
use gitee_fork_gateway.Parser.{CryptImpl}
use gitee_fork_gateway.Ack.{ack_text}

-- `if v != nil`, with the rest; `tmp` is freed at the end, on both ways.
unfoldable pub open_text :
    CryptImpl → List ℕ → ℕ → ℕ → ℕ → Store → ℕ → Option ((Bool × List ℕ × ℕ) × Store)
open_text v data' size now later s buf = do
  (bytes0, piece) ← slice s buf
  (tmp, s1) ← acquire s 1 piece now later
  (bytes, p0) ← slice s1 tmp
  (status, used, d, data1, bytes1) ← v.de_crypt data' bytes size p0
  s2 ← put_slice s1 buf data1
  s3 ← put_slice s2 tmp bytes1
  let opened = do
    data2 ← copy_loop d 0 bytes1 data1
    s4 ← put_slice s3 buf data2
    answer ← ack_text data2 d
    s5 ← free s4 tmp
    some (answer, s5)
  let refused = do s4 ← free s3 tmp; some ((false, [], 0), s4)
  if status then opened else refused

unfoldable pub ack_serial_from :
    Option CryptImpl → List ℕ → ℕ → ℕ → ℕ → Store → ℕ → Option ((Bool × List ℕ × ℕ) × Store)
unfolding open_text
ack_serial_from none data' size now later s buf = do answer ← ack_text data' size; some (answer, s)
ack_serial_from (some v) data' size now later s buf = open_text v data' size now later s buf

unfoldable pub ack_serial_read :
    Option CryptImpl
    → Option (List ℕ × ℕ)
    → ℕ
    → ℕ
    → Store
    → ℕ
    → Option ((Bool × List ℕ × ℕ) × Store)
unfolding ack_serial_from
ack_serial_read v none now later s buf = some ((false, [], 0), s)
ack_serial_read v (some (data', size)) now later s buf = do
  s0 ← put_slice s buf data'
  ack_serial_from v data' size now later s0 buf
