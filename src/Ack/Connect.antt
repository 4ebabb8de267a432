-- ===== src/Ack/Connect.antt =====
-- new/main.go, `AckEntity.AckConnect`: the greeting of a new connection. The connection's `Write` is
-- the argument `accepts`. `none` is a panic.
mod Tests
use gitee_fork_gateway.Prelude.{
  ℕ, Bool, true, false, Option, none, some, List, [], ◌∷◌, length, if◌then◌else◌, ◌>>=◌,
}
use gitee_fork_gateway.Bytes.{copy_loop, prefix}
use gitee_fork_gateway.Entities.{Store, acquire, slice, put_slice, free}
use gitee_fork_gateway.Parser.{CryptImpl}

-- `WEB_ACCEPT`.
abbrev pub web_accept_text : List ℕ
web_accept_text = 87 ∷ 69 ∷ 66 ∷ 95 ∷ 65 ∷ 67 ∷ 67 ∷ 69 ∷ 80 ∷ 84 ∷ []

-- Is the error nil, and what was handed to `Write`, if anything.
unfoldable pub ack_connect :
    Option CryptImpl
    → (List ℕ → Bool)
    → ℕ
    → ℕ
    → Store
    → ℕ
    → Option ((Bool × Option (List ℕ)) × Store)
ack_connect none accepts now later s buf = some ((accepts web_accept_text, some web_accept_text), s)
ack_connect (some v) accepts now later s buf = do
  (data', piece) ← slice s buf
  data1 ← copy_loop (length web_accept_text) 0 web_accept_text data'
  s1 ← put_slice s buf data1
  (tmp, s2) ← acquire s1 1 piece now later
  (bytes, p0) ← slice s2 tmp
  (status, used, d, data2, bytes1) ← v.en_crypt data1 bytes (length web_accept_text) p0
  s3 ← put_slice s2 buf data2
  s4 ← put_slice s3 tmp bytes1
  text ← (if status then prefix bytes1 d else some [])
  s5 ← free s4 tmp
  some (if status then ((accepts text, some text), s5) else ((false, none), s5))
