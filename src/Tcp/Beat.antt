-- ===== src/Tcp/Beat.antt =====
-- new/server_tcp.go, `createBeatSendHandle`: the heartbeats that a TCP server sends by itself. What
-- was handed to a connection's `Write` is kept in `sent`; the code ignores its error. `none` is a
-- panic.
pub mod Due
mod Tests
use gitee_fork_gateway.Prelude.{
  ℕ, ◌+◌, ◌*◌, Bool, true, false, Option, none, some, List, [], ◌∷◌, ◌++◌, String, length,
  replicate, leb, if◌then◌else◌, ◌>>=◌,
}
use gitee_fork_gateway.SyncMap.{SyncMap}
use gitee_fork_gateway.SyncMap
use gitee_fork_gateway.NetConMap.{NetConMap, Value, conn, table}
use gitee_fork_gateway.NetConMap
use gitee_fork_gateway.Bytes.{prefix}
use gitee_fork_gateway.Parser.{CryptImpl}
use gitee_fork_gateway.Tcp.{Conns}

-- The heartbeat as it is sent. `size` bytes of an empty buffer are overwritten.
unfoldable pub beat_text : Option CryptImpl → List ℕ → Option (List ℕ)
unfolding prefix
beat_text none beat = some beat
beat_text (some v) beat = do
  let size = length beat
  (ok, used, dsize, buf0, buf1) ←
      v.en_crypt (beat ++ replicate (7 * size) 0) (replicate (8 * size) 0) size (8 * size)
  if ok then prefix buf1 dsize else none

-- The visitor of `Range`.
unfoldable pub send_beat : List ℕ → String → Value ℕ → List (ℕ × List ℕ) → List (ℕ × List ℕ) × Bool
send_beat beat mkey (conn con) sent = (sent ++ ((con, beat) ∷ []), true)
send_beat beat mkey (table mp) sent = (sent, true)

-- `for k, v := range t.LastBeatSend`.
unfoldable pub beat_loop :
    NetConMap ℕ → List ℕ → ℕ → ℕ → SyncMap ℕ → List (ℕ × List ℕ) → SyncMap ℕ × List (ℕ × List ℕ)
unfolding send_beat
beat_loop cons beat freq now [] sent = ([], sent)
beat_loop cons beat freq now ((k, v) ∷ times) sent =
    let due = leb (v + freq) now in
    let sent' = (if due then NetConMap.range cons k (send_beat beat) sent else sent) in
    let (times', out) = beat_loop cons beat freq now times sent' in
    ((k, (if due then now else v)) ∷ times', out)

-- One round of the sender.
unfoldable pub beat_round : List ℕ → ℕ → ℕ → Conns → List (ℕ × List ℕ) → Conns × List (ℕ × List ℕ)
unfolding beat_loop
beat_round beat freq now t sent =
    let (times, out) = beat_loop t.tcp_client_cons beat freq now t.last_beat_send sent in
    (record t { last_beat_send = times }, out)
