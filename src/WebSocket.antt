-- ===== src/WebSocket.antt =====
-- new/server_websocket.go: the WebSocket server. A connection is named by a number. What a
-- connection's `Receive` gives is an argument; what was handed to `Send` is kept in `sent`. `none` is a
-- panic or a call that waits for ever.
pub mod Handle
pub mod Register
pub mod Receive
mod Tests
use gitee_fork_gateway.Prelude.{
  ℕ, zero, suc, ◌+◌, Bool, true, false, not, ◌&&◌, Option, none, some, List, [], ◌∷◌, ◌++◌, String,
  str_eq, length, get_elem?, take, ltb, ◌==◌, if◌then◌else◌, ◌>>=◌,
}
use gitee_fork_gateway.NetConMap.{NetConMap, Value, conn, table}
use gitee_fork_gateway.NetConMap
use gitee_fork_gateway.Bytes.{store, prefix, copy_loop}
use gitee_fork_gateway.FifoQueue.{FifoQueue}
use gitee_fork_gateway.Entities.{Store, DataWrapper, acquire, slice, put_slice, release, free}
use gitee_fork_gateway.HandOut.{Lines, Parser, hand_out}

-- The server: its table `Map`, the connections that are closed, and what was sent.
pub record Sockets : Type 0 where
  pub map : NetConMap ℕ
  pub closed : ℕ → Bool
  pub sent : List (ℕ × List ℕ)
  pub entities : Store

unfoldable pub close : Sockets → ℕ → Sockets
close w ws = record w { closed = λ c. if c == ws then true else w.closed c }

-- `wread`: `none` is -1. A message is copied to the entity, with a zero behind it.
unfoldable pub wread : Store → ℕ → Option (List ℕ) → Option (Option ℕ × Store)
wread s entity none = some (none, s)
wread s entity (some tmp) = do
  (bytes, size) ← slice s entity
  bytes1 ← copy_loop (length tmp) 0 tmp bytes
  bytes2 ← store bytes1 (length tmp) 0
  s' ← put_slice s entity bytes2
  some (some (length tmp), s')

-- `wwrite`: the first bytes of the entity. No caller looks at the error of `Send`.
unfoldable pub wwrite : Sockets → ℕ → ℕ → ℕ → Option Sockets
wwrite w ws entity size = do
  (bytes, n) ← slice w.entities entity
  text ← prefix bytes size
  some (record w { sent = w.sent ++ ((ws, text) ∷ []) })

-- `time.Now().Unix()-data.CreateUnixSec < w.TimeOutSec`.
abbrev pub in_time : ℕ → ℕ → DataWrapper → Bool
in_time time_out_sec now d = ltb now (d.create_unix_sec + time_out_sec)

-- The visitor of `createWriteConroutine`.
unfoldable pub visit_socket :
    ℕ → ℕ → DataWrapper → String → Value ℕ → Option Sockets → Option Sockets × Bool
visit_socket time_out_sec now d key (table mp) st = (st, true)
visit_socket time_out_sec now d key (conn ws) st =
    let sending = (do w ← st; wwrite w ws d.data_store d.data_length) in
    (if in_time time_out_sec now d then sending else st, true)

-- Whom the wrapper goes to: all connections of the serial, or the one of `SelfId`.
unfoldable pub send_round : ℕ → ℕ → Sockets → DataWrapper → Option Sockets
unfolding wwrite visit_socket
send_round time_out_sec now w d =
    if str_eq d.self_id ""
    then NetConMap.range w.map d.target_con_serial (visit_socket time_out_sec now d) (some w)
    else (let (found, map') = NetConMap.load w.map d.target_con_serial d.self_id in
        let w0 : Sockets = record w { map = map' } in
        elim found [
          | none ↦ some w0
          | some v ↦ (visit_socket time_out_sec now d d.self_id v (some w0)).0
        ])

-- One round of `createWriteConroutine` with the wrapper that it took from the channel.
unfoldable pub write_round : ℕ → ℕ → Sockets → DataWrapper → Option Sockets
unfolding send_round
write_round time_out_sec now w d = do
  w1 ← send_round time_out_sec now w d
  s ← release w1.entities d.data_store
  some (record w1 { entities = s })

-- `WEB_ACCEPT`.
abbrev pub web_accept : List ℕ
web_accept = 87 ∷ 69 ∷ 66 ∷ 95 ∷ 65 ∷ 67 ∷ 67 ∷ 69 ∷ 80 ∷ 84 ∷ []

-- `bytes[0] = 'W'` to `bytes[9] = 'T'`.
unfoldable pub store_all : ℕ → List ℕ → List ℕ → Option (List ℕ)
store_all i [] bytes = some bytes
store_all i (v ∷ vs) bytes = do bytes' ← store bytes i v; store_all (i + 1) vs bytes'

-- What the first message of a connection asks for.
pub data Hello : Type 0 where
  refused : Hello
  device : List ℕ → Hello

-- A first message of five bytes at least: does it begin with `TTG`?
unfoldable pub greet : Sockets → ℕ → ℕ → ℕ → Option (Hello × Sockets)
unfolding wwrite store_all
greet w ws entity n = do
  (bytes, size) ← slice w.entities entity
  d0 ← get_elem? bytes 0
  d1 ← get_elem? bytes 1
  d2 ← get_elem? bytes 2
  let accepted = (do
    serial ← prefix bytes n
    bytes1 ← store_all 0 web_accept bytes
    s2 ← put_slice w.entities entity bytes1
    w2 ← wwrite (record w { entities = s2 }) ws entity 10
    some (device serial, w2))
  (if (d0 == 84) && (d1 == 84) && (d2 == 71) then accepted else some (refused, w))

-- From the first `wread` on to the accept. Messages that tell of a refusal are left out of `sent`.
unfoldable pub hello : Sockets → ℕ → ℕ → Option (List ℕ) → Option (Hello × Sockets)
unfolding wread greet
hello w ws entity msg = do
  (received, s1) ← wread w.entities entity msg
  let w1 : Sockets = record w { entities = s1 }
  elim received [
    | none ↦ some (refused, w1)
    | some n ↦ if ltb n 5 then some (refused, w1) else greet w1 ws entity n
  ]

module _ (others_map : NetConMap ℕ → NetConMap ℕ) where
  -- The registration: a connection that has the serial is closed, and its entry replaced.
  unfoldable pub register : Sockets → String → String → ℕ → Option Sockets
  unfolding close
  register w serial req_addr ws = do
    ((inter, ok), map1) ← NetConMap.load_or_store others_map w.map serial req_addr ws
    let w1 : Sockets = record w { map = map1 }
    let w2 : Sockets = (elim inter [ conn mws ↦ close w1 mws | table mp ↦ w1 ])
    let replaced = (do
      map2 ← NetConMap.store others_map w2.map serial req_addr ws
      some (record w2 { map = map2 }))
    if ok then replaced else some w1

-- The end of a handler: `Delete`. The deferred `Close` comes after it.
unfoldable pub leave : Sockets → String → String → Sockets
leave w serial req_addr = record w { map = NetConMap.delete w.map serial req_addr }

-- One round of the loop of `WebSockHandle`: `none` for the answer is the end of the connection.
unfoldable pub read_round :
    (FifoQueue DataWrapper → FifoQueue DataWrapper)
    → Parser
    → ℕ
    → ℕ
    → Lines
    → Store
    → ℕ
    → String
    → String
    → Option (List ℕ)
    → Option (Bool × Lines × Store)
unfolding wread hand_out
read_round others parser now later l s entity serial req_addr msg = do
  (received, s1) ← wread s entity msg
  elim received [
    | none ↦ some (false, l, s1)
    | some n ↦ (do
      (a, l', s2) ← hand_out others now parser later l s1 entity n serial req_addr none
      some (true, l', s2))
  ]
