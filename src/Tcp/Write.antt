-- ===== src/Tcp/Write.antt =====
-- new/server_tcp.go, `writeData` to `writeDataEachConRoutine`: what the write routines of a TCP server
-- do with one wrapper. A connection's `Write` is an argument, `accepts`: does it take the bytes? What
-- was taken is kept in `sent`. `none` is a panic or a call that waits for ever.
pub mod Claims
pub mod Reach
pub mod Sent
pub mod Sealed
mod Tests
use gitee_fork_gateway.Prelude.{
  ℕ, ◌+◌, ◌*◌, Bool, true, false, not, ◌||◌, Option, none, some, List, [], ◌∷◌, ◌++◌, String,
  length, take, ltb, if◌then◌else◌, ◌>>=◌,
}
use gitee_fork_gateway.SyncMap
use gitee_fork_gateway.NetConMap.{Value, conn, table}
use gitee_fork_gateway.NetConMap
use gitee_fork_gateway.FifoQueue.{FifoQueue, get, single_get}
use gitee_fork_gateway.Bytes.{prefix}
use gitee_fork_gateway.Parser.{CryptImpl}
use gitee_fork_gateway.Entities.{Store, DataWrapper, acquire, slice, put_slice, release, free}
use gitee_fork_gateway.Dispatch.{add_to_queue}
use gitee_fork_gateway.Tcp.{Conns, close, remove_montitor}

-- What the write routines change.
pub record Io : Type 0 where
  pub store : Store
  pub conns : Conns
  pub sent : List (ℕ × List ℕ)

-- The fields of the server that they only read, and the time: `now` and `later` are the readings of
-- the clock.
pub record Writer : Type 0 where
  pub crypt_inf : Option CryptImpl
  pub time_out_sec : ℕ
  pub need_feed_back : Bool
  pub write_conrution_size : ℕ
  pub accepts : ℕ → List ℕ → Bool
  pub now : ℕ
  pub later : ℕ

-- `con.Write`, and `con.Close` where it fails.
unfoldable pub write_con : Writer → Io → ℕ → List ℕ → Bool × Io
unfolding close
write_con w io con text =
    if w.accepts con text
    then (true, record io { sent = io.sent ++ ((con, text) ∷ []) })
    else (false, record io { conns = close io.conns con })

-- The wrapper's bytes go to one connection, encrypted where the server encrypts: is it written, did
-- `Write` fail, and the new state. `EncryPt` may write to the wrapper's own slice.
unfoldable pub send_data : Writer → Io → DataWrapper → ℕ → Option ((Bool × Bool) × Io)
unfolding prefix write_con
send_data w io d con = elim w.crypt_inf [
  | none ↦ do
    (src, size) ← slice io.store d.data_store
    text ← prefix src d.data_length
    let (ok, io') = write_con w io con text
    some ((ok, not ok), io')
  | some v ↦ do
    (src, size) ← slice io.store d.data_store
    (tmp, s1) ← acquire io.store 1 (4 * d.data_length) w.now w.later
    (dst, dlen) ← slice s1 tmp
    (status, used, dsize, src', dst') ← v.en_crypt src dst d.data_length dlen
    s2 ← put_slice s1 d.data_store src'
    s3 ← put_slice s2 tmp dst'
    text ← (if status then prefix dst' dsize else some [])
    s4 ← free s3 tmp
    let io4 : Io = record io { store = s4 }
    let (ok, io') = write_con w io4 con text
    some (if status then ((ok, not ok), io') else ((false, false), io4))
]

-- The copy to the monitor of the serial.
unfoldable pub send_monitor : Writer → Io → DataWrapper → Option Io
unfolding prefix
send_monitor w io d = elim (SyncMap.load d.target_con_serial io.conns.monitor_cons) [
  | none ↦ some io
  | some m ↦ do
    (src, size) ← slice io.store d.data_store
    text ← prefix src d.data_length
    some (
        if w.accepts m text
        then record io { sent = io.sent ++ ((m, text) ∷ []) }
        else record io { conns = remove_montitor io.conns d.target_con_serial })
]

-- `time.Now().Unix()-data.CreateUnixSec > t.TimeOutSec`.
abbrev pub timed_out : Writer → DataWrapper → Bool
timed_out w d = ltb (d.create_unix_sec + w.time_out_sec) w.now

-- The visitor of `writeData`: `ret` and the state, or a panic.
unfoldable pub visit_con :
    Writer → DataWrapper → String → Value ℕ → Option (Bool × Io) → Option (Bool × Io) × Bool
unfolding send_data
visit_con w d key (table mp) st = (st, true)
visit_con w d key (conn con) st =
    let st' = do
      (ret, io) ← st
      let sending = do ((ok, failed), io') ← send_data w io d con; some (ret || ok, io')
      if io.conns.closed con then some (ret, io) else sending
    in (st', true)

-- The log line reads `src[0:data.DataLength]` first.
unfoldable pub write_data : Writer → Io → DataWrapper → Option (Bool × Io)
unfolding visit_con send_monitor
write_data w io d =
    let body = do
      (src, size) ← slice io.store d.data_store
      text ← prefix src d.data_length
      (ret, io1) ←
          NetConMap.range io.conns.tcp_client_cons d.target_con_serial (visit_con w d)
            (some (false, io))
      let watched = do io2 ← send_monitor w io1 d; some (true, io2)
      if ret then watched else some (false, io1)
    in if timed_out w d then some (true, io) else body

-- `ret`, and whether there is an error.
unfoldable pub write_datato_con : Writer → Io → DataWrapper → ℕ → Option ((Bool × Bool) × Io)
unfolding send_data send_monitor
write_datato_con w io d con =
    let body = do
      (src, size) ← slice io.store d.data_store
      text ← prefix src d.data_length
      ((ret, failed), io1) ← send_data w io d con
      let watched = do io2 ← send_monitor w io1 d; some ((true, failed), io2)
      if ret then watched else some ((false, failed), io1)
    in if timed_out w d then some ((true, false), io) else body

-- After a write: the wrapper's entity is released, or the wrapper goes back to the queue.
unfoldable pub settle :
    (FifoQueue DataWrapper → FifoQueue DataWrapper)
    → Writer
    → DataWrapper
    → Bool
    → Io
    → FifoQueue DataWrapper
    → Option (Io × FifoQueue DataWrapper)
unfolding add_to_queue
settle others w d bl io q =
    let released = (do s ← release io.store d.data_store; some (record io { store = s }, q)) in
    let again = (do
      q' ← add_to_queue 2 others w.now w.write_conrution_size q d.target_con_serial d
      some (io, q')) in
    if bl || not w.need_feed_back then released else again

-- One round of `writeDataSharePool`.
unfoldable pub write_data_share_pool :
    (FifoQueue DataWrapper → FifoQueue DataWrapper)
    → Writer
    → Io
    → FifoQueue DataWrapper
    → Option (Io × FifoQueue DataWrapper)
unfolding write_data settle
write_data_share_pool others w io q = do
  (popped, q1) ← single_get w.now q
  elim popped [
    | none ↦ some (io, q1)
    | some d ↦ do (bl, io1) ← write_data w io d; settle others w d bl io1 q1
  ]

-- One round of `writeDataEachConRoutine`: does the routine go on?
unfoldable pub write_data_each_con_routine :
    (FifoQueue DataWrapper → FifoQueue DataWrapper)
    → Writer
    → String
    → ℕ
    → Io
    → FifoQueue DataWrapper
    → Option (Bool × Io × FifoQueue DataWrapper)
unfolding write_datato_con settle
write_data_each_con_routine others w serial con io q =
    let round = do
      (popped, q1) ← get w.now q serial
      elim popped [
        | none ↦ some (true, io, q1)
        | some d ↦
            (let sent_off = do
              ((bl, failed), io1) ← write_datato_con w io d con
              (io2, q2) ← settle others w d bl io1 q1
              some (not failed, io2, q2)
              in if ltb d.data_length 1 then some (true, io, q1) else sent_off)
      ]
    in if io.conns.closed con then some (false, io, q) else round
