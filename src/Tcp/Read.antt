-- ===== src/Tcp/Read.antt =====
-- new/server_tcp.go, `sendBeatAck` and `createReadroutine`: what the read routine of a connection does
-- with each answer of `Read`. A connection's `Write` is the argument `accepts`, as for the writers.
-- `none` is a panic, or a call that waits for ever.
pub mod Ends
pub mod Lost
pub mod Rounds
mod Tests
use gitee_fork_gateway.Prelude.{
  ℕ, zero, suc, ◌+◌, ◌-◌, Bool, true, false, ◌||◌, ◌&&◌, ◌==◌, Option, none, some, List, [], ◌∷◌,
  ◌++◌, String, length, take, drop, min, ltb, if◌then◌else◌, ◌>>=◌,
}
use gitee_fork_gateway.FifoQueue.{FifoQueue}
use gitee_fork_gateway.Entities.{Store, DataWrapper, acquire, slice, put_slice, release}
use gitee_fork_gateway.HandOut.{Lines, Parser, hand_out}
use gitee_fork_gateway.Tcp.{Conns, close, remove_tcp_conn}
use gitee_fork_gateway.Tcp.Come.{asks}

-- What the read routine changes: `src_len` is the number of bytes that wait in its buffer, and `asked`
-- are the requests of the HTTP service, in their order.
pub record Reader : Type 0 where
  pub store : Store
  pub lines : Lines
  pub conns : Conns
  pub sent : List (ℕ × List ℕ)
  pub src_len : ℕ
  pub asked : List String

-- What it only reads: the connection, its serial and the address of its peer, the buffer's entity
-- `hd`, `beat_ack`, the parser and the observer's `SDisConnect` (with no observer it changes nothing) and the
-- request that its `HDisConnect` makes for a serial, if any.
-- `others`, `now` and `later` are those of `hand_out`.
pub record Routine : Type 0 where
  pub con : ℕ
  pub serial : String
  pub remote_addr : ℕ → String
  pub hd : ℕ
  pub beat_ack : Option (List ℕ)
  pub parser : Parser
  pub h_dis_connect : String → Option String
  pub s_dis_connect : Store → Lines → Option (Store × Lines)
  pub accepts : ℕ → List ℕ → Bool
  pub others : FifoQueue DataWrapper → FifoQueue DataWrapper
  pub now : ℕ
  pub later : ℕ

unfoldable pub send_beat_ack : (ℕ → List ℕ → Bool) → Reader → ℕ → List ℕ → Reader
unfolding close
send_beat_ack accepts r con ack =
    if accepts con ack
    then record r { sent = r.sent ++ ((con, ack) ∷ []) }
    else record r { conns = close r.conns con }

-- `need_beat && beat_ack != nil`.
unfoldable pub answer_beat : Routine → Bool → Reader → Reader
unfolding send_beat_ack
answer_beat t need_beat r = elim t.beat_ack [
  | none ↦ r
  | some ack ↦ if need_beat then send_beat_ack t.accepts r t.con ack else r
]

-- One round of `for tmp_bool`, and whether there is another. The heartbeat's answer and the two
-- messages do not touch each other.
unfoldable pub parse_round : Routine → Reader → Option (Bool × Reader)
unfolding hand_out answer_beat
parse_round t r = do
  (a, l', s') ←
      hand_out t.others t.now t.parser t.later r.lines r.store t.hd r.src_len t.serial
        (t.remote_addr t.con) none
  let r' : Reader = record r { store = s'; lines = l'; src_len = a.src_len }
  some (ltb 0 a.c_size || a.beat, answer_beat t a.beat r')

-- How a loop with a bound on its rounds comes out: it ends; a round panics or waits for ever; or the
-- bound is reached, and the loop would go on.
pub data Course : Type 0 where
  ends : Reader → Course
  fails : Course
  goes_on : Reader → Course

-- `for tmp_bool`, with a bound on the rounds.
unfoldable pub parse_rounds : ℕ → Routine → Reader → Course
unfolding parse_round
parse_rounds zero t r = goes_on r
parse_rounds (suc rounds) t r = elim (parse_round t r) [
  | none ↦ fails
  | some (tmp_bool, r') ↦
      (let more = parse_rounds rounds t r' in if tmp_bool then more else ends r')
]

-- What the routine goes on with. With one round more than the buffer has bytes the bound is not
-- reached.
unfoldable pub result_of : Course → Option Reader
result_of (ends r) = some r
result_of fails = none
result_of (goes_on r) = none

-- `m_byte[src_len:]` out of range panics.
unfoldable pub fill : List ℕ → ℕ → List ℕ → Option (ℕ × List ℕ)
fill m_byte src_len received =
    let rcv_len = min (length received) (length m_byte - src_len) in
    if ltb (length m_byte) src_len
    then none
    else some
        (rcv_len, take src_len m_byte ++ take rcv_len received ++ drop (src_len + rcv_len) m_byte)

-- The connection is lost: out of the tables, closed, and the observer told. The routine waits for the
-- request of `HDisConnect`, which is taken to come back.
unfoldable pub lose : Routine → Reader → Option Reader
unfolding close remove_tcp_conn
lose t r = do
  (s', l') ← t.s_dis_connect r.store r.lines
  some (record r {
    conns = close (remove_tcp_conn t.remote_addr r.conns t.serial t.con) t.con;
    store = s';
    lines = l';
    asked = asks r.asked (t.h_dis_connect t.serial);
  })

-- One round of the outer loop, for what `Read` gives and whether it fails: does the loop go on? A
-- buffer with 1024 bytes is emptied first. `rounds` bounds the loop over the packets; a loop that
-- reaches the bound gives `none` as well.
unfoldable pub read_round : ℕ → Routine → List ℕ → Bool → Reader → Option (Bool × Reader)
unfolding parse_rounds result_of fill lose
read_round rounds t received failed r = do
  let src_len : ℕ = (if ltb r.src_len 1024 then r.src_len else 0)
  (m_byte, size) ← slice r.store t.hd
  (rcv_len, m_byte') ← fill m_byte src_len received
  s' ← put_slice r.store t.hd m_byte'
  let r' : Reader = record r { store = s'; src_len = src_len + rcv_len }
  let lost = (do r'' ← lose t r'; some (false, r''))
  let parsed = (do r'' ← result_of (parse_rounds rounds t r'); some (true, r''))
  (if failed then lost else if (rcv_len == 0) && ltb r'.src_len 64 then some (true, r') else parsed)

-- The outer loop, one round for each answer of `Read`: has the connection ended? If not, the loop
-- waits.
unfoldable pub read_loop : ℕ → Routine → List (List ℕ × Bool) → Reader → Option (Bool × Reader)
unfolding read_round
read_loop rounds t [] r = some (false, r)
read_loop rounds t ((received, failed) ∷ msgs) r = do
  (more, r') ← read_round rounds t received failed r
  let rest = read_loop rounds t msgs r'
  if more then rest else some (true, r')

-- The whole routine: its buffer is acquired first, and released at the end. (The `hd` of `t` is not
-- used.)
unfoldable pub create_readroutine :
    ℕ → Routine → List (List ℕ × Bool) → Reader → Option (Bool × Reader)
unfolding read_loop
create_readroutine rounds t msgs r = do
  (hd, s) ← acquire r.store 1 1024 t.now t.later
  (ended, r') ← read_loop rounds (record t { hd = hd }) msgs (record r { store = s; src_len = 0 })
  let over = (do s' ← release r'.store hd; some (true, record r' { store = s' }))
  (if ended then over else some (false, r'))
