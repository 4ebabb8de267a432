-- ===== src/Tcp/Read/Lost.antt =====
-- What is left when a connection's `Read` fails.
use gitee_fork_gateway.Prelude.{
  ℕ, ◌+◌, ◌-◌, ◌≤◌, ◌≡◌, refl, true, false, ◌==◌, none, some, List, ◌++◌, String, length, get_elem?,
  take, drop, min, ltb, str_eq_iff, if◌then◌else◌, >>=-some, arith,
}
use gitee_fork_gateway.SyncMap.{load-delete}
use gitee_fork_gateway.SyncMap
use gitee_fork_gateway.NetConMap
use gitee_fork_gateway.Brick.{store_mem}
use gitee_fork_gateway.Pool.{bytes, brick_of, write_brick}
use gitee_fork_gateway.Entities.{Store, slice, put_slice}
use gitee_fork_gateway.HandOut.{Lines}
use gitee_fork_gateway.Tcp.{Conns, close, remove_tcp_conn}
use gitee_fork_gateway.Tcp.Kick.{Became}
use gitee_fork_gateway.Tcp.Come.{asks}
use gitee_fork_gateway.Tcp.Read.{Reader, Routine, fill, lose, read_round}

put_slice-some :
    (s : Store) (h size : ℕ) (src content : List ℕ)
    → slice s h ≡ some (src, size)
    → (s' : Store) × (put_slice s h content ≡ some s')
unfolding slice put_slice bytes
put_slice-some s h size src content e =
    let (x, ex, r1) = >>=-some (get_elem? s.entities h) _ (src, size) e in
    let (m, em, r2) = >>=-some (brick_of s.pool x) _ (src, size) r1 in
    (record s { pool = write_brick s.pool (store_mem m x.index content) }, (rw (ex, em) refl))

-- The observer answers, whatever it is given.
abbrev pub Answers : Routine → Type 0
Answers t =
    (s : Store) (l : Lines) → (s' : Store) × (l' : Lines) × (t.s_dis_connect s l ≡ some (s', l'))

fill-some :
    (m_byte : List ℕ) (src_len : ℕ) (received : List ℕ)
    → src_len ≤ length m_byte
    → (n : ℕ) × (out : List ℕ) × (fill m_byte src_len received ≡ some (n, out))
unfolding fill
fill-some m_byte src_len received h =
    let inside : ltb (length m_byte) src_len ≡ false = ground arith in
    (
      min (length received) (length m_byte - src_len),
      take src_len m_byte
          ++ take (min (length received) (length m_byte - src_len)) received
          ++ drop (src_len + min (length received) (length m_byte - src_len)) m_byte,
      (rw inside refl),
    )

module _ (remote_addr : ℕ → String) (t : Conns) (serial : String) (con : ℕ) where
  shut : Conns
  shut = close (remove_tcp_conn remote_addr t serial con) con

  shut-Became : t.tcp_client_cons.allow_dup ≡ false → Became t shut serial none (λ c. c == con)
  unfolding shut close remove_tcp_conn NetConMap.delete
  shut-Became single = record {
    single = ground arith;
    entries = λ s. ground (arith, load-delete serial s t.tcp_client_cons.deque);
    flags = λ c. ground arith;
  }

  shut-load : SyncMap.load serial shut.last_beat_send ≡ none
  unfolding shut close remove_tcp_conn
  shut-load = ground (arith, load-delete serial serial t.last_beat_send, str_eq_iff serial serial)

-- Where the buffer holds the bytes that wait in it and the observer answers, a failed `Read` ends the
-- loop, whatever it has received: the connection is closed and no other, its serial has no connection
-- and no time of a heartbeat any more, other serials keep theirs, nothing is sent, and
-- the HTTP service is asked what the observer asks.
pub read_round-Became :
    (rounds : ℕ) (t : Routine) (received : List ℕ) (r : Reader) (m_byte : List ℕ) (size : ℕ)
    → r.conns.tcp_client_cons.allow_dup ≡ false
    → slice r.store t.hd ≡ some (m_byte, size)
    → r.src_len ≤ length m_byte
    → Answers t
    → (r' : Reader) × (read_round rounds t received true r ≡ some (false, r'))
      × Became r.conns r'.conns t.serial none (λ c. c == t.con)
      × (SyncMap.load t.serial r'.conns.last_beat_send ≡ none)
      × (r'.sent ≡ r.sent)
      × (r'.asked ≡ asks r.asked (t.h_dis_connect t.serial))
unfolding read_round lose shut
read_round-Became rounds t received r m_byte size single e held answers =
    let src_len : ℕ = (if ltb r.src_len 1024 then r.src_len else 0) in
    let fits : src_len ≤ length m_byte = ground arith in
    let (n, out, e1) = fill-some m_byte src_len received fits in
    let (s1, e2) = put_slice-some r.store t.hd size m_byte out e in
    let (s2, l2, e3) = answers s1 r.lines in
    let conns' = shut t.remote_addr r.conns t.serial t.con in
    let left : Reader = record {
      conns = conns';
      store = s2;
      lines = l2;
      sent = r.sent;
      src_len = src_len + n;
      asked = asks r.asked (t.h_dis_connect t.serial);
    } in
    let gone = shut-Became t.remote_addr r.conns t.serial t.con single in
    let cleared = shut-load t.remote_addr r.conns t.serial t.con in
    (left, (rw (e, e1, e2, e3) refl), gone, cleared, refl, refl)
