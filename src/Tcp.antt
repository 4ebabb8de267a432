-- ===== src/Tcp.antt =====
-- new/server_tcp.go: the tables of a TCP server's connections, and the number of routines that
-- authenticate new ones. A connection is named by a number; `remote_addr` gives the text of its
-- peer's address. `none` is a call that waits for ever.
pub mod Kick
pub mod Beat
pub mod Come
pub mod Read
pub mod Scale
pub mod Write
mod Tests
use gitee_fork_gateway.Prelude.{
  ℕ, zero, suc, ◌+◌, ◌-◌, ◌/◌, ◌<◌, Bool, true, false, ◌&&◌, Option, none, some, List, [], ◌∷◌,
  String, set, ltb, ◌==◌, if◌then◌else◌, ◌>>=◌,
}
use gitee_fork_gateway.SyncMap.{SyncMap}
use gitee_fork_gateway.SyncMap
use gitee_fork_gateway.NetConMap.{NetConMap, Value, conn, table}
use gitee_fork_gateway.NetConMap

-- The part of `TcpServerEntity` that the connections' tables are, and the `closed` flag of each
-- `WrapConn`.
pub record Conns : Type 0 where
  pub closed : ℕ → Bool
  pub last_beat_send : SyncMap ℕ
  pub monitor_cons : SyncMap ℕ
  pub tcp_client_cons : NetConMap ℕ

unfoldable pub close : Conns → ℕ → Conns
close t con = record t { closed = λ c. if c == con then true else t.closed c }

abbrev pub is_closed : Conns → ℕ → Bool
is_closed t con = t.closed con

-- `v.(*WrapConn)` and, if it is one, `Close`.
unfoldable pub close_value : Conns → Value ℕ → Conns
unfolding close
close_value t (conn c) = close t c
close_value t (table mp) = t

unfoldable pub serial_is_activity : Conns → String → Bool
serial_is_activity t serial = NetConMap.is_key_exist t.tcp_client_cons serial

unfoldable pub add_montitor : Conns → String → ℕ → Conns
unfolding close
add_montitor t serial con =
    let ((v, ok), cons) = SyncMap.load_or_store serial con t.monitor_cons in
    let t1 : Conns = record t { monitor_cons = cons } in
    if ok
    then close (close (record t1 { monitor_cons = SyncMap.delete serial t1.monitor_cons }) con) v
    else t1

unfoldable pub remove_montitor : Conns → String → Conns
unfolding close
remove_montitor t serial =
    let t1 : Conns = elim (SyncMap.load serial t.monitor_cons) [
      | none ↦ t
      | some con ↦ close t con
    ] in
    record t1 { monitor_cons = SyncMap.delete serial t1.monitor_cons }

module _ (remote_addr : ℕ → String) where
  -- `others` is what the other goroutines do to the table within `LoadOrStore`.
  unfoldable pub add_tcp_conn : (NetConMap ℕ → NetConMap ℕ) → ℕ → Conns → String → ℕ → Option Conns
  unfolding close close_value
  add_tcp_conn others now t serial con = do
    ((v, ok), cons) ← NetConMap.load_or_store others t.tcp_client_cons serial (remote_addr con) con
    let t1 : Conns = record t {
      last_beat_send = SyncMap.store serial now t.last_beat_send;
      tcp_client_cons = cons;
    }
    some (
        if ok
        then close_value
            (close
              (record t1 {
                tcp_client_cons = NetConMap.delete t1.tcp_client_cons serial (remote_addr con);
              })
              con)
            v
        else t1)

  unfoldable pub remove_tcp_conn : Conns → String → ℕ → Conns
  remove_tcp_conn t serial con = record t {
    last_beat_send = SyncMap.delete serial t.last_beat_send;
    tcp_client_cons = NetConMap.delete t.tcp_client_cons serial (remote_addr con);
  }

-- The routines that `StartListen` adds and retires: the flags, the next handle, and the time of the
-- last sample.
pub record Routines : Type 0 where
  pub chan_routine_status : List Bool
  pub index : ℕ
  pub num : ℕ
  pub sample_time : ℕ

-- `for j := 0; j < num && index < 100; j++`: `num` rounds at most.
unfoldable pub grow : ℕ → Routines → Routines
grow zero r = r
grow (suc rounds) r =
    let r' : Routines = record r {
      chan_routine_status = set r.chan_routine_status r.index true;
      index = r.index + 1;
    } in
    if ltb r.index 100 then grow rounds r' else r

-- `for k := k; k < index && k < 100; k++`, with the rounds left.
unfoldable pub retire : ℕ → ℕ → ℕ → List Bool → List Bool
retire zero k index status = status
retire (suc rounds) k index status =
    let rest = retire rounds (k + 1) index (set status k false) in
    if ltb k index && ltb k 100 then rest else status

-- The sample at the end of a round, every 30 seconds: with more routines than needed the handles
-- from `num + 1` on are retired. `now` and `later` are the readings of the clock.
unfoldable pub shrink : ℕ → ℕ → ℕ → Routines → Routines
unfolding retire
shrink num now later r =
    let r' : Routines = record r { sample_time = later } in
    if ltb (r.sample_time + 30) now
    then (if ltb (num + 1) r.index
        then record r' {
          chan_routine_status = retire r.index (num + 1) r.index r.chan_routine_status;
          index = num + 1;
        }
        else r')
    else r

-- One round of `StartListen` after `Accept`: `waiting` is the length of the channel. (`index` is
-- never negative.)
unfoldable pub scale : ℕ → ℕ → ℕ → Routines → Routines
unfolding grow shrink
scale waiting now later r =
    let num = waiting / 100 in shrink num now later (grow num (record r { num = num }))
