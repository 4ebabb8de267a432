-- ===== src/Tcp/Come.antt =====
-- new/server_tcp.go, `newComeConHandle`: what becomes of a new
-- connection. The answers of `AckSerial` and of `AckConnect` are arguments, and so is the observer's
-- `SNewConnect`. `none` is a panic or a call that waits for ever.
pub mod Routes
use gitee_fork_gateway.Prelude.{
  ℕ, Bool, true, false, not, ◌&&◌, ◌==◌, Option, none, some, List, [], ◌∷◌, ◌++◌, String, replicate,
  get_elem?, ltb, if◌then◌else◌, ◌>>=◌,
}
use gitee_fork_gateway.NetConMap.{NetConMap}
use gitee_fork_gateway.Entities.{Store, DataWrapper}
use gitee_fork_gateway.Dispatch.{Server}
use gitee_fork_gateway.HandOut.{Lines}
use gitee_fork_gateway.Tcp.{Conns, close, add_montitor, add_tcp_conn}

-- What the routine changes: `reading` and `writing` are the connections, with their serials, for which
-- a read routine and a write routine of their own were started, and `asked` the requests of the HTTP
-- service, in their order.
pub record Hall : Type 0 where
  pub conns : Conns
  pub store : Store
  pub lines : Lines
  pub reading : List (ℕ × String)
  pub writing : List (String × ℕ)
  pub asked : List String

-- What it only reads; `h_new_connect` is the request that `HNewConnect` makes for a serial, if any. `others_map` is what other goroutines do to the table within `LoadOrStore`.
pub record Doorman : Type 0 where
  pub remote_addr : ℕ → String
  pub others_map : NetConMap ℕ → NetConMap ℕ
  pub now : ℕ
  pub write_conrution_size : ℕ
  pub h_new_connect : String → Option String
  pub observer : Option (String → Store → Lines → Option (Store × Lines))

-- The requests with one more, if there is one.
abbrev pub asks : List String → Option String → List String
asks asked none = asked
asks asked (some url) = asked ++ (url ∷ [])

-- `HNewConnect` and `SNewConnect`, where there is an observer. The routine waits for the request of the
-- first, which is taken to come back.
unfoldable pub observe : Doorman → String → Hall → Option Hall
observe d serial h = elim d.observer [
  | none ↦ some h
  | some s_new_connect ↦ do
    (s', l') ← s_new_connect serial h.store h.lines
    some (record h { store = s'; lines = l'; asked = asks h.asked (d.h_new_connect serial) })
]

-- A device: into the table, the observer told, and the routines started.
unfoldable pub admit : Doorman → String → ℕ → Hall → Option Hall
unfolding observe
admit d serial con h = do
  conns' ← add_tcp_conn d.remote_addr d.others_map d.now h.conns serial con
  h' ← observe d serial (record h { conns = conns' })
  let h'' : Hall = record h' { reading = h'.reading ++ ((con, serial) ∷ []) }
  some (
      if ltb d.write_conrution_size 1
      then record h'' { writing = h''.writing ++ ((serial, con) ∷ []) }
      else h'')

-- The body of the loop, for the connection that came: is it authenticated, its serial and its kind
-- `tp`, and did the greeting go out?
unfoldable pub new_come : Doorman → ℕ → Bool → String → ℕ → Bool → Hall → Option Hall
unfolding admit close add_montitor
new_come d con ok serial tp greeted h =
    let shut : Option Hall = some (record h { conns = close h.conns con }) in
    let watched : Option Hall = some (record h { conns = add_montitor h.conns serial con }) in
    let admitted = admit d serial con h in
    if ok then (if greeted then (if tp == 1 then watched else admitted) else shut) else shut

-- The guard at the head of the loop: a routine with a handle ends once its flag is down. The five
-- fixed routines have no handle. A handle out of range panics.
unfoldable pub ends : Option ℕ → List Bool → Option Bool
ends none status = some false
ends (some handle_id) status = do up ← get_elem? status handle_id; some (not up)
