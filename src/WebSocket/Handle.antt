-- ===== src/WebSocket/Handle.antt =====
-- new/server_websocket.go, `WebSockHandle` as a whole: from the acquisition of its entity to its
-- deferred calls. The messages of the connection are an argument, and so are the calls of the
-- observer. `none` is a panic or a call that waits for ever.
pub mod Closed
mod Tests
use gitee_fork_gateway.Prelude.{
  ℕ, Bool, true, false, Option, none, some, List, [], ◌∷◌, String, if◌then◌else◌, ◌>>=◌,
}
use gitee_fork_gateway.NetConMap.{NetConMap}
use gitee_fork_gateway.NetConMap
use gitee_fork_gateway.FifoQueue.{FifoQueue}
use gitee_fork_gateway.Entities.{Store, DataWrapper, acquire, free}
use gitee_fork_gateway.HandOut.{Lines, Parser}
use gitee_fork_gateway.WebSocket.{
  Sockets, Hello, refused, device, close, hello, register, read_round,
}

-- What the handler only reads. `to_text` is the conversion of the first message to the serial; with no
-- observer its two calls change nothing. `others` and `others_map` are what other goroutines do.
pub record Handler : Type 0 where
  pub ws : ℕ
  pub req_addr : String
  pub to_text : List ℕ → String
  pub parser : String → Parser
  pub s_new_connect : String → ℕ → Store → Lines → Option (Store × Lines)
  pub s_dis_connect : String → ℕ → Store → Lines → Option (Store × Lines)
  pub others : FifoQueue DataWrapper → FifoQueue DataWrapper
  pub others_map : NetConMap ℕ → NetConMap ℕ
  pub now : ℕ
  pub later : ℕ

-- The loop, one round for each answer of `Receive`: has the connection ended? If not, the loop waits.
unfoldable pub read_rounds :
    Handler → String → ℕ → List (Option (List ℕ)) → Lines → Store → Option (Bool × Lines × Store)
unfolding read_round
read_rounds t serial entity [] l s = some (false, l, s)
read_rounds t serial entity (msg ∷ msgs) l s = do
  (more, l', s') ←
      read_round t.others (t.parser serial) t.now t.later l s entity serial t.req_addr msg
  let rest = read_rounds t serial entity msgs l' s'
  if more then rest else some (true, l', s')

-- The deferred calls.
unfoldable pub bow_out : Handler → ℕ → Sockets → Option Sockets
unfolding close
bow_out t entity w = do s ← free w.entities entity; some (close (record w { entities = s }) t.ws)

-- From the registration on.
unfoldable pub serve :
    Handler
    → ℕ
    → String
    → List (Option (List ℕ))
    → Sockets
    → Lines
    → Option (Bool × Sockets × Lines)
unfolding register read_rounds bow_out
serve t entity serial msgs w l = do
  w1 ← register t.others_map w serial t.req_addr t.ws
  (s1, l1) ← t.s_new_connect serial entity w1.entities l
  (ended, l2, s2) ← read_rounds t serial entity msgs l1 s1
  let over = (do
    (s3, l3) ← t.s_dis_connect serial entity s2 l2
    w' ←
        bow_out t entity
          (record w1 { entities = s3; map = NetConMap.delete w1.map serial t.req_addr })
    some (true, w', l3))
  if ended then over else some (false, record w1 { entities = s2 }, l2)

-- The first message and the ones that follow. Is the handler at its end?
unfoldable pub web_sock_handle :
    Handler
    → Option (List ℕ)
    → List (Option (List ℕ))
    → Sockets
    → Lines
    → Option (Bool × Sockets × Lines)
unfolding serve
web_sock_handle t first msgs w l = do
  (entity, s0) ← acquire w.entities 1 1024 t.now t.later
  (answer, w1) ← hello (record w { entities = s0 }) t.ws entity first
  let refuse = (do w' ← bow_out t entity w1; some (true, w', l))
  elim answer [ refused ↦ refuse | device text ↦ serve t entity (t.to_text text) msgs w1 l ]
