-- ===== src/Relay.antt =====
-- The way of a message through two servers: new/server_websocket.go, `WebSockHandle`, hands it to the
-- queue of the gateway's server, and new/server_tcp.go, `writeDataEachConRoutine` of that server, sends
-- it to the device.
mod Tests
use gitee_fork_gateway.Prelude.{
  ℕ, ◌%◌, ◌^◌, ◌≡◌, Bool, true, Option, none, some, List, [], ◌∷◌, ◌++◌, String, length, ltb,
  if◌then◌else◌, ◌>>=◌,
}
use gitee_fork_gateway.SyncMap
use gitee_fork_gateway.FifoQueue.{FifoQueue, get}
use gitee_fork_gateway.Entities.{Store, DataWrapper, release}
use gitee_fork_gateway.Entities.Seen.{seen}
use gitee_fork_gateway.Dispatch.{Inbox, queue, Server}
use gitee_fork_gateway.Dispatch.Broadcast.{AllAccept, Accepts}
use gitee_fork_gateway.HandOut.{Lines}
use gitee_fork_gateway.HandOut.Kept.{message}
use gitee_fork_gateway.HandOut.Forward.{Forwarded}
use gitee_fork_gateway.Tcp.Write.{Io, Writer, write_data_each_con_routine}
use gitee_fork_gateway.Tcp.Write.Reach.{logged, Watched}

-- What a server has that broadcasts to one TCP server, which gives each connection a write routine.
abbrev pub only : Server DataWrapper → FifoQueue DataWrapper → List (Option (Server DataWrapper))
only gateway q = some (record gateway { inbox = queue 0 q }) ∷ []

-- The text went to the connection in one round of its routine, and the entity that carried it is free.
pub record Relayed (others : FifoQueue DataWrapper → FifoQueue DataWrapper) (w : Writer)
    (serial : String) (con : ℕ) (io : Io) (q : FifoQueue DataWrapper) (text : List ℕ) : Type 0 where
  pub wrapper : DataWrapper
  pub after : Io
  pub over : Store
  pub rest : FifoQueue DataWrapper
  pub round :
      write_data_each_con_routine others w serial con io q
      ≡ some (true, record after { store = over }, rest)
  pub watched : Watched w wrapper text (logged io con text) after
  pub freed : seen over wrapper.data_store ≡ none

module _ (others : FifoQueue DataWrapper → FifoQueue DataWrapper) (w : Writer) (io : Io)
    (q q1 : FifoQueue DataWrapper) (serial : String) (con now tocast room : ℕ)
    (content text : List ℕ) where
  abbrev carried : DataWrapper
  carried = message now tocast (length text) serial none

abbrev pub line : Inbox DataWrapper → Server DataWrapper → FifoQueue DataWrapper → Lines
line own gateway q = record { inbox = own; to_broad_cast = only gateway q }
