-- ===== src/Network/Data.antt =====
-- The rest of ServerImpl for the five servers of `main`: `SerialIsActivity`, `AddDataForWrite`,
-- `BroadCastData` and `SerialActivityMap` of new/server_tcp.go, new/server_udp.go and new/server_websocket.go, by pointer. `none`
-- is a panic or a call that waits for ever.
use gitee_fork_gateway.Prelude.{
  ℕ, Bool, false, Option, none, some, List, [], ◌∷◌, ◌++◌, String, length, ltb, if◌then◌else◌,
  ◌>>=◌,
}
use gitee_fork_gateway.SyncMap.{SyncMap}
use gitee_fork_gateway.SyncMap
use gitee_fork_gateway.NetConMap.{is_key_exist}
use gitee_fork_gateway.FifoQueue.{FifoQueue}
use gitee_fork_gateway.Entities.{DataWrapper}
use gitee_fork_gateway.Dispatch.{Inbox, queue, channel, add_to_queue}
use gitee_fork_gateway.Network.Servers.{
  Chan, TcpServerEntity, UdpServerEntity, WebSocketServerEntity,
}
use gitee_fork_gateway.Network.{
  Name, weixin, gate_way, web, app, web_socket, Network, get_serial, to_broad_cast,
}

module _ {S : Type 0} where
  unfoldable pub active_tcp : TcpServerEntity S → String → Bool
  active_tcp t serial = is_key_exist t.tcp_client_cons serial

  unfoldable pub active_udp : UdpServerEntity S → String → Bool
  active_udp u serial = false

  unfoldable pub active_web_socket : WebSocketServerEntity S → String → Bool
  active_web_socket w serial = is_key_exist w.map serial

-- `queue <- data`, which waits where the channel is full.
unfoldable pub send {ℓ} : {V : Type ℓ} → Chan V → V → Option (Chan V)
send c v =
    if ltb (length c.waiting) c.capacity
    then some (record c { waiting = c.waiting ++ (v ∷ []) })
    else none

unfoldable pub serial_is_activity_of : Network → Name → String → Bool
unfolding active_tcp active_udp active_web_socket
serial_is_activity_of n weixin serial = active_udp n.weixin_server serial
serial_is_activity_of n gate_way serial = active_tcp n.gate_way_server serial
serial_is_activity_of n web serial = active_tcp n.web_server serial
serial_is_activity_of n app serial = active_tcp n.app_server serial
serial_is_activity_of n web_socket serial = active_web_socket n.web_socket_server serial

-- What the other servers see of a server's queue.
unfoldable pub inbox_of : Network → Name → Inbox DataWrapper
inbox_of n weixin =
    channel (n.weixin_server.data_queue).capacity (n.weixin_server.data_queue).waiting
inbox_of n gate_way = queue n.gate_way_server.write_conrution_size n.gate_way_server.mem_queue
inbox_of n web = queue n.web_server.write_conrution_size n.web_server.mem_queue
inbox_of n app = queue n.app_server.write_conrution_size n.app_server.mem_queue
inbox_of n web_socket =
    channel (n.web_socket_server.mem_queue).capacity (n.web_socket_server.mem_queue).waiting

module _ (others : FifoQueue DataWrapper → FifoQueue DataWrapper) (now : ℕ) where
  unfoldable pub add_data_tcp :
      {S : Type 0} → TcpServerEntity S → DataWrapper → Option (TcpServerEntity S)
  add_data_tcp t d = do
    q ← add_to_queue 2 others now t.write_conrution_size t.mem_queue d.target_con_serial d
    some (record t { mem_queue = q })

  unfoldable pub add_data_udp :
      {S : Type 0} → UdpServerEntity S → DataWrapper → Option (UdpServerEntity S)
  unfolding send
  add_data_udp u d = do c ← send u.data_queue d; some (record u { data_queue = c })

  unfoldable pub add_data_web_socket :
      {S : Type 0} → WebSocketServerEntity S → DataWrapper → Option (WebSocketServerEntity S)
  unfolding send
  add_data_web_socket w d = do c ← send w.mem_queue d; some (record w { mem_queue = c })

  unfoldable pub add_data : Network → Name → DataWrapper → Option Network
  unfolding add_data_tcp add_data_udp add_data_web_socket
  add_data n weixin d = do u ← add_data_udp n.weixin_server d; some (record n { weixin_server = u })
  add_data n gate_way d = do
    t ← add_data_tcp n.gate_way_server d
    some (record n { gate_way_server = t })
  add_data n web d = do t ← add_data_tcp n.web_server d; some (record n { web_server = t })
  add_data n app d = do t ← add_data_tcp n.app_server d; some (record n { app_server = t })
  add_data n web_socket d = do
    w ← add_data_web_socket n.web_socket_server d
    some (record n { web_socket_server = w })

  -- `for _, obj := range ToBroadCast`; no server is nil here.
  unfoldable pub broad_cast_loop : Network → List Name → DataWrapper → Option Network
  unfolding add_data
  broad_cast_loop n [] d = some n
  broad_cast_loop n (obj ∷ objs) d = do n' ← add_data n obj d; broad_cast_loop n' objs d

  unfoldable pub broad_cast : Network → Name → DataWrapper → Option Network
  unfolding broad_cast_loop
  broad_cast n p d = broad_cast_loop n (to_broad_cast n p) d

-- The loop of `SerialActivityMap`, over servers that are not nil.
unfoldable pub activity_loop_of : Network → List Name → String → SyncMap Bool → SyncMap Bool
unfolding serial_is_activity_of
activity_loop_of n [] serial ret = ret
activity_loop_of n (v ∷ vs) serial ret =
    activity_loop_of n vs serial
      (SyncMap.store (get_serial n v) (serial_is_activity_of n v serial) ret)

unfoldable pub serial_activity_map_of : Network → Name → String → SyncMap Bool
unfolding activity_loop_of
serial_activity_map_of n p serial =
    activity_loop_of n (to_broad_cast n p) serial
      (SyncMap.store (get_serial n p) (serial_is_activity_of n p serial) [])
