-- ===== src/Network/Sent.antt =====
-- What `AddDataForWrite` of one of the servers changes.
use gitee_fork_gateway.Prelude.{
  ℕ, ◌<◌, ◌≡◌, refl, ◌≢◌, true, some, [], ◌∷◌, ◌++◌, length, ltb, arith,
}
use gitee_fork_gateway.FifoQueue.{FifoQueue}
use gitee_fork_gateway.Entities.{DataWrapper}
use gitee_fork_gateway.Dispatch.{queue}
use gitee_fork_gateway.Dispatch.Broadcast.{Accepts, Received, add_to_queue-Took}
use gitee_fork_gateway.Network.Servers.{
  Chan, TcpServerEntity, UdpServerEntity, WebSocketServerEntity,
}
use gitee_fork_gateway.Network.{
  Name, weixin, gate_way, web, app, web_socket, Network, to_broad_cast,
}
use gitee_fork_gateway.Network.Data.{
  inbox_of, send, add_data_tcp, add_data_udp, add_data_web_socket, add_data,
}

-- One server has received the data; no other queue, and no `ToBroadCast`, has changed.
pub record Sent (n n' : Network) (p : Name) (d : DataWrapper) : Type 0 where
  pub received : Received (inbox_of n p) (inbox_of n' p) d.target_con_serial d
  pub rest : (q : Name) → p ≢ q → inbox_of n' q ≡ inbox_of n q
  pub routes : (q : Name) → to_broad_cast n' q ≡ to_broad_cast n q

send-room :
    (c : Chan DataWrapper) (d : DataWrapper)
    → length c.waiting < c.capacity
    → send c d ≡ some (record c { waiting = c.waiting ++ (d ∷ []) })
unfolding send
send-room c d h = (let t : ltb (length c.waiting) c.capacity ≡ true = ground arith in rw t refl)

pub rest_weixin :
    (n : Network) (v : UdpServerEntity Name) (q : Name)
    → weixin ≢ q
    → inbox_of (record n { weixin_server = v }) q ≡ inbox_of n q
unfolding inbox_of
rest_weixin n v weixin ne = absurd (ne refl)
rest_weixin n v gate_way ne = refl
rest_weixin n v web ne = refl
rest_weixin n v app ne = refl
rest_weixin n v web_socket ne = refl

pub rest_gate_way :
    (n : Network) (v : TcpServerEntity Name) (q : Name)
    → gate_way ≢ q
    → inbox_of (record n { gate_way_server = v }) q ≡ inbox_of n q
unfolding inbox_of
rest_gate_way n v weixin ne = refl
rest_gate_way n v gate_way ne = absurd (ne refl)
rest_gate_way n v web ne = refl
rest_gate_way n v app ne = refl
rest_gate_way n v web_socket ne = refl

pub rest_web :
    (n : Network) (v : TcpServerEntity Name) (q : Name)
    → web ≢ q
    → inbox_of (record n { web_server = v }) q ≡ inbox_of n q
unfolding inbox_of
rest_web n v weixin ne = refl
rest_web n v gate_way ne = refl
rest_web n v web ne = absurd (ne refl)
rest_web n v app ne = refl
rest_web n v web_socket ne = refl

pub rest_app :
    (n : Network) (v : TcpServerEntity Name) (q : Name)
    → app ≢ q
    → inbox_of (record n { app_server = v }) q ≡ inbox_of n q
unfolding inbox_of
rest_app n v weixin ne = refl
rest_app n v gate_way ne = refl
rest_app n v web ne = refl
rest_app n v app ne = absurd (ne refl)
rest_app n v web_socket ne = refl

pub rest_web_socket :
    (n : Network) (v : WebSocketServerEntity Name) (q : Name)
    → web_socket ≢ q
    → inbox_of (record n { web_socket_server = v }) q ≡ inbox_of n q
unfolding inbox_of
rest_web_socket n v weixin ne = refl
rest_web_socket n v gate_way ne = refl
rest_web_socket n v web ne = refl
rest_web_socket n v app ne = refl
rest_web_socket n v web_socket ne = absurd (ne refl)

routes_weixin :
    (n : Network) (v : UdpServerEntity Name) (q : Name)
    → v.to_broad_cast ≡ n.weixin_server.to_broad_cast
    → to_broad_cast (record n { weixin_server = v }) q ≡ to_broad_cast n q
unfolding to_broad_cast
routes_weixin n v weixin e = e
routes_weixin n v gate_way e = refl
routes_weixin n v web e = refl
routes_weixin n v app e = refl
routes_weixin n v web_socket e = refl

routes_gate_way :
    (n : Network) (v : TcpServerEntity Name) (q : Name)
    → v.to_broad_cast ≡ n.gate_way_server.to_broad_cast
    → to_broad_cast (record n { gate_way_server = v }) q ≡ to_broad_cast n q
unfolding to_broad_cast
routes_gate_way n v weixin e = refl
routes_gate_way n v gate_way e = e
routes_gate_way n v web e = refl
routes_gate_way n v app e = refl
routes_gate_way n v web_socket e = refl

routes_web :
    (n : Network) (v : TcpServerEntity Name) (q : Name)
    → v.to_broad_cast ≡ n.web_server.to_broad_cast
    → to_broad_cast (record n { web_server = v }) q ≡ to_broad_cast n q
unfolding to_broad_cast
routes_web n v weixin e = refl
routes_web n v gate_way e = refl
routes_web n v web e = e
routes_web n v app e = refl
routes_web n v web_socket e = refl

routes_app :
    (n : Network) (v : TcpServerEntity Name) (q : Name)
    → v.to_broad_cast ≡ n.app_server.to_broad_cast
    → to_broad_cast (record n { app_server = v }) q ≡ to_broad_cast n q
unfolding to_broad_cast
routes_app n v weixin e = refl
routes_app n v gate_way e = refl
routes_app n v web e = refl
routes_app n v app e = e
routes_app n v web_socket e = refl

routes_web_socket :
    (n : Network) (v : WebSocketServerEntity Name) (q : Name)
    → v.to_broad_cast ≡ n.web_socket_server.to_broad_cast
    → to_broad_cast (record n { web_socket_server = v }) q ≡ to_broad_cast n q
unfolding to_broad_cast
routes_web_socket n v weixin e = refl
routes_web_socket n v gate_way e = refl
routes_web_socket n v web e = refl
routes_web_socket n v app e = refl
routes_web_socket n v web_socket e = e

module _ (others : FifoQueue DataWrapper → FifoQueue DataWrapper) (now : ℕ) where
  add_tcp :
      {S : Type 0} (t : TcpServerEntity S) (d : DataWrapper)
      → Accepts (queue t.write_conrution_size t.mem_queue) d.target_con_serial
      → (q' : FifoQueue DataWrapper) × (add_data_tcp others now t d
          ≡ some (record t { mem_queue = q' }))
        × Received
            (queue t.write_conrution_size t.mem_queue)
            (queue t.write_conrution_size q')
            d.target_con_serial
            d
  unfolding add_data_tcp
  add_tcp t d a =
      let (q', e, took) =
        add_to_queue-Took 1 others now t.write_conrution_size t.mem_queue d.target_con_serial d a in
      (q', (rw e refl), (refl, took))

  pub add_data-Sent :
      (n : Network) (p : Name) (d : DataWrapper)
      → Accepts (inbox_of n p) d.target_con_serial
      → (n' : Network) × (add_data others now n p d ≡ some n') × Sent n n' p d
  unfolding add_data inbox_of add_data_udp add_data_web_socket
  add_data-Sent n weixin d a =
      let c = n.weixin_server.data_queue in
      let v : UdpServerEntity Name = record n.weixin_server {
        data_queue = record c { waiting = c.waiting ++ (d ∷ []) };
      } in
      (
        record n { weixin_server = v },
        (rw (send-room c d a) refl),
        record {
          received = (refl, refl);
          rest = rest_weixin n v;
          routes = λ q. routes_weixin n v q refl;
        },
      )
  add_data-Sent n gate_way d a =
      let (q', e, r) = add_tcp n.gate_way_server d a in
      let v : TcpServerEntity Name = record n.gate_way_server { mem_queue = q' } in
      (
        record n { gate_way_server = v },
        (rw e refl),
        record { received = r; rest = rest_gate_way n v; routes = λ q. routes_gate_way n v q refl },
      )
  add_data-Sent n web d a =
      let (q', e, r) = add_tcp n.web_server d a in
      let v : TcpServerEntity Name = record n.web_server { mem_queue = q' } in
      (
        record n { web_server = v },
        (rw e refl),
        record { received = r; rest = rest_web n v; routes = λ q. routes_web n v q refl },
      )
  add_data-Sent n app d a =
      let (q', e, r) = add_tcp n.app_server d a in
      let v : TcpServerEntity Name = record n.app_server { mem_queue = q' } in
      (
        record n { app_server = v },
        (rw e refl),
        record { received = r; rest = rest_app n v; routes = λ q. routes_app n v q refl },
      )
  add_data-Sent n web_socket d a =
      let c = n.web_socket_server.mem_queue in
      let v : WebSocketServerEntity Name = record n.web_socket_server {
        mem_queue = record c { waiting = c.waiting ++ (d ∷ []) };
      } in
      (
        record n { web_socket_server = v },
        (rw (send-room c d a) refl),
        record {
          received = (refl, refl);
          rest = rest_web_socket n v;
          routes = λ q. routes_web_socket n v q refl;
        },
      )
