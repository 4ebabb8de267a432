-- ===== src/Network/Only.antt =====
-- `AddDataForWrite` by pointer, as the other servers see it: one queue changes, and no name.
use gitee_fork_gateway.Prelude.{ℕ, ◌≡◌, refl, subst, ◌≢◌, some, ◌>>=◌, >>=-some, arith}
use gitee_fork_gateway.FifoQueue.{FifoQueue}
use gitee_fork_gateway.Entities.{DataWrapper}
use gitee_fork_gateway.Dispatch.{add_data_for_write}
use gitee_fork_gateway.Network.Servers.{TcpServerEntity, UdpServerEntity, WebSocketServerEntity}
use gitee_fork_gateway.Network.{Name, weixin, gate_way, web, app, web_socket, Network, get_serial}
use gitee_fork_gateway.Network.Data.{
  inbox_of, send, add_data, add_data_tcp, add_data_udp, add_data_web_socket,
}
use gitee_fork_gateway.Network.Sent.{
  rest_weixin, rest_gate_way, rest_web, rest_app, rest_web_socket,
}

-- What the data changes: the queue of one server.
pub record Only (n n1 : Network) (p : Name) : Type 0 where
  pub rest : (q : Name) → p ≢ q → inbox_of n1 q ≡ inbox_of n q
  pub serials : (q : Name) → get_serial n1 q ≡ get_serial n q

serials_weixin :
    (n : Network) (v : UdpServerEntity Name) (q : Name)
    → v.serial ≡ n.weixin_server.serial
    → get_serial (record n { weixin_server = v }) q ≡ get_serial n q
unfolding get_serial
serials_weixin n v weixin e = e
serials_weixin n v gate_way e = refl
serials_weixin n v web e = refl
serials_weixin n v app e = refl
serials_weixin n v web_socket e = refl

serials_gate_way :
    (n : Network) (v : TcpServerEntity Name) (q : Name)
    → v.serial ≡ n.gate_way_server.serial
    → get_serial (record n { gate_way_server = v }) q ≡ get_serial n q
unfolding get_serial
serials_gate_way n v weixin e = refl
serials_gate_way n v gate_way e = e
serials_gate_way n v web e = refl
serials_gate_way n v app e = refl
serials_gate_way n v web_socket e = refl

serials_web :
    (n : Network) (v : TcpServerEntity Name) (q : Name)
    → v.serial ≡ n.web_server.serial
    → get_serial (record n { web_server = v }) q ≡ get_serial n q
unfolding get_serial
serials_web n v weixin e = refl
serials_web n v gate_way e = refl
serials_web n v web e = e
serials_web n v app e = refl
serials_web n v web_socket e = refl

serials_app :
    (n : Network) (v : TcpServerEntity Name) (q : Name)
    → v.serial ≡ n.app_server.serial
    → get_serial (record n { app_server = v }) q ≡ get_serial n q
unfolding get_serial
serials_app n v weixin e = refl
serials_app n v gate_way e = refl
serials_app n v web e = refl
serials_app n v app e = e
serials_app n v web_socket e = refl

serials_web_socket :
    (n : Network) (v : WebSocketServerEntity Name) (q : Name)
    → v.serial ≡ n.web_socket_server.serial
    → get_serial (record n { web_socket_server = v }) q ≡ get_serial n q
unfolding get_serial
serials_web_socket n v weixin e = refl
serials_web_socket n v gate_way e = refl
serials_web_socket n v web e = refl
serials_web_socket n v app e = refl
serials_web_socket n v web_socket e = e

pub same_network : (n n1 : Network) → some n ≡ some n1 → n ≡ n1
same_network n n1 e = ground arith

module _ (others : FifoQueue DataWrapper → FifoQueue DataWrapper) (now : ℕ) where
  pub add_data-Inbox :
      (n : Network) (p : Name) (d : DataWrapper)
      → add_data_for_write 2 others now (inbox_of n p) d.target_con_serial d
        ≡ (add_data others now n p d >>= λ n1. some (inbox_of n1 p))
  unfolding add_data_for_write add_data inbox_of add_data_tcp add_data_udp add_data_web_socket send
  add_data-Inbox n weixin d = ground arith
  add_data-Inbox n gate_way d = ground arith
  add_data-Inbox n web d = ground arith
  add_data-Inbox n app d = ground arith
  add_data-Inbox n web_socket d = ground arith

  serial_tcp :
      {S : Type 0} (t t' : TcpServerEntity S) (d : DataWrapper)
      → add_data_tcp others now t d ≡ some t'
      → t'.serial ≡ t.serial
  unfolding add_data_tcp
  serial_tcp t t' d e = ground arith

  serial_udp :
      {S : Type 0} (t t' : UdpServerEntity S) (d : DataWrapper)
      → add_data_udp others now t d ≡ some t'
      → t'.serial ≡ t.serial
  unfolding add_data_udp
  serial_udp t t' d e = ground arith

  serial_web_socket :
      {S : Type 0} (t t' : WebSocketServerEntity S) (d : DataWrapper)
      → add_data_web_socket others now t d ≡ some t'
      → t'.serial ≡ t.serial
  unfolding add_data_web_socket
  serial_web_socket t t' d e = ground arith

  pub add_data-Only :
      (n n1 : Network) (p : Name) (d : DataWrapper)
      → add_data others now n p d ≡ some n1
      → Only n n1 p
  unfolding add_data
  add_data-Only n n1 weixin d h =
      let (v, e, r) =
        >>=-some (add_data_udp others now n.weixin_server d)
          (λ v. some (record n { weixin_server = v })) n1 h in
      let c = serial_udp n.weixin_server v d e in
      subst (λ k. Only n k weixin) (same_network (record n { weixin_server = v }) n1 r)
        (record { rest = rest_weixin n v; serials = λ q. serials_weixin n v q c })
  add_data-Only n n1 gate_way d h =
      let (v, e, r) =
        >>=-some (add_data_tcp others now n.gate_way_server d)
          (λ v. some (record n { gate_way_server = v })) n1 h in
      let c = serial_tcp n.gate_way_server v d e in
      subst (λ k. Only n k gate_way) (same_network (record n { gate_way_server = v }) n1 r)
        (record { rest = rest_gate_way n v; serials = λ q. serials_gate_way n v q c })
  add_data-Only n n1 web d h =
      let (v, e, r) =
        >>=-some (add_data_tcp others now n.web_server d) (λ v. some (record n { web_server = v }))
          n1 h in
      let c = serial_tcp n.web_server v d e in
      subst (λ k. Only n k web) (same_network (record n { web_server = v }) n1 r)
        (record { rest = rest_web n v; serials = λ q. serials_web n v q c })
  add_data-Only n n1 app d h =
      let (v, e, r) =
        >>=-some (add_data_tcp others now n.app_server d) (λ v. some (record n { app_server = v }))
          n1 h in
      let c = serial_tcp n.app_server v d e in
      subst (λ k. Only n k app) (same_network (record n { app_server = v }) n1 r)
        (record { rest = rest_app n v; serials = λ q. serials_app n v q c })
  add_data-Only n n1 web_socket d h =
      let (v, e, r) =
        >>=-some (add_data_web_socket others now n.web_socket_server d)
          (λ v. some (record n { web_socket_server = v })) n1 h in
      let c = serial_web_socket n.web_socket_server v d e in
      subst (λ k. Only n k web_socket) (same_network (record n { web_socket_server = v }) n1 r)
        (record { rest = rest_web_socket n v; serials = λ q. serials_web_socket n v q c })
