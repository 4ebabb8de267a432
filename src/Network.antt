-- ===== src/Network.antt =====
-- `main` of new/main.go: the five servers, their settings, and which of them gets the data of which.
pub mod Impl
pub mod Servers
pub mod Data
pub mod Routes
pub mod Sent
pub mod Views
pub mod Only
pub mod Listen
pub mod Modes
pub mod Told
mod Tests
use gitee_fork_gateway.Prelude.{
  ℕ, Bool, true, false, Option, none, some, List, [], ◌∷◌, ◌++◌, map, String, str_eq, if◌then◌else◌,
}
use gitee_fork_gateway.Configure.{Configure}
use gitee_fork_gateway.Crypt.{crypt_entity}
use gitee_fork_gateway.Parser.Pooled.{Unmarshal}
use gitee_fork_gateway.Entities.{DataWrapper}
use gitee_fork_gateway.Dispatch.{Inbox, Server}
use gitee_fork_gateway.Observer.{Named}
use gitee_fork_gateway.HandOut.{Lines}
use gitee_fork_gateway.Network.Impl.{
  BeatPackageEntity, beat_package_impl, Surroundings, con_change_observer, ack_entity,
  tcp_package_parse, web_socket_parse_impl, weixin_package_parse,
}
use gitee_fork_gateway.Network.Servers.{
  TcpServerEntity, UdpServerEntity, WebSocketServerEntity, empty_tcp, empty_udp, empty_web_socket,
  init_tcp, init_udp, init_web_socket, distribute_tcp, distribute_udp, distribute_web_socket,
}

-- The pointers to the five servers.
pub data Name : Type 0 where
  weixin : Name
  gate_way : Name
  web : Name
  app : Name
  web_socket : Name

pub record Network : Type 0 where
  pub weixin_server : UdpServerEntity Name
  pub gate_way_server : TcpServerEntity Name
  pub web_server : TcpServerEntity Name
  pub app_server : TcpServerEntity Name
  pub web_socket_server : WebSocketServerEntity Name

-- What `main` starts, in this order: in a goroutine of its own, or in its own, where it stays.
pub data Start : Type 0 where
  goes : Name → Start
  stays : Name → Start
  debugs : String → Start

module _ (x : Surroundings) (unmarshal : Unmarshal) (alive : List ℕ) (cfg : Configure) where
  -- The settings of the servers. All share one pool, at address 0. `alive` is `ALIVE`, the bytes of the
  -- gateway's heartbeat in `cfg`.
  unfoldable pub set_up : Network
  unfolding init_tcp init_udp init_web_socket
  set_up =
      let v : BeatPackageEntity = record { beat = alive; ack_beat = alive; interval = 50 } in
      let crypt = if cfg.need_encrypt.gate_way then some crypt_entity else none in
      let observer = some (con_change_observer x cfg) in
      let parser = some (tcp_package_parse x alive) in
      let ack = some ack_entity in
      record {
        weixin_server =
            init_udp empty_udp cfg.ports.udp_port "微信" 0 none
              (some (weixin_package_parse unmarshal));
        gate_way_server =
            init_tcp empty_tcp cfg.ports.gate_way "GATEWAY" false true 15000 0 600 0
              (some (beat_package_impl v)) crypt observer ack parser;
        web_server =
            init_tcp empty_tcp cfg.ports.web_client "WEB" false false 15000 5 600 0 none none
              observer ack parser;
        app_server =
            init_tcp empty_tcp cfg.ports.control "APP" false false 15000 5 600 0 none none observer
              ack parser;
        web_socket_server =
            init_web_socket empty_web_socket cfg.ports.ws_port "WEBSOCKET" false 600 0
              (some web_socket_parse_impl) observer;
      }

-- The calls of `AddToDistributeEntity`.
unfoldable pub connect_servers : Network → Network
unfolding distribute_tcp distribute_udp distribute_web_socket
connect_servers n = record {
  weixin_server = distribute_udp n.weixin_server gate_way;
  gate_way_server =
      distribute_tcp (distribute_tcp (distribute_tcp n.gate_way_server web) app) web_socket;
  web_server = distribute_tcp n.web_server gate_way;
  app_server = distribute_tcp n.app_server gate_way;
  web_socket_server = distribute_web_socket n.web_socket_server gate_way;
}

unfoldable pub starts : Configure → List Start
starts cfg =
    goes web
    ∷ goes app
    ∷ goes weixin
    ∷ goes gate_way
    ∷ (if cfg.p_prof_debuger
        then goes web_socket ∷ debugs "localhost:7777" ∷ []
        else stays web_socket ∷ [])

unfoldable pub main : Surroundings → Unmarshal → List ℕ → Configure → Network × List Start
unfolding set_up connect_servers starts
main x unmarshal alive cfg = (connect_servers (set_up x unmarshal alive cfg), starts cfg)

-- `GetSerial`.
unfoldable pub get_serial : Network → Name → String
get_serial n weixin = n.weixin_server.serial
get_serial n gate_way = n.gate_way_server.serial
get_serial n web = n.web_server.serial
get_serial n app = n.app_server.serial
get_serial n web_socket = n.web_socket_server.serial

-- `ToBroadCast`.
unfoldable pub to_broad_cast : Network → Name → List Name
to_broad_cast n weixin = n.weixin_server.to_broad_cast
to_broad_cast n gate_way = n.gate_way_server.to_broad_cast
to_broad_cast n web = n.web_server.to_broad_cast
to_broad_cast n app = n.app_server.to_broad_cast
to_broad_cast n web_socket = n.web_socket_server.to_broad_cast
