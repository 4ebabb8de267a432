-- ===== src/Network/Servers.antt =====
-- The servers as `main` sets them up: `Init`, `AddToDistributeEntity` and `GetSerial` of
-- new/server_tcp.go, new/server_udp.go and new/server_websocket.go. `S` is the type of the pointers to
-- servers; a pool is known by its address.
use gitee_fork_gateway.Prelude.{
  ℕ, Bool, false, Option, none, some, List, [], ◌∷◌, ◌++◌, String, replicate,
}
use gitee_fork_gateway.SyncMap.{SyncMap}
use gitee_fork_gateway.NetConMap.{NetConMap, set_allow_dup}
use gitee_fork_gateway.FifoQueue.{FifoQueue}
use gitee_fork_gateway.Entities.{DataWrapper}
use gitee_fork_gateway.Parser.{CryptImpl}
use gitee_fork_gateway.Network.Impl.{
  BeatPackageImpl, ConChangeObserverImpl, AckImpl, PackageParseImpl,
}

-- A channel: its capacity, and what is in it.
pub record Chan {ℓ} (V : Type ℓ) : Type ℓ where
  pub capacity : ℕ
  pub waiting : List V

abbrev pub make_chan {ℓ} : {V : Type ℓ} → ℕ → Chan V
make_chan n = record { capacity = n; waiting = [] }

-- The zero value of a table and of a queue.
abbrev pub no_conns {ℓ} : {V : Type ℓ} → NetConMap V
no_conns = record { deque = []; allow_dup = false; mtx = false; tms = 0 }

abbrev pub no_values {ℓ} : {V : Type ℓ} → FifoQueue V
no_values = record { deque = []; single = none; calltime = 0 }

module _ (S : Type 0) where
  pub record TcpServerEntity : Type 0 where
    pub beat_inf : Option BeatPackageImpl
    pub crypt_inf : Option CryptImpl
    pub observer_inf : Option ConChangeObserverImpl
    pub ack_inf : Option AckImpl
    pub parser_inf : Option PackageParseImpl
    pub to_broad_cast : List S
    pub last_beat_send : SyncMap ℕ
    pub mem_queue : FifoQueue DataWrapper
    pub chan_queue : Chan ℕ
    pub chan_routine_status : List Bool
    pub pool : Option ℕ
    pub monitor_cons : SyncMap ℕ
    pub tcp_client_cons : NetConMap ℕ
    pub serial : String
    pub time_out_sec : ℕ
    pub write_conrution_size : ℕ
    pub need_feed_back : Bool
    pub tcpport : String

  pub record UdpServerEntity : Type 0 where
    pub udpport : String
    pub to_broad_cast : List S
    pub serial : String
    pub crypt_inf : Option CryptImpl
    pub parse_inf : Option PackageParseImpl
    pub data_queue : Chan DataWrapper
    pub pool : Option ℕ
    pub udp_map : NetConMap String

  pub record WebSocketServerEntity : Type 0 where
    pub port : String
    pub to_broad_cast : List S
    pub serial : String
    pub parse_inf : Option PackageParseImpl
    pub pool : Option ℕ
    pub mem_queue : Chan DataWrapper
    pub map : NetConMap ℕ
    pub time_out_sec : ℕ
    pub observer_inf : Option ConChangeObserverImpl

module _ {S : Type 0} where
  -- `TcpServerEntity{}` and the others.
  abbrev pub empty_tcp : TcpServerEntity S
  empty_tcp = record {
    beat_inf = none;
    crypt_inf = none;
    observer_inf = none;
    ack_inf = none;
    parser_inf = none;
    to_broad_cast = [];
    last_beat_send = [];
    mem_queue = no_values;
    chan_queue = make_chan 0;
    chan_routine_status = replicate 100 false;
    pool = none;
    monitor_cons = [];
    tcp_client_cons = no_conns;
    serial = "";
    time_out_sec = 0;
    write_conrution_size = 0;
    need_feed_back = false;
    tcpport = "";
  }

  abbrev pub empty_udp : UdpServerEntity S
  empty_udp = record {
    udpport = "";
    to_broad_cast = [];
    serial = "";
    crypt_inf = none;
    parse_inf = none;
    data_queue = make_chan 0;
    pool = none;
    udp_map = no_conns;
  }

  abbrev pub empty_web_socket : WebSocketServerEntity S
  empty_web_socket = record {
    port = "";
    to_broad_cast = [];
    serial = "";
    parse_inf = none;
    pool = none;
    mem_queue = make_chan 0;
    map = no_conns;
    time_out_sec = 0;
    observer_inf = none;
  }

  -- The size of `ToBroadCast` that is asked for is only its room.
  unfoldable pub init_tcp :
      TcpServerEntity S
      → String
      → String
      → Bool
      → Bool
      → ℕ
      → ℕ
      → ℕ
      → ℕ
      → Option BeatPackageImpl
      → Option CryptImpl
      → Option ConChangeObserverImpl
      → Option AckImpl
      → Option PackageParseImpl
      → TcpServerEntity S
  unfolding set_allow_dup
  init_tcp t port serial can_dup needfb con_queue_pool_size write_conrution_size timeoutsec pool bv
        cv ov av pv =
      record t {
        tcpport = port;
        serial = serial;
        write_conrution_size = write_conrution_size;
        chan_queue = make_chan con_queue_pool_size;
        time_out_sec = timeoutsec;
        beat_inf = bv;
        crypt_inf = cv;
        observer_inf = ov;
        ack_inf = av;
        parser_inf = pv;
        need_feed_back = needfb;
        pool = some pool;
        mem_queue = no_values;
        to_broad_cast = [];
        last_beat_send = [];
        tcp_client_cons = set_allow_dup t.tcp_client_cons can_dup;
      }

  unfoldable pub init_udp :
      UdpServerEntity S
      → String
      → String
      → ℕ
      → Option CryptImpl
      → Option PackageParseImpl
      → UdpServerEntity S
  unfolding set_allow_dup
  init_udp u port serial pool cv pv = record u {
    udpport = port;
    serial = serial;
    crypt_inf = cv;
    parse_inf = pv;
    to_broad_cast = [];
    pool = some pool;
    data_queue = make_chan 1000;
    udp_map = set_allow_dup u.udp_map false;
  }

  unfoldable pub init_web_socket :
      WebSocketServerEntity S
      → String
      → String
      → Bool
      → ℕ
      → ℕ
      → Option PackageParseImpl
      → Option ConChangeObserverImpl
      → WebSocketServerEntity S
  unfolding set_allow_dup
  init_web_socket w port serial can_dup timeoutsec pool pv ov = record w {
    port = port;
    serial = serial;
    parse_inf = pv;
    to_broad_cast = [];
    mem_queue = make_chan 100;
    pool = some pool;
    time_out_sec = timeoutsec;
    map = set_allow_dup w.map can_dup;
    observer_inf = ov;
  }

  -- `AddToDistributeEntity` of the three.
  unfoldable pub distribute_tcp : TcpServerEntity S → S → TcpServerEntity S
  distribute_tcp t v = record t { to_broad_cast = t.to_broad_cast ++ (v ∷ []) }

  unfoldable pub distribute_udp : UdpServerEntity S → S → UdpServerEntity S
  distribute_udp u v = record u { to_broad_cast = u.to_broad_cast ++ (v ∷ []) }

  unfoldable pub distribute_web_socket : WebSocketServerEntity S → S → WebSocketServerEntity S
  distribute_web_socket w v = record w { to_broad_cast = w.to_broad_cast ++ (v ∷ []) }
