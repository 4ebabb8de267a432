-- ===== src/Network/Tests.antt =====
-- The network of `main`, with a device that an app and a WebSocket client can see.
use gitee_fork_gateway.Prelude.{
  ℕ, ◌≡◌, refl, ◌≢◌, ◌⊎◌, ◌&&◌, Bool, true, false, none, some, [], ◌∷◌, String, replicate, arith,
}
use gitee_fork_gateway.SyncMap
use gitee_fork_gateway.NetConMap.{conn}
use gitee_fork_gateway.NetConMap.View.{alone}
use gitee_fork_gateway.HandOut.{Lines}
use gitee_fork_gateway.Tcp.{Conns, close}
use gitee_fork_gateway.Tcp.Come.{Hall, Doorman, new_come}
use gitee_fork_gateway.Tcp.Come.Routes.{entry_of, Admitted, Watched, new_come-Became}
use gitee_fork_gateway.Brick.{load_mem}
use gitee_fork_gateway.Brick.Rows.{row}
use gitee_fork_gateway.Pool.{empty_pool, find_brick}
use gitee_fork_gateway.Pool.Slices.{row_at}
use gitee_fork_gateway.Entities.{Store, DataWrapper}
use gitee_fork_gateway.Entities.Seen.{IsSound, seen}
use gitee_fork_gateway.Dispatch.{Inbox, queue, channel}
use gitee_fork_gateway.Dispatch.Broadcast.{Received}
use gitee_fork_gateway.Configure.{Configure, empty_configure, load_config}
use gitee_fork_gateway.Parser.Pooled.{Unmarshal}
use gitee_fork_gateway.Observer.{notice, s_new_connect}
use gitee_fork_gateway.Observer.Laid.{Laid}
use gitee_fork_gateway.Network.Impl.{Surroundings, h_new_connect}
use gitee_fork_gateway.Network.{
  Name, Network, weixin, gate_way, web, app, web_socket, goes, stays, main, get_serial,
  to_broad_cast,
}
use gitee_fork_gateway.Network.Data.{inbox_of, broad_cast}
use gitee_fork_gateway.Network.Routes.{Reached, targets, broad_cast-Reached}
use gitee_fork_gateway.Network.Modes.{network, named, line_at, tables}
use gitee_fork_gateway.Network.Told.{with_gateway, said, s_new_connect-Mode}

abbrev x : Surroundings
x = record { others = λ q. q; now = 100; later = 101; tables = λ s. [] }

abbrev unmarshal : Unmarshal
unmarshal js u = (false, u)

abbrev cfg : Configure
cfg = record empty_configure { host = "127.0.0.1" }

default_host_set : load_config {F = ℕ} (some 0) (λ f. some []) (λ bytes c. c) ≡ some cfg
unfolding load_config
default_host_set = refl

abbrev active : Name → String → Bool
active weixin s = false
active gate_way s = true
active web s = false
active app s = true
active web_socket s = true

abbrev inboxes : Name → Inbox DataWrapper
inboxes weixin = channel 1000 []
inboxes gate_way = queue 0 (record { deque = []; single = none; calltime = 0 })
inboxes web = queue 5 (record { deque = []; single = none; calltime = 0 })
inboxes app = queue 5 (record { deque = []; single = none; calltime = 0 })
inboxes web_socket = channel 100 []

gateway_data : to_broad_cast (network x unmarshal [] cfg) gate_way ≡ web ∷ app ∷ web_socket ∷ []
unfolding to_broad_cast main
gateway_data = refl

started :
    (main x unmarshal [] cfg).1
    ≡ goes web ∷ goes app ∷ goes weixin ∷ goes gate_way ∷ stays web_socket ∷ []
unfolding main
started = refl

reported :
    h_new_connect cfg "TTG1" (named (network x unmarshal [] cfg) active inboxes gate_way)
    ≡ some "?serial=TTG1&gateway_status=%!i(int=1)"
unfolding h_new_connect main get_serial
reported = refl

-- One piece of 40 bytes is held.
abbrev store : Store
store = record {
  pool = record empty_pool {
    mem_brick_list =
        record {
          addr = 0;
          alloc_bytes = replicate 80 0;
          alloc_piece_index = false ∷ true ∷ [];
          each_size = 40;
        }
        ∷ [];
    next_addr = 1;
  };
  entities = record { index = 0; ack_times = 1; brick = 0 } ∷ [];
}

store-IsSound : IsSound store
unfolding empty_pool
store-IsSound = record { valid = (omega arith, omega arith); whole = (refl, record {}) }

store-seen : seen store 0 ≡ some (replicate 40 0, 40)
unfolding seen row_at find_brick row load_mem empty_pool
store-seen = refl

app_differs : app ≢ weixin
app_differs e = ground arith

s_new_connect-Mode_example :
    (e : ℕ) × (s' : Store) × (inbox' : Inbox DataWrapper) × (s_new_connect x.others x.now x.later
        (tables (network x unmarshal [] cfg) active inboxes)
        (named (network x unmarshal [] cfg) active inboxes app)
        "TTG1"
        0
        store
        (line_at (network x unmarshal [] cfg) active inboxes app)
      ≡ some (s', with_gateway x unmarshal [] cfg active inboxes app inbox'))
    × Received
        (inboxes gate_way)
        inbox'
        "TTG1"
        (notice x.others x.now x.later e (said x unmarshal [] cfg active inboxes "TTG1") "TTG1")
    × Laid store s' e (said x unmarshal [] cfg active inboxes "TTG1")
unfolding SyncMap.load
s_new_connect-Mode_example =
    s_new_connect-Mode x unmarshal [] cfg active inboxes app "TTG1" 0 40 store (replicate 40 0)
      app_differs store-IsSound store-seen (omega arith) (record {})

abbrev from_web : DataWrapper
from_web = record {
  data_store = 0;
  data_length = 2;
  target_con_serial = "TTG1";
  udp_addr = none;
  self_id = "";
  create_unix_sec = 100;
}

broad_cast-Reached_example :
    (n' : Network) × (broad_cast x.others x.now (network x unmarshal [] cfg) web from_web ≡ some n')
    × Reached (network x unmarshal [] cfg) n' (targets web) from_web
unfolding inbox_of main SyncMap.load
broad_cast-Reached_example =
    broad_cast-Reached x unmarshal [] cfg x.others x.now (network x unmarshal [] cfg) web from_web
      (λ q. refl) (record {}, record {})

-- The server of the applications, with the observer of `main`; connection 5 has the serial.
abbrev doorman : Doorman
doorman = record {
  remote_addr = λ c. "10.0.0.1:9";
  others_map = alone;
  now = 100;
  write_conrution_size = 5;
  h_new_connect =
      λ serial. h_new_connect cfg serial (named (network x unmarshal [] cfg) active inboxes app);
  observer = some (λ serial s l.
      s_new_connect x.others x.now x.later (tables (network x unmarshal [] cfg) active inboxes)
        (named (network x unmarshal [] cfg) active inboxes app) serial 0 s l);
}

abbrev hall : Hall
hall = record {
  conns = record {
    closed = λ c. false;
    last_beat_send = [];
    monitor_cons = [];
    tcp_client_cons = record {
      deque = ("TTG1", conn 5) ∷ [];
      allow_dup = false;
      mtx = false;
      tms = 0;
    };
  };
  store = store;
  lines = line_at (network x unmarshal [] cfg) active inboxes app;
  reading = (5, "TTG1") ∷ [];
  writing = [];
  asked = [];
}

-- Connection 7 comes with the serial of connection 5, and the gateway is told.
new_come-Became_example :
    (s' : Store) × (l' : Lines) × ((((true && true) ≡ false)
        × (new_come doorman 7 true "TTG1" 0 true hall
            ≡ some (record hall { conns = close hall.conns 7 })))
      ⊎ (((true && true) ≡ true)
          × (◌≡◌ {A = ℕ} 0 1)
          × (t' : Conns) × (new_come doorman 7 true "TTG1" 0 true hall
              ≡ some (record hall { conns = t' }))
          × Watched hall.conns t' "TTG1" 7)
      ⊎ (((true && true) ≡ true)
          × (◌≢◌ {A = ℕ} 0 1)
          × (h' : Hall) × (new_come doorman 7 true "TTG1" 0 true hall ≡ some h')
          × Admitted doorman "TTG1" 7 (some 5) s' l' hall h'))
unfolding SyncMap.load entry_of
new_come-Became_example =
    let (e, s', inbox', told, _, _) =
      s_new_connect-Mode x unmarshal [] cfg active inboxes app "TTG1" 0 40 store (replicate 40 0)
        app_differs store-IsSound store-seen (omega arith) (record {}) in
    (
      s',
      with_gateway x unmarshal [] cfg active inboxes app inbox',
      new_come-Became doorman 7 true true "TTG1" 0 hall (some 5) s'
          (with_gateway x unmarshal [] cfg active inboxes app inbox') refl refl refl told,
    )
