-- ===== src/Relay/Tests.antt =====
-- A WebSocket client's message of two bytes for the device `TTG1`, which is connection 5.
use gitee_fork_gateway.Prelude.{true, false, none, [], ◌∷◌}
use gitee_fork_gateway.SyncMap
use gitee_fork_gateway.NetConMap.{conn}
use gitee_fork_gateway.Pool.{empty_pool}
use gitee_fork_gateway.FifoQueue.{FifoQueue}
use gitee_fork_gateway.Dispatch.{Server, queue}
use gitee_fork_gateway.Entities.{Store, DataWrapper}
use gitee_fork_gateway.Tcp.{Conns}
use gitee_fork_gateway.Tcp.Write.{Writer}

abbrev store : Store
store = record {
  pool = record empty_pool {
    mem_brick_list =
        record {
          addr = 0;
          alloc_bytes = 65 ∷ 66 ∷ 67 ∷ 68 ∷ [];
          alloc_piece_index = false ∷ true ∷ [];
          each_size = 2;
        }
        ∷ [];
    next_addr = 1;
  };
  entities = record { index = 0; ack_times = 1; brick = 0 } ∷ [];
}

abbrev empty_queue : FifoQueue DataWrapper
empty_queue = record { deque = []; single = none; calltime = 999 }

abbrev gateway : Server DataWrapper
gateway = record { serial = "GATEWAY"; serial_is_activity = λ s. true; inbox = queue 0 empty_queue }

abbrev conns : Conns
conns = record {
  closed = λ c. false;
  last_beat_send = [];
  monitor_cons = [];
  tcp_client_cons = record {
    deque = ("TTG1", conn 5) ∷ [];
    allow_dup = false;
    mtx = false;
    tms = 0;
  };
}

abbrev writer : Writer
writer = record {
  crypt_inf = none;
  time_out_sec = 600;
  need_feed_back = true;
  write_conrution_size = 0;
  accepts = λ c text. true;
  now = 105;
  later = 105;
}
