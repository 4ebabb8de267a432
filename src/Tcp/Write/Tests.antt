-- ===== src/Tcp/Write/Tests.antt =====
-- A round of the shared writers on a small server.
use gitee_fork_gateway.Prelude.{◌≡◌, refl, Bool, true, false, none, some, [], ◌∷◌, arith, replicate}
use gitee_fork_gateway.SyncMap
use gitee_fork_gateway.NetConMap.{conn}
use gitee_fork_gateway.NetConMap
use gitee_fork_gateway.Pool.{empty_pool, find_brick, bytes, release_onece}
use gitee_fork_gateway.QueueHandle.{QueueHandle, pop_data}
use gitee_fork_gateway.QueueHandle.Order.{IsOpen}
use gitee_fork_gateway.FifoQueue.{FifoQueue, single_handle, single_get}
use gitee_fork_gateway.Entities.{Store, DataWrapper, slice, release}
use gitee_fork_gateway.Tcp.{Conns}
use gitee_fork_gateway.Tcp.Write.{Io, Writer, write_data, write_data_share_pool}
use gitee_fork_gateway.Brick.{load_mem}
use gitee_fork_gateway.Brick.Rows.{row}
use gitee_fork_gateway.Pool.Slices.{row_at}
use gitee_fork_gateway.Entities.Seen.{IsSound, seen}
use gitee_fork_gateway.Crypt.{crypt_entity}
use gitee_fork_gateway.Tcp.Write.Sealed.{SentSealed, send_data-SentSealed}
use gitee_fork_gateway.Tcp.Write.Reach.{Delivery, write_data-Delivery}
use gitee_fork_gateway.Tcp.Write.Claims.{Settled, write_data_share_pool-Settled}

-- A pool of one brick of 2 pieces of 4 bytes, whose first piece is held by an entity of count 2.
abbrev store : Store
store = record {
  pool = record empty_pool {
    mem_brick_list =
        record {
          addr = 0;
          alloc_bytes = 65 ∷ 66 ∷ 67 ∷ 0 ∷ 0 ∷ 0 ∷ 0 ∷ 0 ∷ [];
          alloc_piece_index = false ∷ true ∷ [];
          each_size = 4;
        }
        ∷ [];
    next_addr = 1;
  };
  entities = record { index = 0; ack_times = 2; brick = 0 } ∷ [];
}

-- Connection 5 has the serial `TTG1`, and 6 watches it.
abbrev conns : Conns
conns = record {
  closed = λ c. false;
  last_beat_send = [];
  monitor_cons = ("TTG1", 6) ∷ [];
  tcp_client_cons = record {
    deque = ("TTG1", conn 5) ∷ [];
    allow_dup = false;
    mtx = false;
    tms = 0;
  };
}

abbrev io : Io
io = record { store = store; conns = conns; sent = [] }

abbrev wrapper : DataWrapper
wrapper = record {
  data_store = 0;
  data_length = 3;
  target_con_serial = "TTG1";
  udp_addr = none;
  self_id = "";
  create_unix_sec = 100;
}

abbrev writer : Writer
writer = record {
  crypt_inf = none;
  time_out_sec = 600;
  need_feed_back = true;
  write_conrution_size = 5;
  accepts = λ c text. true;
  now = 200;
  later = 200;
}

abbrev in_use : QueueHandle DataWrapper
in_use = record {
  de_queue = wrapper ∷ [];
  noti_fy = true;
  last_active_time = 100;
  mutex = false;
  status = true;
  free = false;
}

abbrev queue : FifoQueue DataWrapper
queue = record { deque = []; single = some in_use; calltime = 0 }

-- The connection and the monitor get the three bytes, and the count of the entity is one less.
round :
    write_data_share_pool (λ f. f) writer io queue
    ≡ some (
      record io {
        store = record store { entities = record { index = 0; ack_times = 1; brick = 0 } ∷ [] };
        sent = (5, 65 ∷ 66 ∷ 67 ∷ []) ∷ (6, 65 ∷ 66 ∷ 67 ∷ []) ∷ [];
      },
      record queue { single = some (record in_use { de_queue = []; last_active_time = 200 }) },
    )
unfolding write_data_share_pool single_get pop_data NetConMap.range SyncMap.load slice bytes release
    release_onece find_brick
round = refl

write_data-Delivery_example :
    (r : Bool) × (io' : Io) × (write_data writer io wrapper ≡ some (r, io'))
    × Delivery writer wrapper (65 ∷ 66 ∷ 67 ∷ []) io r io'
unfolding slice bytes find_brick
write_data-Delivery_example =
    write_data-Delivery writer wrapper io (65 ∷ 66 ∷ 67 ∷ 0 ∷ []) 4 refl refl refl (omega arith)

write_data_share_pool-Settled_example :
    (io' : Io) × (q' : FifoQueue DataWrapper) × (write_data_share_pool (λ f. f) writer io queue
      ≡ some (io', q'))
    × Settled writer wrapper [] io
        (record store { entities = record { index = 0; ack_times = 1; brick = 0 } ∷ [] })
        io'
        q'
    × IsOpen (single_handle q')
unfolding slice bytes release release_onece single_handle find_brick
write_data_share_pool-Settled_example =
    write_data_share_pool-Settled (λ f. f) writer io queue wrapper [] (65 ∷ 66 ∷ 67 ∷ 0 ∷ []) 4
      (record store { entities = record { index = 0; ack_times = 1; brick = 0 } ∷ [] }) refl refl
      (omega arith) (record { unlocked = refl; ready = refl; kept = refl }) refl refl (omega arith)
      refl

abbrev sealing : Writer
sealing = record writer { crypt_inf = some crypt_entity }

store-IsSound : IsSound store
unfolding empty_pool
store-IsSound = record { valid = (omega arith, omega arith); whole = (refl, record {}) }

store-seen : seen store 0 ≡ some (65 ∷ 66 ∷ 67 ∷ 0 ∷ [], 4)
unfolding seen row_at find_brick row load_mem empty_pool
store-seen = refl

send_data-SentSealed_example :
    SentSealed sealing wrapper io 5 (65 ∷ 66 ∷ 67 ∷ 0 ∷ []) (replicate 4 0)
send_data-SentSealed_example =
    send_data-SentSealed sealing wrapper io (65 ∷ 66 ∷ 67 ∷ 0 ∷ []) (replicate 4 0) 4 5 refl
      store-IsSound store-seen (omega arith) (omega arith)
      (omega arith, (omega arith, (omega arith, record {}))) (omega arith)
