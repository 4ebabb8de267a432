-- ===== src/WebSocket/Tests.antt =====
-- The WebSocket server on small tables.
use gitee_fork_gateway.Prelude.{
  ℕ, ◌+◌, ◌≡◌, ◌≤◌, ◌<◌, ◌⊎◌, refl, true, false, Option, none, some, List, [], ◌∷◌, drop, ◌>>=◌,
  arith,
}
use gitee_fork_gateway.SyncMap
use gitee_fork_gateway.NetConMap.{conn}
use gitee_fork_gateway.NetConMap.View.{alone}
use gitee_fork_gateway.Brick.{store_mem}
use gitee_fork_gateway.Pool.{
  empty_pool, find_brick, bytes, brick_of, write_brick, put_brick, release_onece,
}
use gitee_fork_gateway.Bytes.{copy_loop, prefix}
use gitee_fork_gateway.Entities.{Store, DataWrapper, slice, put_slice, release}
use gitee_fork_gateway.WebSocket.{
  Sockets, close, Hello, device, wread, hello, register, leave, write_round,
}
use gitee_fork_gateway.WebSocket.Register.{
  Became, holder, is_conn, register-Became, register_then_leave,
}
use gitee_fork_gateway.WebSocket.Receive.{wread_lem, write_round_lem}

-- One piece of 12 bytes, held by entity 0.
abbrev entities : Store
entities = record {
  pool = record empty_pool {
    mem_brick_list =
        record {
          addr = 0;
          alloc_bytes = 1 ∷ 2 ∷ 3 ∷ 4 ∷ 5 ∷ 6 ∷ 7 ∷ 8 ∷ 9 ∷ 10 ∷ 11 ∷ 12 ∷ [];
          alloc_piece_index = false ∷ [];
          each_size = 12;
        }
        ∷ [];
    next_addr = 1;
  };
  entities = record { index = 0; ack_times = 1; brick = 0 } ∷ [];
}

-- Connection 5 has `TTG_1`.
abbrev sockets : Sockets
sockets = record {
  map = record { deque = ("TTG_1", conn 5) ∷ []; allow_dup = false; mtx = false; tms = 0 };
  closed = λ c. false;
  sent = [];
  entities = entities;
}

abbrev wrapper : DataWrapper
wrapper = record {
  data_store = 0;
  data_length = 3;
  target_con_serial = "TTG_1";
  udp_addr = none;
  self_id = "10.0.0.1:80";
  create_unix_sec = 100;
}

abbrev outcome : Option (Hello × Sockets) → Option (Hello × List (ℕ × List ℕ))
outcome none = none
outcome (some (h, w)) = some (h, w.sent)

-- The first message `TTG_1` is answered by `WEB_ACCEPT`.
accepted :
    outcome (hello sockets 7 0 (some (84 ∷ 84 ∷ 71 ∷ 95 ∷ 49 ∷ [])))
    ≡ some (
      device (84 ∷ 84 ∷ 71 ∷ 95 ∷ 49 ∷ []),
      (7, 87 ∷ 69 ∷ 66 ∷ 95 ∷ 65 ∷ 67 ∷ 67 ∷ 69 ∷ 80 ∷ 84 ∷ []) ∷ [],
    )
unfolding hello slice bytes find_brick put_slice brick_of write_brick put_brick store_mem copy_loop
    prefix
accepted = refl

register-Became_example :
    (w' : Sockets) × (register alone sockets "TTG_1" "10.0.0.2:80" 7 ≡ some w')
    × Became sockets w' "TTG_1" (some (conn 7)) (is_conn (holder sockets "TTG_1"))
register-Became_example = register-Became sockets "TTG_1" "10.0.0.2:80" 7 refl

register_then_leave_example :
    (w' : Sockets) × (register alone sockets "TTG_1" "10.0.0.2:80" 7 ≡ some w')
    × (holder (close (leave w' "TTG_1" "10.0.0.1:80") 5) "TTG_1" ≡ none)
    × ((close (leave w' "TTG_1" "10.0.0.1:80") 5).closed 7 ≡ false)
unfolding SyncMap.load
register_then_leave_example =
    register_then_leave sockets "TTG_1" "10.0.0.1:80" "10.0.0.2:80" 5 7 refl refl (omega arith)

abbrev piece : List ℕ
piece = 1 ∷ 2 ∷ 3 ∷ 4 ∷ 5 ∷ 6 ∷ 7 ∷ 8 ∷ 9 ∷ 10 ∷ 11 ∷ 12 ∷ []

wread_lem_example :
    ((3 < 12)
      × (wread entities 0 (some (84 ∷ 84 ∷ 71 ∷ [])) ≡ (
          put_slice entities 0 (84 ∷ 84 ∷ 71 ∷ 0 ∷ drop (3 + 1) piece) >>= λ s'.
          some (some 3, s'))))
    ⊎ ((12 ≤ 3) × (wread entities 0 (some (84 ∷ 84 ∷ 71 ∷ [])) ≡ none))
unfolding slice bytes find_brick
wread_lem_example = wread_lem entities 0 (84 ∷ 84 ∷ 71 ∷ []) piece 12 refl

-- The piece is free after the only release.
abbrev freed : Store
freed = record {
  pool = record entities.pool {
    mem_brick_list =
        record { addr = 0; alloc_bytes = piece; alloc_piece_index = true ∷ []; each_size = 12 }
        ∷ [];
  };
  entities = record { index = 0; ack_times = 0; brick = 0 } ∷ [];
}

write_round_lem_example :
    write_round 600 200 sockets wrapper
    ≡ some (record sockets { entities = freed; sent = (5, 1 ∷ 2 ∷ 3 ∷ []) ∷ [] })
unfolding SyncMap.load slice bytes find_brick release release_onece put_brick empty_pool
write_round_lem_example =
    write_round_lem 600 200 sockets wrapper piece 12 freed refl refl (omega arith) refl
