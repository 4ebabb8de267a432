-- ===== src/WebSocket/Handle/Tests.antt =====
-- A connection from its first message to its end.
use gitee_fork_gateway.Prelude.{
  ℕ, ◌≡◌, refl, Bool, true, false, Option, none, some, List, [], ◌∷◌, replicate,
}
use gitee_fork_gateway.SyncMap.{SyncMap}
use gitee_fork_gateway.SyncMap
use gitee_fork_gateway.NetConMap
use gitee_fork_gateway.Brick.{store_mem}
use gitee_fork_gateway.Bytes.{copy_loop, prefix}
use gitee_fork_gateway.Entities.{acquire, slice, put_slice, free}
use gitee_fork_gateway.NetConMap.{Value, conn}
use gitee_fork_gateway.NetConMap.View.{alone}
use gitee_fork_gateway.Pool.{
  empty_pool, get_entity, bytes, find_brick, full_release, put_brick, write_brick,
}
use gitee_fork_gateway.Dispatch.{channel}
use gitee_fork_gateway.HandOut.{Lines}
use gitee_fork_gateway.WebSocket.{Sockets, hello}
use gitee_fork_gateway.WebSocket.Handle.{Handler, web_sock_handle}

-- Connection 5 has `TTG_1`.
abbrev sockets : Sockets
sockets = record {
  map = record { deque = ("TTG_1", conn 5) ∷ []; allow_dup = false; mtx = false; tms = 0 };
  closed = λ c. false;
  sent = [];
  entities = record {
    pool = record empty_pool {
      mem_brick_list =
          record {
            addr = 0;
            alloc_bytes = replicate 3072 0;
            alloc_piece_index = true ∷ true ∷ true ∷ [];
            each_size = 1024;
          }
          ∷ [];
      next_addr = 1;
    };
    entities = [];
  };
}

abbrev lines : Lines
lines = record { inbox = channel 2 []; to_broad_cast = [] }

-- No observer, and a parser that answers nothing.
abbrev handler : Handler
handler = record {
  ws = 7;
  req_addr = "10.0.0.1:80";
  to_text = λ text. "TTG_1";
  parser = λ serial s src toself tocast n.
      some (record { s_size = 0; c_size = 0; serial = serial; beat = false; src_len = 0 }, s);
  s_new_connect = λ serial e s l. some (s, l);
  s_dis_connect = λ serial e s l. some (s, l);
  others = λ q. q;
  others_map = alone;
  now = 100;
  later = 100;
}

-- Is it over, what was sent, which of 5 and 7 is closed, and the table.
abbrev outcome :
    Option (Bool × Sockets × Lines)
    → Option (Bool × List (ℕ × List ℕ) × Bool × Bool × SyncMap (Value ℕ))
outcome none = none
outcome (some (over, w, l)) = some (over, w.sent, w.closed 5, w.closed 7, w.map.deque)

abbrev ttg : Option (List ℕ)
ttg = some (84 ∷ 84 ∷ 71 ∷ 95 ∷ 49 ∷ [])

-- A message that is too short: closed, and the table as it was.
refused_short :
    outcome (web_sock_handle handler (some (84 ∷ 84 ∷ [])) [] sockets lines)
    ≡ some (true, [], false, true, ("TTG_1", conn 5) ∷ [])
unfolding web_sock_handle acquire get_entity hello slice bytes find_brick empty_pool copy_loop
    put_slice free full_release put_brick store_mem
refused_short = refl

-- Accepted, and one message later the end.
served :
    outcome (web_sock_handle handler ttg (some (65 ∷ []) ∷ none ∷ []) sockets lines)
    ≡ some (true, (7, 87 ∷ 69 ∷ 66 ∷ 95 ∷ 65 ∷ 67 ∷ 67 ∷ 69 ∷ 80 ∷ 84 ∷ []) ∷ [], true, true, [])
unfolding web_sock_handle acquire get_entity hello slice bytes find_brick empty_pool copy_loop
    put_slice free full_release put_brick store_mem prefix write_brick NetConMap.load_or_store
    SyncMap.load_or_store NetConMap.store NetConMap.delete SyncMap.delete
served = refl
