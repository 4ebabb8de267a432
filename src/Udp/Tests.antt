-- ===== src/Udp/Tests.antt =====
-- Two packets and two wrappers of a UDP server.
use gitee_fork_gateway.Prelude.{
  ℕ, ◌≡◌, refl, true, false, Option, none, some, [], ◌∷◌, String, List,
}
use gitee_fork_gateway.Brick.{store_mem}
use gitee_fork_gateway.Pool.{
  get_entity, write_brick, put_brick, full_release, empty_pool, find_brick, bytes,
}
use gitee_fork_gateway.Dispatch.{channel}
use gitee_fork_gateway.Entities.{Store, DataWrapper, slice, put_slice, acquire, free}
use gitee_fork_gateway.HandOut.{Lines, Parser}
use gitee_fork_gateway.Udp.{UdpServer, read_udp_data}
use gitee_fork_gateway.Udp.Addresses.{read_udp_data_map}

abbrev store : Store
store = record {
  pool = record empty_pool {
    mem_brick_list =
        record {
          addr = 0;
          alloc_bytes = 65 ∷ 66 ∷ 67 ∷ 68 ∷ [];
          alloc_piece_index = false ∷ true ∷ [];
          each_size = 2;
        }
        ∷ [];
    next_addr = 1;
  };
  entities = record { index = 0; ack_times = 2; brick = 0 } ∷ [];
}

abbrev udp : UdpServer
udp = record {
  udp_map = record { deque = []; allow_dup = false; mtx = false; tms = 0 };
  entities = store;
  sent = [];
}

abbrev lines : Lines
lines = record { inbox = channel 2 []; to_broad_cast = [] }

-- A parser that takes everything and answers nothing.
abbrev quiet : Parser
quiet = λ s src toself tocast n.
    some (record { s_size = 0; c_size = 0; serial = "TTG1"; beat = false; src_len = 0 }, s)

abbrev wrapper : DataWrapper
wrapper = record {
  data_store = 0;
  data_length = 1;
  target_con_serial = "TTG1";
  udp_addr = some "10.0.0.1:9";
  self_id = "";
  create_unix_sec = 100;
}

-- One packet of two bytes, and what the server is after it.
abbrev packet : List (Option (List ℕ × String))
packet = none ∷ some (82 ∷ 83 ∷ [], "10.0.0.1:9") ∷ []

abbrev after : Option (UdpServer × Lines)
after = read_udp_data (λ q. q) (λ m. m) quiet 100 100 0 packet udp lines

abbrev ran : UdpServer × Lines
ran = elim after [ none ↦ (udp, lines) | some r ↦ r ]

read_udp_data_map_example : (ran.0).udp_map ≡ udp.udp_map
unfolding read_udp_data slice put_slice acquire free bytes find_brick get_entity write_brick
    put_brick store_mem empty_pool full_release
read_udp_data_map_example =
    read_udp_data_map (λ q. q) (λ m. m) quiet 100 100 0 packet udp ran.0 lines ran.1 refl
