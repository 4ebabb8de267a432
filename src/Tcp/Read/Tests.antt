-- ===== src/Tcp/Read/Tests.antt =====
-- A connection that is lost, and a buffer of three bytes.
use gitee_fork_gateway.Prelude.{
  ℕ, Bool, ◌≡◌, refl, true, false, ◌==◌, Option, none, some, List, [], ◌∷◌, map, replicate, arith,
}
use gitee_fork_gateway.SyncMap
use gitee_fork_gateway.NetConMap.{conn}
use gitee_fork_gateway.NetConMap
use gitee_fork_gateway.Brick.{store_mem}
use gitee_fork_gateway.Bytes.{copy_loop, contains, remove_bytes, check_may_json}
use gitee_fork_gateway.Pool.{
  empty_pool, bytes, find_brick, get_entity, write_brick, put_brick, release_onece, full_release,
}
use gitee_fork_gateway.Dispatch.{channel}
use gitee_fork_gateway.Entities.{Store, acquire, slice, put_slice, release, free}
use gitee_fork_gateway.Parser.{parse}
use gitee_fork_gateway.Parser.Pooled.{tcp_parser}
use gitee_fork_gateway.Tcp.{close, remove_tcp_conn}
use gitee_fork_gateway.Tcp.Kick.{Became}
use gitee_fork_gateway.Tcp.Read.{
  Reader, Routine, Course, ends, fails, goes_on, parse_rounds, read_round, create_readroutine,
}
use gitee_fork_gateway.Tcp.Read.Ends.{plain, plain_rounds-IsBounded}
use gitee_fork_gateway.Tcp.Read.Rounds.{IsBounded}
use gitee_fork_gateway.Tcp.Read.Lost.{Answers, read_round-Became}

-- A brick of 2 pieces of 4 bytes; the buffer is the first.
abbrev store : Store
store = record {
  pool = record empty_pool {
    mem_brick_list =
        record {
          addr = 0;
          alloc_bytes = 65 ∷ 66 ∷ 67 ∷ 0 ∷ 0 ∷ 0 ∷ 0 ∷ 0 ∷ [];
          alloc_piece_index = false ∷ true ∷ [];
          each_size = 4;
        }
        ∷ [];
    next_addr = 1;
  };
  entities = record { index = 0; ack_times = 1; brick = 0 } ∷ [];
}

abbrev reader : Reader
reader = record {
  store = store;
  lines = record { inbox = channel 2 []; to_broad_cast = [] };
  conns = record {
    closed = λ c. false;
    last_beat_send = ("TTG1", 40) ∷ [];
    monitor_cons = [];
    tcp_client_cons = record {
      deque = ("TTG1", conn 5) ∷ [];
      allow_dup = false;
      mtx = false;
      tms = 0;
    };
  };
  sent = [];
  src_len = 3;
  asked = [];
}

abbrev routine : Routine
routine = record {
  con = 5;
  serial = "TTG1";
  remote_addr = λ c. "10.0.0.1:9";
  hd = 0;
  beat_ack = some (82 ∷ []);
  parser = λ s src toself tocast n. none;
  h_dis_connect = λ serial. none;
  s_dis_connect = λ s l. some (s, l);
  accepts = λ c text. true;
  others = λ q. q;
  now = 100;
  later = 100;
}

routine-Answers : Answers routine
routine-Answers s l = (s, l, refl)

read_round-Became_example :
    (r' : Reader) × (read_round 4 routine (68 ∷ []) true reader ≡ some (false, r'))
    × Became reader.conns r'.conns "TTG1" none (λ c. c == 5)
    × (SyncMap.load "TTG1" r'.conns.last_beat_send ≡ none)
    × (r'.sent ≡ reader.sent)
    × (r'.asked ≡ [])
unfolding slice bytes find_brick
read_round-Became_example =
    read_round-Became 4 routine (68 ∷ []) reader (65 ∷ 66 ∷ 67 ∷ 0 ∷ []) 4 refl refl (omega arith)
      routine-Answers

-- A reader whose pool has five free pieces of 1024 bytes.
abbrev roomy : Reader
roomy = record reader {
  store = record {
    pool = record empty_pool {
      mem_brick_list =
          record {
            addr = 0;
            alloc_bytes = replicate 5120 0;
            alloc_piece_index = replicate 5 true;
            each_size = 1024;
          }
          ∷ [];
      next_addr = 1;
    };
    entities = [];
  };
}

-- Three bytes wait, and `B` is the heartbeat.
plain_rounds-IsBounded_example :
    IsBounded (parse_rounds 4 (plain routine (66 ∷ [])) roomy)
    × (parse_rounds 12 (plain routine (66 ∷ [])) roomy
        ≡ parse_rounds 4 (plain routine (66 ∷ [])) roomy)
plain_rounds-IsBounded_example = plain_rounds-IsBounded routine 66 [] roomy 8

-- Is it over, what waits in the buffer, what was sent, is 5 closed, and which pieces are free.
abbrev outcome :
    Option (Bool × Reader) → Option (Bool × ℕ × List (ℕ × List ℕ) × Bool × List (List Bool))
outcome none = none
outcome (some (over, r)) = some (
  over,
  r.src_len,
  r.sent,
  r.conns.closed 5,
  map (λ m. m.alloc_piece_index) r.store.pool.mem_brick_list,
)

-- `AB`: the heartbeat is answered and `A` waits for more; then the connection is lost, and all pieces
-- are free.
lost_again :
    outcome (
      create_readroutine 4
        (plain routine (66 ∷ []))
        ((65 ∷ 66 ∷ [], false) ∷ ([], true) ∷ [])
        roomy)
    ≡ some (true, 1, (5, 82 ∷ []) ∷ [], true, replicate 5 true ∷ [])
unfolding create_readroutine acquire get_entity slice bytes find_brick empty_pool put_slice
    write_brick put_brick store_mem release release_onece full_release free tcp_parser copy_loop
    contains remove_bytes check_may_json close remove_tcp_conn NetConMap.delete parse
lost_again = refl

-- Does the loop reach its bound?
abbrev reaches_bound : Course → Bool
reaches_bound (ends r) = false
reaches_bound fails = false
reaches_bound (goes_on r) = true

-- A parser that has a heartbeat in every round and takes nothing from the buffer never ends the loop.
busy_loop :
    reaches_bound (
      parse_rounds 3
        (record routine {
          parser = λ s src toself tocast n.
              some (record { s_size = 0; c_size = 0; serial = ""; beat = true; src_len = n }, s);
        })
        roomy)
    ≡ true
unfolding parse_rounds acquire get_entity bytes find_brick empty_pool free full_release put_brick
busy_loop = refl
