-- ===== src/HandOut/Forward/Web/Tests.antt =====
-- A client's message of two bytes, for the gateway's server and a server that is not set up.
use gitee_fork_gateway.Prelude.{◌≡◌, refl, true, false, none, some, [], ◌∷◌, take, arith}
use gitee_fork_gateway.Brick.{load_mem}
use gitee_fork_gateway.Brick.Rows.{row}
use gitee_fork_gateway.Pool.{empty_pool, find_brick}
use gitee_fork_gateway.Pool.Slices.{row_at}
use gitee_fork_gateway.Dispatch.{channel, Server}
use gitee_fork_gateway.Entities.{Store, DataWrapper}
use gitee_fork_gateway.Entities.Seen.{IsSound, seen}
use gitee_fork_gateway.Parser.Pooled.{
  web_socket_parser, weixin_parser, UdpPackage, Unmarshal, deseries, empty_package,
}
use gitee_fork_gateway.HandOut.{Lines, Answer, hand_out}
use gitee_fork_gateway.HandOut.Forward.{Forwarded}
use gitee_fork_gateway.HandOut.Forward.Web.{web_hand_out-Forwarded, udp_hand_out-Forwarded}

abbrev store : Store
store = record {
  pool = record empty_pool {
    mem_brick_list =
        record {
          addr = 0;
          alloc_bytes = 65 ∷ 66 ∷ 67 ∷ 68 ∷ [];
          alloc_piece_index = false ∷ true ∷ [];
          each_size = 2;
        }
        ∷ [];
    next_addr = 1;
  };
  entities = record { index = 0; ack_times = 1; brick = 0 } ∷ [];
}

store-IsSound : IsSound store
unfolding empty_pool
store-IsSound = record { valid = (omega arith, omega arith); whole = (refl, record {}) }

store-seen : seen store 0 ≡ some (65 ∷ 66 ∷ [], 2)
unfolding seen row_at find_brick row load_mem empty_pool
store-seen = refl

abbrev gateway : Server DataWrapper
gateway = record { serial = "GATEWAY"; serial_is_activity = λ s. true; inbox = channel 2 [] }

abbrev lines : Lines
lines = record { inbox = channel 2 []; to_broad_cast = some gateway ∷ none ∷ [] }

web_hand_out-Forwarded_example :
    (a : Answer) × (l' : Lines) × (s' : Store) × (hand_out
        (λ q. q)
        100
        (web_socket_parser "TTG1")
        107
        lines
        store
        0
        2
        "TTG1"
        "10.0.0.1"
        none
      ≡ some (a, l', s'))
    × Forwarded (λ q. q) 100 lines l' s' 0 (65 ∷ 66 ∷ [], 2) "TTG1" none (take 2 (65 ∷ 66 ∷ []))
web_hand_out-Forwarded_example =
    web_hand_out-Forwarded (λ q. q) 100 107 lines store 0 2 2 (65 ∷ 66 ∷ []) "TTG1" "10.0.0.1"
      store-IsSound store-seen (omega arith) (omega arith) (omega arith) (omega arith, record {})

abbrev pkg : UdpPackage
pkg = record { message = "on"; type = "0"; serial = "TTG2"; from = "WX" }

abbrev unmarshal : Unmarshal
unmarshal js u = (true, pkg)

parsed : deseries unmarshal empty_package (65 ∷ 66 ∷ []) ≡ (true, pkg)
unfolding deseries
parsed = refl

udp_hand_out-Forwarded_example :
    (a : Answer) × (l' : Lines) × (s' : Store) × (hand_out
        (λ q. q)
        100
        (weixin_parser unmarshal)
        107
        lines
        store
        0
        2
        "WEIXIN"
        "10.0.0.1:80"
        (some "10.0.0.1:80")
      ≡ some (a, l', s'))
    × Forwarded
        (λ q. q)
        100
        lines
        l'
        s'
        0
        (65 ∷ 66 ∷ [], 2)
        "TTG2"
        (some "10.0.0.1:80")
        (take 2 (65 ∷ 66 ∷ []))
udp_hand_out-Forwarded_example =
    udp_hand_out-Forwarded (λ q. q) unmarshal 100 107 lines store 0 2 2 (65 ∷ 66 ∷ []) pkg "WEIXIN"
      "10.0.0.1:80" store-IsSound store-seen (omega arith) (omega arith) (omega arith) parsed
      (omega arith, record {})
