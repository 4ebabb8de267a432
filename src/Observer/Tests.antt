-- ===== src/Observer/Tests.antt =====
-- A connection of the application's server, which has the gateway and the WebSocket server as peers.
use gitee_fork_gateway.Prelude.{ℕ, ◌≡◌, refl, true, false, some, [], ◌∷◌, replicate, arith}
use gitee_fork_gateway.Pool.{empty_pool, find_brick}
use gitee_fork_gateway.Dispatch.{Update, channel, Server}
use gitee_fork_gateway.Entities.{Store, DataWrapper}
use gitee_fork_gateway.HandOut.{Lines}
use gitee_fork_gateway.Observer.{Named, update_bytes, message_for, s_new_connect, s_dis_connect}
use gitee_fork_gateway.Observer.Laid.{Laid}
use gitee_fork_gateway.Entities.Seen.{IsSound, seen}
use gitee_fork_gateway.Pool.Slices.{row_at}
use gitee_fork_gateway.Brick.{load_mem}
use gitee_fork_gateway.Brick.Rows.{row}
use gitee_fork_gateway.Observer.Told.{Passed, s_new_connect-Told}

-- A pool of one brick of 2 pieces of 40 bytes, whose first piece is held.
abbrev store : Store
store = record {
  pool = record empty_pool {
    mem_brick_list =
        record {
          addr = 0;
          alloc_bytes = replicate 80 0;
          alloc_piece_index = false ∷ true ∷ [];
          each_size = 40;
        }
        ∷ [];
    next_addr = 1;
  };
  entities = record { index = 0; ack_times = 1; brick = 0 } ∷ [];
}

abbrev gateway : Server DataWrapper
gateway = record { serial = "GATEWAY"; serial_is_activity = λ s. true; inbox = channel 2 [] }

abbrev sockets : Server DataWrapper
sockets = record { serial = "WEBSOCKET"; serial_is_activity = λ s. true; inbox = channel 0 [] }

abbrev lines : Lines
lines = record { inbox = channel 2 []; to_broad_cast = some gateway ∷ some sockets ∷ [] }

abbrev app : Named
app = record { name = "APP"; serial_is_activity = λ s. true }

store-IsSound : IsSound store
unfolding empty_pool
store-IsSound = record { valid = (omega arith, omega arith); whole = (refl, record {}) }

store-seen : seen store 0 ≡ some (replicate 40 0, 40)
unfolding seen row_at find_brick row load_mem empty_pool
store-seen = refl

-- The application and a web client have the serial.
s_new_connect-Told_example :
    (u : Update) × (e : ℕ) × (s' : Store) × (l' : Lines) × (message_for (λ n. []) app lines "TTG1"
      ≡ some (update_bytes u))
    × (s_new_connect (λ q. q) 100 100 (λ n. []) app "TTG1" 0 store lines ≡ some (s', l'))
    × Laid store s' e (update_bytes u)
    × Passed (λ q. q) 100 100 app "TTG1" e (update_bytes u) lines l'
    × (s_dis_connect (λ q. q) 100 100 (λ n. []) app "TTG1" 0 store lines ≡ some (s', l'))
s_new_connect-Told_example =
    s_new_connect-Told (λ q. q) 100 100 (λ n. []) app "TTG1" 0 40 store lines (replicate 40 0)
      (λ name. record {}) store-IsSound store-seen (omega arith) (λ g. absurd (ground arith))
      ((λ g. omega arith), ((λ g. absurd (ground arith)), record {}))
