-- ===== src/Tcp/Tests.antt =====
-- Runs of new/server_tcp.go's tables at concrete inputs.
use gitee_fork_gateway.Prelude.{
  ℕ, ◌≡◌, refl, false, some, none, [], ◌∷◌, String, arith, replicate, get_elem?, ltb, zero, suc,
  if◌then◌else◌,
}
use gitee_fork_gateway.NetConMap.{conn}
use gitee_fork_gateway.Tcp.{Conns, Routines, scale}
use gitee_fork_gateway.Tcp.Scale.{IsExact, scale-IsExact}

abbrev addr_of : ℕ → String
addr_of c = "10.0.0.1"

-- Connection 3 has the serial TTG1, and is watched by the monitor 4.
abbrev one_device : Conns
one_device = record {
  closed = λ c. false;
  last_beat_send = [];
  monitor_cons = ("TTG1", 4) ∷ [];
  tcp_client_cons = record {
    deque = ("TTG1", conn 3) ∷ [];
    allow_dup = false;
    mtx = false;
    tms = 0;
  };
}

-- The server before its first connection.
abbrev at_start : Routines
at_start = record {
  chan_routine_status = replicate 100 false;
  index = 0;
  num = 0;
  sample_time = 10;
}

grown_by_3 : (scale 350 20 20 at_start).index ≡ 3
unfolding scale
grown_by_3 = refl

all_false : (n k : ℕ) → get_elem? (replicate n false) k ≡ (if ltb k n then some (ltb k 0) else none)
all_false zero k = ground arith
all_false (suc n) zero = ground arith
all_false (suc n) (suc k) = ground (arith, all_false n k)

at_start-IsExact : IsExact at_start
at_start-IsExact = record { flags = (refl, λ k. all_false 100 k); next = omega arith }

scale-IsExact_example : IsExact (scale 350 20 20 at_start)
scale-IsExact_example = scale-IsExact 350 20 20 at_start at_start-IsExact
