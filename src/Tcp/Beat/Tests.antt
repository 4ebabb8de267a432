-- ===== src/Tcp/Beat/Tests.antt =====
-- A round of heartbeats for two serials, of which one is due.
use gitee_fork_gateway.Prelude.{ℕ, ◌≡◌, refl, false, some, [], ◌∷◌, ◌++◌, String, ◌>>=◌}
use gitee_fork_gateway.SyncMap
use gitee_fork_gateway.NetConMap.{conn}
use gitee_fork_gateway.Tcp.{Conns}
use gitee_fork_gateway.Tcp.Beat.{beat_round}
use gitee_fork_gateway.Tcp.Beat.Due.{renewed, beats, beat_round_lem}

abbrev conns : Conns
conns = record {
  closed = λ c. false;
  last_beat_send = ("TTG1", 40) ∷ ("TTG2", 80) ∷ [];
  monitor_cons = [];
  tcp_client_cons = record {
    deque = ("TTG1", conn 5) ∷ ("TTG2", conn 6) ∷ [];
    allow_dup = false;
    mtx = false;
    tms = 0;
  };
}

due : beats conns.tcp_client_cons.deque (9 ∷ []) 60 100 conns.last_beat_send ≡ (5, 9 ∷ []) ∷ []
unfolding beats SyncMap.load
due = refl

beat_round_lem_example :
    (t' : Conns) × (beat_round (9 ∷ []) 60 100 conns []
      ≡ (t', [] ++ beats conns.tcp_client_cons.deque (9 ∷ []) 60 100 conns.last_beat_send))
    × ((s : String)
        → SyncMap.load s t'.last_beat_send
          ≡ (do v ← SyncMap.load s conns.last_beat_send; some (renewed 60 100 v)))
    × (t'.tcp_client_cons ≡ conns.tcp_client_cons)
    × ((c : ℕ) → t'.closed c ≡ conns.closed c)
beat_round_lem_example = beat_round_lem (9 ∷ []) 60 100 conns [] refl
