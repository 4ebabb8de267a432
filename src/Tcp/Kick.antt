-- ===== src/Tcp/Kick.antt =====
-- Who is registered under a serial after a connection comes or goes, where a serial has one
-- connection (`AllowDup` is false, as for every server of new/main.go).
use gitee_fork_gateway.Prelude.{
  ℕ, ◌≡◌, refl, ◌⊎◌, inl, inr, Bool, true, false, ◌||◌, Option, none, some, String, str_eq, ◌==◌,
  if◌then◌else◌, arith, Option-cases,
}
use gitee_fork_gateway.SyncMap.{SyncMap, load-store, load-store_self, load-delete}
use gitee_fork_gateway.SyncMap
use gitee_fork_gateway.NetConMap.{NetConMap, Value, conn, table}
use gitee_fork_gateway.NetConMap
use gitee_fork_gateway.NetConMap.View.{alone}
use gitee_fork_gateway.Tcp.{Conns, close, add_montitor, add_tcp_conn, remove_tcp_conn}

-- The connection that a serial has in the table.
abbrev pub registered : Conns → String → Option (Value ℕ)
registered t serial = SyncMap.load serial t.tcp_client_cons.deque

-- `t'` is `t` with the entry of one serial changed, and the connections of `shut` closed.
pub record Became (t t' : Conns) (serial : String) (entry : Option (Value ℕ)) (shut : ℕ → Bool)
    : Type 0 where
  pub single : t'.tcp_client_cons.allow_dup ≡ false
  pub entries : (s : String) → registered t' s ≡ (if str_eq serial s then entry else registered t s)
  pub flags : (c : ℕ) → t'.closed c ≡ (shut c || t.closed c)

module _ (remote_addr : ℕ → String) (now : ℕ) (t : Conns) (serial : String) (con : ℕ)
    (single : t.tcp_client_cons.allow_dup ≡ false) where
  -- A connection whose serial is free is registered, and none is closed.
  pub add_tcp_conn_free :
      registered t serial ≡ none
      → (t' : Conns) × (add_tcp_conn remote_addr alone now t serial con ≡ some t')
        × Became t t' serial (some (conn con)) (λ c. false)
  unfolding add_tcp_conn NetConMap.load_or_store SyncMap.load_or_store
  add_tcp_conn_free free = (
    record t {
      last_beat_send = SyncMap.store serial now t.last_beat_send;
      tcp_client_cons = record t.tcp_client_cons {
        deque = SyncMap.store serial (conn con) t.tcp_client_cons.deque;
      };
    },
    ground arith,
    record {
      single = single;
      entries = λ s. load-store serial s (conn con) t.tcp_client_cons.deque;
      flags = λ c. refl;
    },
  )

  -- A connection whose serial is taken is closed together with the one that has it, and the serial
  -- is free afterwards.
  pub add_tcp_conn_taken :
      (old : ℕ)
      → registered t serial ≡ some (conn old)
      → (t' : Conns) × (add_tcp_conn remote_addr alone now t serial con ≡ some t')
        × Became t t' serial none (λ c. c == con || c == old)
  unfolding add_tcp_conn NetConMap.load_or_store SyncMap.load_or_store NetConMap.delete close
  add_tcp_conn_taken old taken = (
    record t {
      closed = λ c. if c == old then true else (if c == con then true else t.closed c);
      last_beat_send = SyncMap.store serial now t.last_beat_send;
      tcp_client_cons = record t.tcp_client_cons {
        deque = SyncMap.delete serial t.tcp_client_cons.deque;
      };
    },
    ground arith,
    record {
      single = single;
      entries = λ s. load-delete serial s t.tcp_client_cons.deque;
      flags = λ c. ground arith;
    },
  )

  -- `removeTcpConn` removes the serial's entry, also where it is that of another connection than `con`,
  -- which came later. It closes no connection itself; the read routine closes its own afterwards.
  pub remove_tcp_conn-Became :
      Became t (remove_tcp_conn remote_addr t serial con) serial none (λ c. false)
  unfolding remove_tcp_conn NetConMap.delete
  remove_tcp_conn-Became = record {
    single = ground arith;
    entries = λ s. ground (arith, load-delete serial s t.tcp_client_cons.deque);
    flags = λ c. refl;
  }

-- The same for the table of monitors.
pub record Monitors (t t' : Conns) (serial : String) (entry : Option ℕ) (shut : ℕ → Bool)
    : Type 0 where
  pub monitors :
      (s : String)
      → SyncMap.load s t'.monitor_cons
        ≡ (if str_eq serial s then entry else SyncMap.load s t.monitor_cons)
  pub flags : (c : ℕ) → t'.closed c ≡ (shut c || t.closed c)
  pub clients : t'.tcp_client_cons ≡ t.tcp_client_cons

-- A second monitor of a serial is closed with the first, and the serial has none afterwards; the
-- first one is registered, and nothing is closed.
pub add_montitor-Monitors :
    (t : Conns) (serial : String) (con : ℕ)
    → ((SyncMap.load serial t.monitor_cons ≡ none)
        × Monitors t (add_montitor t serial con) serial (some con) (λ c. false))
      ⊎ ((old : ℕ) × (SyncMap.load serial t.monitor_cons ≡ some old)
          × Monitors t (add_montitor t serial con) serial none (λ c. c == con || c == old))
unfolding add_montitor SyncMap.load_or_store close
add_montitor-Monitors t serial con = elim (Option-cases (SyncMap.load serial t.monitor_cons)) [
  | inl e ↦ inl (
    e,
    record {
      monitors = λ s. ground (arith, load-store serial s con t.monitor_cons);
      flags = λ c. ground arith;
      clients = ground arith;
    },
  )
  | inr (old, e) ↦ inr (
    old,
    e,
    record {
      monitors = λ s. ground (arith, load-delete serial s t.monitor_cons);
      flags = λ c. ground arith;
      clients = ground arith;
    },
  )
]
