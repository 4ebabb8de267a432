-- ===== src/WebSocket/Register.antt =====
-- Who has a serial on the WebSocket server, where a serial has one connection (as new/main.go sets).
use gitee_fork_gateway.Prelude.{
  ℕ, ◌≡◌, ◌≢◌, refl, ◌∙◌, Bool, true, false, ◌||◌, Option, none, some, String, str_eq, str_eq_iff,
  ◌==◌, if◌then◌else◌, arith,
}
use gitee_fork_gateway.SyncMap.{SyncMap, load-store, load-delete}
use gitee_fork_gateway.SyncMap
use gitee_fork_gateway.NetConMap.{NetConMap, Value, conn, table}
use gitee_fork_gateway.NetConMap
use gitee_fork_gateway.NetConMap.View.{alone}
use gitee_fork_gateway.WebSocket.{Sockets, close, register, leave}

abbrev pub holder : Sockets → String → Option (Value ℕ)
holder w serial = SyncMap.load serial w.map.deque

-- Is `c` the connection of an entry?
abbrev pub is_conn : Option (Value ℕ) → ℕ → Bool
is_conn none c = false
is_conn (some (conn old)) c = c == old
is_conn (some (table mp)) c = false

-- `w'` is `w` with the entry of one serial changed and some connections closed.
pub record Became (w w' : Sockets) (serial : String) (entry : Option (Value ℕ)) (shut : ℕ → Bool)
    : Type 0 where
  pub single : w'.map.allow_dup ≡ false
  pub entries : (s : String) → holder w' s ≡ (if str_eq serial s then entry else holder w s)
  pub flags : (c : ℕ) → w'.closed c ≡ (shut c || w.closed c)

register_found :
    (w : Sockets) (serial addr : String) (ws : ℕ) (found : Option (Value ℕ))
    → w.map.allow_dup ≡ false
    → holder w serial ≡ found
    → (w' : Sockets) × (register alone w serial addr ws ≡ some w')
      × Became w w' serial (some (conn ws)) (is_conn found)
unfolding register close NetConMap.load_or_store NetConMap.store SyncMap.load_or_store
register_found w serial addr ws none single e = (
  record w { map = record w.map { deque = SyncMap.store serial (conn ws) w.map.deque } },
  ground arith,
  record {
    single = single;
    entries = λ s. load-store serial s (conn ws) w.map.deque;
    flags = λ c. refl;
  },
)
register_found w serial addr ws (some (conn old)) single e = (
  record w {
    map = record w.map { deque = SyncMap.store serial (conn ws) w.map.deque };
    closed = λ c. if c == old then true else w.closed c;
  },
  ground arith,
  record {
    single = single;
    entries = λ s. load-store serial s (conn ws) w.map.deque;
    flags = λ c. ground arith;
  },
)
register_found w serial addr ws (some (table mp)) single e = (
  record w { map = record w.map { deque = SyncMap.store serial (conn ws) w.map.deque } },
  ground arith,
  record {
    single = single;
    entries = λ s. load-store serial s (conn ws) w.map.deque;
    flags = λ c. refl;
  },
)

-- Where a serial has one connection and no other goroutine is in between, the registration of a
-- connection returns; the serial is the connection's afterwards, whoever had it, the connection that
-- had it is closed, and no other entry or connection changes.
pub register-Became :
    (w : Sockets) (serial addr : String) (ws : ℕ)
    → w.map.allow_dup ≡ false
    → (w' : Sockets) × (register alone w serial addr ws ≡ some w')
      × Became w w' serial (some (conn ws)) (is_conn (holder w serial))
register-Became w serial addr ws single =
    register_found w serial addr ws (holder w serial) single refl

leave-Became :
    (w : Sockets) (serial addr : String) (ws : ℕ)
    → w.map.allow_dup ≡ false
    → Became w (close (leave w serial addr) ws) serial none (λ c. c == ws)
unfolding leave close NetConMap.delete
leave-Became w serial addr ws single = record {
  single = ground arith;
  entries = λ s. ground (arith, load-delete serial s w.map.deque);
  flags = λ c. ground arith;
}

-- Where a connection `ws` takes the serial of another one, `old`, and then the handler of `old` ends
-- and closes it, the serial has no connection any more, although `ws` is as open as it was.
pub register_then_leave :
    (w : Sockets) (serial addr addr' : String) (old ws : ℕ)
    → w.map.allow_dup ≡ false
    → holder w serial ≡ some (conn old)
    → ws ≢ old
    → (w' : Sockets) × (register alone w serial addr' ws ≡ some w')
      × (holder (close (leave w' serial addr) old) serial ≡ none)
      × ((close (leave w' serial addr) old).closed ws ≡ w.closed ws)
register_then_leave w serial addr addr' old ws single e ne =
    let (w', r, b) = register_found w serial addr' ws (some (conn old)) single e in
    let l = leave-Became w' serial addr old b.single in
    (
      w',
      r,
      l.entries serial ∙ ground (arith, str_eq_iff serial serial),
      l.flags ws ∙ ground (arith, b.flags ws),
    )
