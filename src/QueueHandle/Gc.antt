-- ===== src/QueueHandle/Gc.antt =====
-- `CanGc`.
use gitee_fork_gateway.Prelude.{ℕ, ◌+◌, ◌<◌, ◌≡◌, ◌⊎◌, true, false, none, some, arith}
use gitee_fork_gateway.QueueHandle.{QueueHandle, lock, size, can_gc}

-- `CanGc` never answers true: it answers false, unless the queue is initialised and has not been
-- used for 3000 seconds, and then it waits for the mutex that it holds itself, for ever.
pub can_gc_lem :
    {V : Type 0} (now : ℕ) (q : QueueHandle V)
    → q.mutex ≡ false
    → (((q.status ≡ true) × (q.last_active_time + 3000 < now)) × (can_gc now q ≡ none))
      ⊎ (((q.status ≡ false) ⊎ (now < q.last_active_time + 3001))
          × (can_gc now q ≡ some (false, q)))
unfolding can_gc size lock
can_gc_lem now q m = ground arith
