-- ===== src/FifoQueue/Sweep.antt =====
-- `Get`: the front of a serial's queue, and the collection of every 1000th call.
use gitee_fork_gateway.Prelude.{
  ℕ, ◌+◌, ◌%◌, ◌^◌, ◌<◌, ◌≤◌, ◌≡◌, refl, ◌⊎◌, inl, inr, true, false, Option, none, some, List, [],
  ◌∷◌, ◌++◌, String, if◌then◌else◌, arith, Option-cases, >>=-none,
}
use gitee_fork_gateway.SyncMap.{SyncMap, load-store, load-store_self}
use gitee_fork_gateway.SyncMap
use gitee_fork_gateway.QueueHandle.{QueueHandle, pop_data, can_gc, set_free, lock, size}
use gitee_fork_gateway.QueueHandle.Order.{IsOpen, pop_data-open}
use gitee_fork_gateway.FifoQueue.{
  FifoQueue, put_handle, get, collect_idle, scan_gc, delete_captured,
}
use gitee_fork_gateway.FifoQueue.Puts.{Changed, put_handle-Changed}

-- The handle has been used, and not for 3000 seconds.
pub record IsStale {ℓ} {V : Type ℓ} (now : ℕ) (q : QueueHandle V) : Type ℓ where
  pub ready : q.status ≡ true
  pub old : q.last_active_time + 3000 < now

-- Nobody holds the mutex, and the handle is not used yet or was used in the last 3000 seconds.
pub record IsFresh {ℓ} {V : Type ℓ} (now : ℕ) (q : QueueHandle V) : Type ℓ where
  pub unlocked : q.mutex ≡ false
  pub recent : (q.status ≡ false) ⊎ (now ≤ q.last_active_time + 3000)

module _ {V : Type 0} where
  can_gc-stale : (now : ℕ) (q : QueueHandle V) → IsStale now q → can_gc now q ≡ none
  unfolding can_gc lock size
  can_gc-stale now q s = ground arith

  can_gc-fresh : (now : ℕ) (q : QueueHandle V) → IsFresh now q → can_gc now q ≡ some (false, q)
  unfolding can_gc lock size
  can_gc-fresh now q s = ground arith

  scan_blocks :
      (now : ℕ) (before after : SyncMap (QueueHandle V)) (name : String) (q : QueueHandle V)
      → IsStale now q
      → scan_gc now (before ++ (name, q) ∷ after) ≡ none
  unfolding scan_gc
  scan_blocks now [] after name q s = rw (can_gc-stale now q s)
  scan_blocks now ((k, p) ∷ before) after name q s = elim (Option-cases (can_gc now p)) [
    | inl e ↦ rw e
    | inr (r, e) ↦
        rw (e, scan_blocks now before after name q s)
          (>>=-none (if r.0 then set_free r.1 else some r.1))
  ]

  -- At a call whose count is a multiple of 1000, `Get` never returns, whatever serial is asked for,
  -- if a handle of the queue is stale.
  pub get_blocks :
      (now : ℕ) (f : FifoQueue V) (serial : String) (before after : SyncMap (QueueHandle V))
      (name : String) (q : QueueHandle V)
      → (f.calltime + 1) % 2 ^ 64 % 1000 ≡ 0
      → f.deque ≡ before ++ (name, q) ∷ after
      → IsStale now q
      → get now f serial ≡ none
  unfolding get collect_idle
  get_blocks now f serial before after name q due e s =
      ground (arith, scan_blocks now before after name q s)

  abbrev pub AllFresh : ℕ → SyncMap (QueueHandle V) → Type 0
  AllFresh now [] = Unit
  AllFresh now ((k, q) ∷ m) = IsFresh now q × AllFresh now m

  scan-fresh :
      (now : ℕ) (m : SyncMap (QueueHandle V)) → AllFresh now m → scan_gc now m ≡ some (m, [])
  unfolding scan_gc
  scan-fresh now [] a = refl
  scan-fresh now ((k, q) ∷ m) a = rw (can_gc-fresh now q a.0, scan-fresh now m a.1)

  -- Where no handle is stale the collection changes nothing.
  collect_idle-fresh :
      (now : ℕ) (f : FifoQueue V) → AllFresh now f.deque → collect_idle now f ≡ some f
  unfolding collect_idle delete_captured
  collect_idle-fresh now f a = ground (arith, scan-fresh now f.deque a)

  get-popped :
      (now : ℕ) (f f1 : FifoQueue V) (serial : String) (q q' : QueueHandle V) (r : Option V)
      → collect_idle now (record f { calltime = (f.calltime + 1) % 2 ^ 64 }) ≡ some f1
      → SyncMap.load serial f1.deque ≡ some q
      → pop_data now q ≡ some (r, q')
      → get now f serial ≡ some (r, put_handle f1 serial q')
  unfolding get
  get-popped now f f1 serial q q' r c e p = ground arith

  -- Where no handle is stale, `Get` for a serial with an open queue that is not empty returns its
  -- front, at every count of calls, and removes it; the other serials' queues stay as they were.
  pub get_front :
      (now : ℕ) (f : FifoQueue V) (serial : String) (q : QueueHandle V) (v : V) (vs : List V)
      → AllFresh now f.deque
      → SyncMap.load serial f.deque ≡ some q
      → IsOpen q
      → q.de_queue ≡ v ∷ vs
      → (f' : FifoQueue V) × (get now f serial ≡ some (some v, f')) × Changed f f' serial vs
  get_front now f serial q v vs a e o c = (
    put_handle counted serial rest,
    get-popped now f counted serial q rest (some v) (collect_idle-fresh now counted a) e
        (pop_data-open now q v vs o c),
    record { queues = ch.queues; open_after = ch.open_after },
  )
    where
      counted : FifoQueue V
      counted = record f { calltime = (f.calltime + 1) % 2 ^ 64 }

      rest : QueueHandle V
      rest = record q { de_queue = vs; last_active_time = now }

      ch : Changed counted (put_handle counted serial rest) serial vs
      ch =
          put_handle-Changed counted serial rest
            (record { unlocked = o.unlocked; ready = o.ready; kept = o.kept })
