-- ===== src/FifoQueue.antt =====
-- `FifoQueue` of new/fifo_queue.go: a queue for each serial, and one that all share. A handle is
-- shared through the map, so that a change of it is a change of its entry. `none` is a call that
-- waits for ever.
pub mod Puts
pub mod Sweep
pub mod Fresh
mod Tests
use gitee_fork_gateway.Prelude.{
  ℕ, zero, suc, ◌+◌, ◌%◌, ◌^◌, Bool, true, false, Option, none, some, List, [], ◌∷◌, ◌++◌, String,
  str_eq, ◌==◌, not, if◌then◌else◌, ◌>>=◌,
}
use gitee_fork_gateway.SyncMap.{SyncMap}
use gitee_fork_gateway.SyncMap
use gitee_fork_gateway.QueueHandle.{QueueHandle, new_handle, add_data, pop_data, can_gc, set_free}

pub record FifoQueue {ℓ} (V : Type ℓ) : Type ℓ where
  pub deque : SyncMap (QueueHandle V)
  pub single : Option (QueueHandle V)
  pub calltime : ℕ

module _ {ℓ} {V : Type ℓ} where
  -- The object behind the handle of a serial after a change.
  unfoldable pub put_handle : FifoQueue V → String → QueueHandle V → FifoQueue V
  put_handle f serial q = record f { deque = SyncMap.store serial q f.deque }

  -- The `Range` at the end of `Put`: `AddData` on the handle of the serial, if it is there.
  unfoldable pub range_add : ℕ → FifoQueue V → String → V → Option (FifoQueue V)
  range_add now f serial v = elim (SyncMap.load serial f.deque) [
    | none ↦ some f
    | some q ↦ (do r ← add_data now q v; some (put_handle f serial r.1))
  ]

  -- `Put` calls itself after a sleep in which the other goroutines run, and then goes on to its
  -- `Range`. The fuel bounds the depth of these calls; `none` at its end.
  unfoldable pub put :
      ℕ → (FifoQueue V → FifoQueue V) → ℕ → FifoQueue V → String → V → Option (FifoQueue V)
  put zero others now f serial v = none
  put (suc fuel) others now f serial v =
      let retry = λ (g : FifoQueue V). put fuel others now g serial v in
      let ((q, ok), deque') = SyncMap.load_or_store serial new_handle f.deque in
      let f' : FifoQueue V = record f { deque = deque' } in
      if ok
      then (do
        r ← add_data now q v
        let g = put_handle f' serial r.1
        if r.0 then some g else (retry (others g) >>= λ g'. range_add now g' serial v))
      else range_add now f' serial v

  -- The scan of `Get`: the handles that `CanGc` answers true for are captured and marked free.
  unfoldable pub scan_gc :
      ℕ → SyncMap (QueueHandle V) → Option (SyncMap (QueueHandle V) × List String)
  scan_gc now [] = some ([], [])
  scan_gc now ((name, q) ∷ rest) = do
    (idle, q1) ← can_gc now q
    q2 ← (if idle then set_free q1 else some q1)
    (rest', capture) ← scan_gc now rest
    some ((name, q2) ∷ rest', if idle then name ∷ capture else capture)

  unfoldable pub delete_captured : List String → SyncMap (QueueHandle V) → SyncMap (QueueHandle V)
  delete_captured [] m = m
  delete_captured (nk ∷ capture) m =
      delete_captured capture (if not (str_eq nk "") then SyncMap.delete nk m else m)

  -- The collection of every 1000th call.
  unfoldable pub collect_idle : ℕ → FifoQueue V → Option (FifoQueue V)
  unfolding scan_gc delete_captured
  collect_idle now f =
      if f.calltime % 1000 == 0
      then (do
        (deque', capture) ← scan_gc now f.deque
        some (record f { deque = delete_captured capture deque' }))
      else some f

  unfoldable pub get : ℕ → FifoQueue V → String → Option (Option V × FifoQueue V)
  unfolding collect_idle put_handle
  get now f serial = do
    f1 ← collect_idle now (record f { calltime = (f.calltime + 1) % 2 ^ 64 })
    elim (SyncMap.load serial f1.deque) [
      | none ↦ some (none, f1)
      | some q ↦ (do r ← pop_data now q; some (r.0, put_handle f1 serial r.1))
    ]

  -- `f.single`, created when it is nil.
  unfoldable pub single_handle : FifoQueue V → QueueHandle V
  single_handle f = elim f.single [ none ↦ new_handle | some q ↦ q ]

  unfoldable pub singel_put : ℕ → FifoQueue V → V → Option (FifoQueue V)
  unfolding single_handle
  singel_put now f v = do
    r ← add_data now (single_handle f) v
    some (record f { single = some r.1 })

  unfoldable pub single_get : ℕ → FifoQueue V → Option (Option V × FifoQueue V)
  unfolding single_handle
  single_get now f = do
    r ← pop_data now (single_handle f)
    some (r.0, record f { single = some r.1 })
