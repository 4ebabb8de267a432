-- ===== src/FifoQueue/Fresh.antt =====
-- What a reader finds right behind `Put`: the value, in a queue whose handles are fresh.
use gitee_fork_gateway.Prelude.{
  ℕ, suc, ◌+◌, ◌≤◌, ◌≡◌, refl, inl, inr, Option, none, some, [], ◌∷◌, ◌++◌, String, arith,
}
use gitee_fork_gateway.SyncMap.{SyncMap, load-store_self}
use gitee_fork_gateway.SyncMap
use gitee_fork_gateway.QueueHandle.{QueueHandle, new_handle}
use gitee_fork_gateway.QueueHandle.Order.{IsOpen}
use gitee_fork_gateway.FifoQueue.{FifoQueue, put_handle, put}
use gitee_fork_gateway.FifoQueue.Puts.{
  contents, IsReady, with_value, first_value, put-absent, put-open, load-put_handle,
}
use gitee_fork_gateway.FifoQueue.Sweep.{IsFresh, AllFresh}

module _ {V : Type 0} where
  AllFresh-store :
      (t : ℕ) (k : String) (q : QueueHandle V) (m : SyncMap (QueueHandle V))
      → AllFresh t m
      → IsFresh t q
      → AllFresh t (SyncMap.store k q m)
  unfolding SyncMap.store
  AllFresh-store t k q [] a f = (f, tt)
  AllFresh-store t k q ((j, w) ∷ m) a f = ground (arith, AllFresh-store t k q m a.1 f)

  AllFresh-put_handle :
      (t : ℕ) (f : FifoQueue V) (k : String) (q : QueueHandle V)
      → AllFresh t f.deque
      → IsFresh t q
      → AllFresh t (put_handle f k q).deque
  unfolding put_handle
  AllFresh-put_handle t f k q a fresh = AllFresh-store t k q f.deque a fresh

  -- What `Put` leaves for a reader at time `t`: the serial's open queue, with the value at its end.
  pub record Waits (t : ℕ) (f f' : FifoQueue V) (serial : String) (v : V) : Type 0 where
    pub handle : QueueHandle V
    pub found : SyncMap.load serial f'.deque ≡ some handle
    pub open_handle : IsOpen handle
    pub values : handle.de_queue ≡ contents f serial ++ (v ∷ [])
    pub fresh : AllFresh t f'.deque

  put-Waits_from :
      (fuel : ℕ) (others : FifoQueue V → FifoQueue V) (now t : ℕ) (f : FifoQueue V)
      (serial : String) (v : V) (found : Option (QueueHandle V))
      → SyncMap.load serial f.deque ≡ found
      → IsReady found
      → AllFresh t f.deque
      → t ≤ now + 3000
      → (f' : FifoQueue V) × (put (suc fuel) others now f serial v ≡ some f')
        × Waits t f f' serial v
  put-Waits_from fuel others now t f serial v none e r a h = (
    put_handle (put_handle f serial new_handle) serial (first_value now v),
    put-absent fuel others now f serial v e,
    record {
      handle = first_value now v;
      found = load-put_handle (put_handle f serial new_handle) serial (first_value now v);
      open_handle = record { unlocked = refl; ready = refl; kept = refl };
      values = rw e refl;
      fresh =
          AllFresh-put_handle t (put_handle f serial new_handle) serial (first_value now v)
            (AllFresh-put_handle t f serial new_handle a
              (record { unlocked = refl; recent = inl refl }))
            (record { unlocked = refl; recent = inr h });
    },
  )
  put-Waits_from fuel others now t f serial v (some q) e r a h = (
    put_handle f serial (with_value now q v),
    put-open fuel others now f serial v q e r,
    record {
      handle = with_value now q v;
      found = load-put_handle f serial (with_value now q v);
      open_handle = record { unlocked = r.unlocked; ready = r.ready; kept = r.kept };
      values = rw e refl;
      fresh =
          AllFresh-put_handle t f serial (with_value now q v) a
            (record { unlocked = r.unlocked; recent = inr h });
    },
  )

  pub put-Waits :
      (fuel : ℕ) (others : FifoQueue V → FifoQueue V) (now t : ℕ) (f : FifoQueue V)
      (serial : String) (v : V)
      → IsReady (SyncMap.load serial f.deque)
      → AllFresh t f.deque
      → t ≤ now + 3000
      → (f' : FifoQueue V) × (put (suc fuel) others now f serial v ≡ some f')
        × Waits t f f' serial v
  put-Waits fuel others now t f serial v r a h =
      put-Waits_from fuel others now t f serial v (SyncMap.load serial f.deque) refl r a h
