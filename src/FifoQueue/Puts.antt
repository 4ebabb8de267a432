-- ===== src/FifoQueue/Puts.antt =====
-- `Put`: once where the handle is absent or open, twice after a retry.
use gitee_fork_gateway.Prelude.{
  ℕ, suc, ◌≡◌, refl, ◌∙◌, Bool, true, false, Option, none, some, List, [], ◌∷◌, ◌++◌, String,
  str_eq, if◌then◌else◌, ◌>>=◌, arith,
}
use gitee_fork_gateway.SyncMap.{SyncMap, load-store, load-store_self}
use gitee_fork_gateway.SyncMap
use gitee_fork_gateway.QueueHandle.{QueueHandle, new_handle, add_data}
use gitee_fork_gateway.QueueHandle.Order.{IsOpen, add_data-open}
use gitee_fork_gateway.FifoQueue.{FifoQueue, put_handle, range_add, put}

module _ {ℓ} {V : Type ℓ} where
  abbrev pub contents_of : Option (QueueHandle V) → List V
  contents_of none = []
  contents_of (some q) = q.de_queue

  -- The values queued for a serial.
  abbrev pub contents : FifoQueue V → String → List V
  contents f serial = contents_of (SyncMap.load serial f.deque)

  -- The serial has no handle yet, or an open one.
  abbrev pub IsReady : Option (QueueHandle V) → Type ℓ
  IsReady none = Unit
  IsReady (some q) = IsOpen q

  -- The queue of one serial has changed, and is open; the others' values are as they were.
  pub record Changed (f f' : FifoQueue V) (serial : String) (vs : List V) : Type ℓ where
    pub queues : (t : String) → contents f' t ≡ (if str_eq serial t then vs else contents f t)
    pub open_after : IsReady (SyncMap.load serial f'.deque)

  pub put_handle-Changed :
      (f : FifoQueue V) (serial : String) (q : QueueHandle V)
      → IsOpen q
      → Changed f (put_handle f serial q) serial q.de_queue
  unfolding put_handle
  put_handle-Changed f serial q o = record {
    queues = λ t. ground (arith, load-store serial t q f.deque);
    open_after = rw (load-store_self serial q f.deque) o;
  }

  put_handle-put_handle-Changed :
      (f : FifoQueue V) (serial : String) (p q : QueueHandle V)
      → IsOpen q
      → Changed f (put_handle (put_handle f serial p) serial q) serial q.de_queue
  unfolding put_handle
  put_handle-put_handle-Changed f serial p q o =
      let c = put_handle-Changed (put_handle f serial p) serial q o in
      record {
        queues = λ t. c.queues t ∙ ground (arith, load-store serial t p f.deque);
        open_after = c.open_after;
      }

  -- The handle after `AddData`.
  abbrev pub with_value : ℕ → QueueHandle V → V → QueueHandle V
  with_value now q v = record q {
    de_queue = q.de_queue ++ (v ∷ []);
    noti_fy = true;
    last_active_time = now;
  }

  abbrev pub first_value : ℕ → V → QueueHandle V
  first_value now v = with_value now (record new_handle { status = true }) v

  add_data-new : (now : ℕ) (v : V) → add_data now new_handle v ≡ some (true, first_value now v)
  unfolding add_data
  add_data-new now v = refl

  pub put-open :
      (fuel : ℕ) (others : FifoQueue V → FifoQueue V) (now : ℕ) (f : FifoQueue V) (serial : String)
      (v : V) (q : QueueHandle V)
      → SyncMap.load serial f.deque ≡ some q
      → IsOpen q
      → put (suc fuel) others now f serial v ≡ some (put_handle f serial (with_value now q v))
  unfolding put SyncMap.load_or_store
  put-open fuel others now f serial v q e o =
      rw (e, SyncMap.load_or_store) (rw (add_data-open now q v o))

  range_add-found :
      (now : ℕ) (f : FifoQueue V) (serial : String) (v : V) (b : Bool) (q q' : QueueHandle V)
      → SyncMap.load serial f.deque ≡ some q
      → add_data now q v ≡ some (b, q')
      → range_add now f serial v ≡ some (put_handle f serial q')
  unfolding range_add
  range_add-found now f serial v b q q' e a = rw (e, range_add) (rw a)

  pub load-put_handle :
      (f : FifoQueue V) (serial : String) (q : QueueHandle V)
      → SyncMap.load serial (put_handle f serial q).deque ≡ some q
  unfolding put_handle
  load-put_handle f serial q = load-store_self serial q f.deque

  pub put-absent :
      (fuel : ℕ) (others : FifoQueue V → FifoQueue V) (now : ℕ) (f : FifoQueue V) (serial : String)
      (v : V)
      → SyncMap.load serial f.deque ≡ none
      → put (suc fuel) others now f serial v
        ≡ some (put_handle (put_handle f serial new_handle) serial (first_value now v))
  unfolding put SyncMap.load_or_store put_handle
  put-absent fuel others now f serial v e =
      rw (e, SyncMap.load_or_store)
        (range_add-found now (put_handle f serial new_handle) serial v true new_handle
          (first_value now v) (load-put_handle f serial new_handle) (add_data-new now v))

  put_once_from :
      (fuel : ℕ) (others : FifoQueue V → FifoQueue V) (now : ℕ) (f : FifoQueue V) (serial : String)
      (v : V) (found : Option (QueueHandle V))
      → SyncMap.load serial f.deque ≡ found
      → IsReady found
      → (f' : FifoQueue V) × (put (suc fuel) others now f serial v ≡ some f')
        × Changed f f' serial (contents_of found ++ (v ∷ []))
  put_once_from fuel others now f serial v none e r = (
    put_handle (put_handle f serial new_handle) serial (first_value now v),
    put-absent fuel others now f serial v e,
    put_handle-put_handle-Changed f serial new_handle (first_value now v)
        (record { unlocked = refl; ready = refl; kept = refl }),
  )
  put_once_from fuel others now f serial v (some q) e r = (
    put_handle f serial (with_value now q v),
    put-open fuel others now f serial v q e r,
    put_handle-Changed f serial (with_value now q v)
        (record { unlocked = r.unlocked; ready = r.ready; kept = r.kept }),
  )

  -- `Put` for a serial whose handle is absent or open returns at once, has appended the value to
  -- that serial's queue, once, and has left every other serial's queue as it was.
  pub put_once :
      (fuel : ℕ) (others : FifoQueue V → FifoQueue V) (now : ℕ) (f : FifoQueue V) (serial : String)
      (v : V)
      → IsReady (SyncMap.load serial f.deque)
      → (f' : FifoQueue V) × (put (suc fuel) others now f serial v ≡ some f')
        × Changed f f' serial (contents f serial ++ (v ∷ []))
  put_once fuel others now f serial v r =
      put_once_from fuel others now f serial v (SyncMap.load serial f.deque) refl r

  -- A handle that a collection has marked free, before it is deleted.
  pub record IsFreed (q : QueueHandle V) : Type ℓ where
    pub unlocked : q.mutex ≡ false
    pub ready : q.status ≡ true
    pub freed : q.free ≡ true

  add_data-freed :
      (now : ℕ) (q : QueueHandle V) (v : V)
      → IsFreed q
      → add_data now q v ≡ some (false, record q { noti_fy = true; last_active_time = now })
  unfolding add_data
  add_data-freed now q v o = ground arith

  put-freed :
      (fuel : ℕ) (others : FifoQueue V → FifoQueue V) (now : ℕ) (f : FifoQueue V) (serial : String)
      (v : V) (q : QueueHandle V)
      → SyncMap.load serial f.deque ≡ some q
      → IsFreed q
      → put (suc fuel) others now f serial v ≡ (
          put fuel others now
            (others (put_handle f serial (record q { noti_fy = true; last_active_time = now })))
            serial
            v
          >>= λ g. range_add now g serial v)
  unfolding put SyncMap.load_or_store
  put-freed fuel others now f serial v q e o =
      rw (e, SyncMap.load_or_store) (rw (add_data-freed now q v o))

  -- Where `Put` meets a freed handle, and the handle is deleted while it sleeps, the value stands
  -- twice in the serial's new queue: the call that it makes of itself appends it, and so does the
  -- `Range` that it goes on to.
  pub put_twice :
      (fuel : ℕ) (others : FifoQueue V → FifoQueue V) (now : ℕ) (f : FifoQueue V) (serial : String)
      (v : V) (q : QueueHandle V)
      → SyncMap.load serial f.deque ≡ some q
      → IsFreed q
      → ((g : FifoQueue V) → SyncMap.load serial (others g).deque ≡ none)
      → (f' : FifoQueue V) × (put (suc (suc fuel)) others now f serial v ≡ some f')
        × (contents f' serial ≡ v ∷ v ∷ [])
  put_twice fuel others now f serial v q e o gone = (
    put_handle h serial (with_value now (first_value now v) v),
    put-freed (suc fuel) others now f serial v q e o
        ∙ rw (put-absent fuel others now g serial v (gone _)) (
            range_add-found now h serial v true (first_value now v) _
              (load-put_handle _ serial (first_value now v))
              (add_data-open now (first_value now v) v
                (record { unlocked = refl; ready = refl; kept = refl }))),
    rw (load-put_handle h serial (with_value now (first_value now v) v)),
  )
    where
      g : FifoQueue V
      g = others (put_handle f serial (record q { noti_fy = true; last_active_time = now }))

      h : FifoQueue V
      h = put_handle (put_handle g serial new_handle) serial (first_value now v)
