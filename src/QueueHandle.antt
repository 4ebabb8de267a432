-- ===== src/QueueHandle.antt =====
-- `QueueHandle` of new/fifo_queue.go: a queue whose readers wait on a channel of capacity 1.
-- A call that waits for ever, for the mutex or on the channel, is `none`; so is a nil dereference.
-- Each call runs to its end before the next starts; QueueHandle/Wakeup has them step by step.
pub mod Order
pub mod Wakeup
pub mod Gc
mod Tests
use gitee_fork_gateway.Prelude.{
  ℕ, ◌+◌, Bool, true, false, ◌&&◌, Option, none, some, List, [], ◌∷◌, ◌++◌, length, ltb, leb,
  if◌then◌else◌, ◌>>=◌,
}

-- `noti_fy` is true while the channel holds its item, and `mutex` while it is locked. Before
-- `LazyInit` the list and the channel are nil.
pub record QueueHandle {ℓ} (V : Type ℓ) : Type ℓ where
  pub de_queue : List V
  pub noti_fy : Bool
  pub last_active_time : ℕ
  pub mutex : Bool
  pub status : Bool
  pub free : Bool

module _ {ℓ} {V : Type ℓ} where
  -- `&QueueHandle{}`.
  abbrev pub new_handle : QueueHandle V
  new_handle = record {
    de_queue = [];
    noti_fy = false;
    last_active_time = 0;
    mutex = false;
    status = false;
    free = false;
  }

  unfoldable pub lock : QueueHandle V → Option (QueueHandle V)
  lock q = if q.mutex then none else some (record q { mutex = true })

  abbrev pub unlock : QueueHandle V → QueueHandle V
  unlock q = record q { mutex = false }

  unfoldable pub lazy_init : ℕ → QueueHandle V → Option (QueueHandle V)
  unfolding lock
  lazy_init now q = do
    q1 ← lock (record q { last_active_time = now })
    some (
        unlock (
          if q1.status
          then q1
          else record q1 { noti_fy = false; de_queue = []; status = true; free = false }))

  -- A nil list is dereferenced before `LazyInit`.
  unfoldable pub size : QueueHandle V → Option ℕ
  unfolding lock
  size q = do q1 ← lock q; if q1.status then some (length q1.de_queue) else none

  -- The `select` puts the item into the channel, or finds it there.
  unfoldable pub add_data : ℕ → QueueHandle V → V → Option (Bool × QueueHandle V)
  unfolding lazy_init lock
  add_data now q v = do
    q1 ← lazy_init now q
    q2 ← lock (record q1 { noti_fy = true })
    some (
        if q2.free
        then (false, unlock q2)
        else (true, unlock (record q2 { de_queue = q2.de_queue ++ (v ∷ []) })))

  -- `<-q.NotiFy`, with nobody else to send.
  unfoldable pub receive : QueueHandle V → Option (QueueHandle V)
  receive q = if q.noti_fy then some (record q { noti_fy = false }) else none

  unfoldable pub take_front : QueueHandle V → Option V × QueueHandle V
  take_front q = elim q.de_queue [ [] ↦ (none, q) | v ∷ vs ↦ (some v, record q { de_queue = vs }) ]

  -- The inner `none` is the nil that `PopData` returns.
  unfoldable pub pop_data : ℕ → QueueHandle V → Option (Option V × QueueHandle V)
  unfolding lazy_init size receive lock take_front
  pop_data now q = do
    q1 ← lazy_init now q
    n ← size q1
    q2 ← if leb n 0 then receive q1 else some q1
    q3 ← lock q2
    let r = take_front q3
    some (r.0, unlock r.1)

  -- `time.Now().Unix() - LastActiveTime > 3000`; the operands of `&&` are evaluated with the mutex
  -- held.
  unfoldable pub can_gc : ℕ → QueueHandle V → Option (Bool × QueueHandle V)
  unfolding lock size
  can_gc now q = do
    q1 ← lock q
    idle ←
        (if q1.status && ltb (q.last_active_time + 3000) now
          then (size q1 >>= λ n. some (leb n 0))
          else some false)
    some (idle, unlock q1)

  unfoldable pub set_free : QueueHandle V → Option (QueueHandle V)
  unfolding lock
  set_free q = do q1 ← lock q; some (unlock (record q1 { free = true }))
