-- ===== src/Dispatch/Broadcast.antt =====
-- A broadcast puts the data into every server's queue, once.
use gitee_fork_gateway.Prelude.{
  ℕ, zero, suc, ◌≡◌, refl, ◌<◌, true, Option, none, some, List, [], ◌∷◌, ◌++◌, String, length, ltb,
  arith,
}
use gitee_fork_gateway.SyncMap
use gitee_fork_gateway.QueueHandle.{QueueHandle}
use gitee_fork_gateway.QueueHandle.Order.{IsOpen, add_data-open}
use gitee_fork_gateway.FifoQueue.{FifoQueue, singel_put, single_handle}
use gitee_fork_gateway.FifoQueue.Puts.{IsReady, Changed, contents, put_once}
use gitee_fork_gateway.Dispatch.{
  Inbox, queue, channel, Server, add_to_queue, add_data_for_write, broad_cast_data,
}

positive : (n : ℕ) → ltb 0 (suc n) ≡ true
positive n = ground arith

module _ {V : Type 0} where
  -- A TCP server's queue takes data at once.
  abbrev Takes : ℕ → FifoQueue V → String → Type 0
  Takes zero q target = IsReady (SyncMap.load target q.deque)
  Takes (suc n) q target = IsOpen (single_handle q)

  -- The queue after it has taken `v`: at the end of the target's own queue, which alone has changed,
  -- or of the shared one.
  abbrev Took : ℕ → FifoQueue V → FifoQueue V → String → V → Type 0
  Took zero q q' target v = Changed q q' target (contents q target ++ (v ∷ []))
  Took (suc n) q q' target v = (single_handle q').de_queue ≡ (single_handle q).de_queue ++ (v ∷ [])

  -- The same for an inbox; a channel takes data where it has room.
  abbrev pub Accepts : Inbox V → String → Type 0
  Accepts (queue n q) target = Takes n q target
  Accepts (channel capacity vs) target = length vs < capacity

  abbrev pub Received : Inbox V → Inbox V → String → V → Type 0
  Received (queue n q) (queue n' q') target v = (n' ≡ n) × Took n q q' target v
  Received (queue n q) (channel capacity vs) target v = ⊥
  Received (channel capacity vs) (queue n q) target v = ⊥
  Received (channel capacity vs) (channel capacity' vs') target v =
      (capacity' ≡ capacity) × (vs' ≡ vs ++ (v ∷ []))

  -- All servers that are there accept; all have received, and nothing else of them has changed.
  abbrev pub AllAccept : List (Option (Server V)) → String → Type 0
  AllAccept [] target = Unit
  AllAccept (none ∷ objs) target = AllAccept objs target
  AllAccept (some obj ∷ objs) target = Accepts obj.inbox target × AllAccept objs target

  pub data AllReceived (target : String) (v : V)
      : List (Option (Server V)) → List (Option (Server V)) → Type 0 where
    done : AllReceived target v [] []
    skips :
        (objs objs' : List (Option (Server V)))
        → AllReceived target v objs objs'
        → AllReceived target v (none ∷ objs) (none ∷ objs')
    receives :
        (obj : Server V) (inbox' : Inbox V) (objs objs' : List (Option (Server V)))
        → Received obj.inbox inbox' target v
        → AllReceived target v objs objs'
        → AllReceived target v (some obj ∷ objs) (some (record obj { inbox = inbox' }) ∷ objs')

  pub add_to_queue-Took :
      (fuel : ℕ) (others : FifoQueue V → FifoQueue V) (now n : ℕ) (q : FifoQueue V)
      (target : String) (v : V)
      → Takes n q target
      → (q' : FifoQueue V) × (add_to_queue (suc fuel) others now n q target v ≡ some q')
        × Took n q q' target v
  unfolding add_to_queue singel_put single_handle
  add_to_queue-Took fuel others now zero q target v t = put_once fuel others now q target v t
  add_to_queue-Took fuel others now (suc n) q target v t =
      let h = single_handle q in
      let a = add_data-open now h v t in
      let h' : QueueHandle V = record h {
        de_queue = h.de_queue ++ (v ∷ []);
        noti_fy = true;
        last_active_time = now;
      } in
      (record q { single = some h' }, (rw (positive n, a) refl), refl)

  -- A server that accepts the data has it once.
  pub add_data_for_write-Received :
      (fuel : ℕ) (others : FifoQueue V → FifoQueue V) (now : ℕ) (inbox : Inbox V) (target : String)
      (v : V)
      → Accepts inbox target
      → (inbox' : Inbox V) × (add_data_for_write (suc fuel) others now inbox target v ≡ some inbox')
        × Received inbox inbox' target v
  unfolding add_data_for_write
  add_data_for_write-Received fuel others now (queue n q) target v t =
      let (q', e, took) = add_to_queue-Took fuel others now n q target v t in
      (queue n q', (rw e refl), (refl, took))
  add_data_for_write-Received fuel others now (channel capacity vs) target v t =
      let e : ltb (length vs) capacity ≡ true = ground arith in
      (channel capacity (vs ++ (v ∷ [])), (rw e refl), (refl, refl))

  -- Where every server that is there can take data at once, a broadcast returns, every one of them has
  -- received the data once, at the end of its queue, and a nil server is passed over.
  pub broad_cast_data-AllReceived :
      (fuel : ℕ) (others : FifoQueue V → FifoQueue V) (now : ℕ) (objs : List (Option (Server V)))
      (target : String) (v : V)
      → AllAccept objs target
      → (objs' : List (Option (Server V))) × (broad_cast_data (suc fuel) others now objs target v
          ≡ some objs')
        × AllReceived target v objs objs'
  unfolding broad_cast_data
  broad_cast_data-AllReceived fuel others now [] target v t = ([], refl, done)
  broad_cast_data-AllReceived fuel others now (none ∷ objs) target v t =
      let (objs', e, r) = broad_cast_data-AllReceived fuel others now objs target v t in
      (none ∷ objs', (rw e refl), skips objs objs' r)
  broad_cast_data-AllReceived fuel others now (some obj ∷ objs) target v (t, ts) =
      let (inbox', e0, r0) = add_data_for_write-Received fuel others now obj.inbox target v t in
      let (objs', e, r) = broad_cast_data-AllReceived fuel others now objs target v ts in
      (
        some (record obj { inbox = inbox' }) ∷ objs',
        (rw (e0, e) refl),
        receives obj inbox' objs objs' r0 r,
      )
