-- ===== src/Dispatch.antt =====
-- How a server hands data to others: `AddDataForWrite`, `BroadCastData` and `SerialActivityMap` of
-- new/server_tcp.go, new/server_websocket.go and new/server_udp.go, and the message of
-- `SNewConnect` in new/main.go. `none` is a panic or a call that waits for ever.
pub mod Activity
pub mod Broadcast
mod Tests
use gitee_fork_gateway.Prelude.{
  ℕ, Bool, true, false, ◌||◌, ◌&&◌, Option, none, some, List, [], ◌∷◌, ◌++◌, String, length, ltb,
  if◌then◌else◌, ◌>>=◌,
}
use gitee_fork_gateway.SyncMap.{SyncMap}
use gitee_fork_gateway.SyncMap
use gitee_fork_gateway.FifoQueue.{FifoQueue, put, singel_put}

-- The queue of a TCP server, with its `WriteConrutionSize`, or the channel of a WebSocket or UDP
-- server, with its capacity.
pub data Inbox {ℓ} (V : Type ℓ) : Type ℓ where
  queue : ℕ → FifoQueue V → Inbox V
  channel : ℕ → List V → Inbox V

-- What the other servers see of a server.
pub record Server {ℓ} (V : Type ℓ) : Type ℓ where
  pub serial : String
  pub serial_is_activity : String → Bool
  pub inbox : Inbox V

module _ {ℓ} {V : Type ℓ} where
  -- `AddDataForWrite` of a TCP server with `routines` shared writers. `others` is what other
  -- goroutines do to the queue while `Put` sleeps.
  unfoldable pub add_to_queue :
      ℕ → (FifoQueue V → FifoQueue V) → ℕ → ℕ → FifoQueue V → String → V → Option (FifoQueue V)
  add_to_queue fuel others now routines q target v =
      if ltb 0 routines then singel_put now q v else put fuel others now q target v

  unfoldable pub add_data_for_write :
      ℕ → (FifoQueue V → FifoQueue V) → ℕ → Inbox V → String → V → Option (Inbox V)
  unfolding add_to_queue
  add_data_for_write fuel others now (queue routines q) target v = do
    q' ← add_to_queue fuel others now routines q target v
    some (queue routines q')
  add_data_for_write fuel others now (channel capacity vs) target v =
      if ltb (length vs) capacity then some (channel capacity (vs ++ (v ∷ []))) else none

  unfoldable pub broad_cast_data :
      ℕ
      → (FifoQueue V → FifoQueue V)
      → ℕ
      → List (Option (Server V))
      → String
      → V
      → Option (List (Option (Server V)))
  unfolding add_data_for_write
  broad_cast_data fuel others now [] target v = some []
  broad_cast_data fuel others now (none ∷ objs) target v = do
    objs' ← broad_cast_data fuel others now objs target v
    some (none ∷ objs')
  broad_cast_data fuel others now (some obj ∷ objs) target v = do
    inbox' ← add_data_for_write fuel others now obj.inbox target v
    objs' ← broad_cast_data fuel others now objs target v
    some (some (record obj { inbox = inbox' }) ∷ objs')

  -- The loop of `SerialActivityMap`; it calls a server that is nil.
  unfoldable pub activity_loop :
      List (Option (Server V)) → String → SyncMap Bool → Option (SyncMap Bool)
  activity_loop [] serial ret = some ret
  activity_loop (none ∷ vs) serial ret = none
  activity_loop (some v ∷ vs) serial ret =
      activity_loop vs serial (SyncMap.store v.serial (v.serial_is_activity serial) ret)

  unfoldable pub serial_activity_map :
      Server V → List (Option (Server V)) → String → Option (SyncMap Bool)
  unfolding activity_loop
  serial_activity_map t to_broad_cast serial =
      activity_loop to_broad_cast serial (SyncMap.store t.serial (t.serial_is_activity serial) [])

-- The four messages.
pub data Update : Type 0 where
  all_update : Update
  web_update : Update
  app_update : Update
  none_update : Update

-- `mp[key]`, false for a missing key.
abbrev pub get_flag : String → SyncMap Bool → Bool
get_flag key mp = elim (SyncMap.load key mp) [ none ↦ false | some b ↦ b ]

-- The message for the map that `SNewConnect` has merged.
unfoldable pub update_for : SyncMap Bool → Update
update_for mp =
    let app = get_flag "APP" mp in
    let web = get_flag "WEB" mp || get_flag "WEBSOCKET" mp in
    if web && app
    then all_update
    else if web
    then web_update
    else if app
    then app_update
    else none_update
