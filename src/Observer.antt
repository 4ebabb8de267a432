-- ===== src/Observer.antt =====
-- The observer of connections, `ConChangeObserverEntity` of new/main.go: the message for the gateway
-- when a connection comes to a server or leaves it. A server is known by its name; `tables` gives the
-- `ToBroadCast` of the server of each name. The calls of the HTTP service, `HNewConnect` and
-- `HDisConnect`, touch no state of the program. `none` is a panic or a call that waits for ever.
pub mod Laid
pub mod Made
pub mod Told
mod Tests
use gitee_fork_gateway.Prelude.{
  ℕ, Bool, true, false, Option, none, some, List, [], ◌∷◌, String, str_eq, length, if◌then◌else◌,
  ◌>>=◌,
}
use gitee_fork_gateway.SyncMap.{SyncMap}
use gitee_fork_gateway.SyncMap
use gitee_fork_gateway.Bytes.{copy_loop}
use gitee_fork_gateway.FifoQueue.{FifoQueue}
use gitee_fork_gateway.Entities.{Store, DataWrapper, acquire, slice, put_slice}
use gitee_fork_gateway.Dispatch.{
  Server, Update, all_update, web_update, app_update, none_update, update_for, serial_activity_map,
  add_data_for_write,
}
use gitee_fork_gateway.HandOut.{Lines}

-- The texts of the four messages: `{"Gate_UPDATE": {"mode": "all" }}` and so on.
unfoldable pub update_bytes : Update → List ℕ
update_bytes all_update =
    123 ∷ 34 ∷ 71 ∷ 97 ∷ 116 ∷ 101 ∷ 95 ∷ 85 ∷ 80 ∷ 68 ∷ 65 ∷ 84 ∷ 69 ∷ 34 ∷ 58 ∷ 32 ∷ 123 ∷ 34
    ∷ 109 ∷ 111 ∷ 100 ∷ 101 ∷ 34 ∷ 58 ∷ 32 ∷ 34 ∷ 97 ∷ 108 ∷ 108 ∷ 34 ∷ 32 ∷ 125 ∷ 125 ∷ []
update_bytes web_update =
    123 ∷ 34 ∷ 71 ∷ 97 ∷ 116 ∷ 101 ∷ 95 ∷ 85 ∷ 80 ∷ 68 ∷ 65 ∷ 84 ∷ 69 ∷ 34 ∷ 58 ∷ 32 ∷ 123 ∷ 34
    ∷ 109 ∷ 111 ∷ 100 ∷ 101 ∷ 34 ∷ 58 ∷ 32 ∷ 34 ∷ 119 ∷ 101 ∷ 98 ∷ 34 ∷ 32 ∷ 125 ∷ 125 ∷ []
update_bytes app_update =
    123 ∷ 34 ∷ 71 ∷ 97 ∷ 116 ∷ 101 ∷ 95 ∷ 85 ∷ 80 ∷ 68 ∷ 65 ∷ 84 ∷ 69 ∷ 34 ∷ 58 ∷ 32 ∷ 123 ∷ 34
    ∷ 109 ∷ 111 ∷ 100 ∷ 101 ∷ 34 ∷ 58 ∷ 32 ∷ 34 ∷ 97 ∷ 112 ∷ 112 ∷ 34 ∷ 32 ∷ 125 ∷ 125 ∷ []
update_bytes none_update =
    123 ∷ 34 ∷ 71 ∷ 97 ∷ 116 ∷ 101 ∷ 95 ∷ 85 ∷ 80 ∷ 68 ∷ 65 ∷ 84 ∷ 69 ∷ 34 ∷ 58 ∷ 32 ∷ 123 ∷ 34
    ∷ 109 ∷ 111 ∷ 100 ∷ 101 ∷ 34 ∷ 58 ∷ 32 ∷ 34 ∷ 110 ∷ 111 ∷ 110 ∷ 101 ∷ 34 ∷ 125 ∷ 125 ∷ []

-- A server as the observer sees it: its name and which serials it has.
pub record Named : Type 0 where
  pub name : String
  pub serial_is_activity : String → Bool

abbrev pub server_of : Named → Lines → Server DataWrapper
server_of v l = record {
  serial = v.name;
  serial_is_activity = v.serial_is_activity;
  inbox = l.inbox;
}

-- `for key, value := range mp0`.
unfoldable pub merge_flags : SyncMap Bool → SyncMap Bool → SyncMap Bool
merge_flags mp [] = mp
merge_flags mp ((key, value) ∷ mp0) = merge_flags (SyncMap.store key value mp) mp0

-- `for _, vi := range vs`; a nil server panics.
unfoldable pub merge_loop :
    (String → List (Option (Server DataWrapper)))
    → String
    → List (Option (Server DataWrapper))
    → SyncMap Bool
    → Option (SyncMap Bool)
unfolding merge_flags
merge_loop tables serial [] mp = some mp
merge_loop tables serial (none ∷ vs) mp = none
merge_loop tables serial (some vi ∷ vs) mp = do
  mp0 ← serial_activity_map vi (tables vi.serial) serial
  merge_loop tables serial vs (merge_flags mp mp0)

-- The flags of all servers, and from these the message.
unfoldable pub message_for :
    (String → List (Option (Server DataWrapper))) → Named → Lines → String → Option (List ℕ)
unfolding merge_loop update_bytes
message_for tables v l serial = do
  mp ← serial_activity_map (server_of v l) l.to_broad_cast serial
  mp' ← merge_loop tables serial l.to_broad_cast mp
  some (update_bytes (update_for mp'))

module _ (others : FifoQueue DataWrapper → FifoQueue DataWrapper) (now later : ℕ) where
  -- A new entity, of the piece size of the given one, with the text.
  unfoldable pub prepare : Store → ℕ → List ℕ → Option (ℕ × Store)
  prepare s entity text = do
    (src, piece) ← slice s entity
    (e, s1) ← acquire s 1 piece now later
    (buf, size) ← slice s1 e
    buf' ← copy_loop (length text) 0 text buf
    s2 ← put_slice s1 e buf'
    some (e, s2)

  abbrev pub notice : ℕ → List ℕ → String → DataWrapper
  notice e text serial = record {
    data_store = e;
    data_length = length text;
    target_con_serial = serial;
    udp_addr = none;
    self_id = "";
    create_unix_sec = now;
  }

  -- `for _, s := range vs`: to each gateway.
  unfoldable pub tell_gateways :
      List (Option (Server DataWrapper))
      → String
      → DataWrapper
      → Option (List (Option (Server DataWrapper)))
  tell_gateways [] serial data' = some []
  tell_gateways (none ∷ vs) serial data' = none
  tell_gateways (some s ∷ vs) serial data' =
      let told = (do
        inbox' ← add_data_for_write 2 others now s.inbox serial data'
        vs' ← tell_gateways vs serial data'
        some (some (record s { inbox = inbox' }) ∷ vs')) in
      let passed = (do vs' ← tell_gateways vs serial data'; some (some s ∷ vs')) in
      if str_eq s.serial "GATEWAY" then told else passed

  unfoldable pub s_new_connect :
      (String → List (Option (Server DataWrapper)))
      → Named
      → String
      → ℕ
      → Store
      → Lines
      → Option (Store × Lines)
  unfolding message_for prepare tell_gateways
  s_new_connect tables v serial entity s l = do
    text ← message_for tables v l serial
    (e, s') ← prepare s entity text
    let own = (do
      inbox' ← add_data_for_write 2 others now l.inbox serial (notice e text serial)
      some (s', record l { inbox = inbox' }))
    let peers = (do
      vs ← tell_gateways l.to_broad_cast serial (notice e text serial)
      some (s', record l { to_broad_cast = vs }))
    (if str_eq v.name "GATEWAY" then own else peers)

  -- A connection that leaves the gateway is not told.
  unfoldable pub s_dis_connect :
      (String → List (Option (Server DataWrapper)))
      → Named
      → String
      → ℕ
      → Store
      → Lines
      → Option (Store × Lines)
  unfolding s_new_connect
  s_dis_connect tables v serial entity s l =
      let told = s_new_connect tables v serial entity s l in
      if str_eq v.name "GATEWAY" then some (s, l) else told
