-- ===== src/Entities.antt =====
-- The entities of the pool behind their pointers, and `DataWrapper` of new/serverimpl.go. An entity is
-- shared by all who hold its pointer, which is a number here: `AckTimes` changes for all of them.
-- `none` is a panic.
pub mod Acks
pub mod Seen
pub mod Fresh
pub mod Last
pub mod Life
pub mod Runs
mod Tests
use gitee_fork_gateway.Prelude.{
  ℕ, ◌+◌, Option, none, some, List, [], ◌∷◌, ◌++◌, String, length, get_elem?, set, if◌then◌else◌,
  ◌>>=◌,
}
use gitee_fork_gateway.Brick.{store_mem}
use gitee_fork_gateway.Pool.{
  MemEntity, MemPool, get_entity, bytes, brick_of, write_brick, release_onece, full_release,
}

pub record Store : Type 0 where
  pub pool : MemPool
  pub entities : List MemEntity

-- `GetEntity`: the pointer to the new entity; nil panics where it is used.
unfoldable pub acquire : Store → ℕ → ℕ → ℕ → ℕ → Option (ℕ × Store)
acquire s ack_time size now later = do
  let got = get_entity s.pool ack_time size now later
  e ← got.0
  let s' : Store = record { pool = got.1; entities = s.entities ++ (e ∷ []) }
  some (length s.entities, s')

-- `Bytes`.
unfoldable pub slice : Store → ℕ → Option (List ℕ × ℕ)
slice s h = do e ← get_elem? s.entities h; bytes s.pool e

-- What was written to the slice of an entity.
unfoldable pub put_slice : Store → ℕ → List ℕ → Option Store
put_slice s h content = do
  e ← get_elem? s.entities h
  m ← brick_of s.pool e
  some (record s { pool = write_brick s.pool (store_mem m e.index content) })

-- `ReleaseOnece` by pointer.
unfoldable pub release : Store → ℕ → Option Store
release s h = do
  e ← get_elem? s.entities h
  (p, e') ← release_onece s.pool e
  some (record { pool = p; entities = set s.entities h e' })

-- `FullRelease` by pointer.
unfoldable pub free : Store → ℕ → Option Store
free s h = do e ← get_elem? s.entities h; p ← full_release s.pool e; some (record s { pool = p })

-- `UdpAddr` is nil, `none`, or an address.
pub record DataWrapper : Type 0 where
  pub data_store : ℕ
  pub data_length : ℕ
  pub target_con_serial : String
  pub udp_addr : Option String
  pub self_id : String
  pub create_unix_sec : ℕ
