-- ===== src/NetConMap.antt =====
-- new/thread_safe_map.go: the table of connections by serial, and by serial and address where
-- duplicates are allowed. A call that waits for the mutex for ever is `none`. The calls that look
-- twice, before and after the lock, take what the other goroutines do in between as a function.
pub mod View
pub mod Entry
pub mod Sweep
pub mod Exists
pub mod Lock
mod Tests
use gitee_fork_gateway.Prelude.{
  ℕ, ◌+◌, ◌%◌, ◌^◌, Bool, true, false, not, ◌&&◌, Option, none, some, List, [], ◌∷◌, ◌++◌, String,
  str_eq, ◌==◌, if◌then◌else◌, ◌>>=◌, replicate,
}
use gitee_fork_gateway.SyncMap.{SyncMap}
use gitee_fork_gateway.SyncMap

-- What `Deque` stores: a connection, or the inner map of a serial. The type assertion
-- `v.(*sync.Map)` is a match.
pub data Value {ℓ} (V : Type ℓ) : Type ℓ where
  conn : V → Value V
  table : SyncMap V → Value V

pub record NetConMap {ℓ} (V : Type ℓ) : Type ℓ where
  pub deque : SyncMap (Value V)
  pub allow_dup : Bool
  pub mtx : Bool
  pub tms : ℕ

module _ {ℓ} {V : Type ℓ} where
  unfoldable pub set_allow_dup : NetConMap V → Bool → NetConMap V
  set_allow_dup n bl = record n { allow_dup = bl; tms = 0 }

  -- `n.Deque.Load(serial)` and the type assertion.
  unfoldable pub inner : NetConMap V → String → Option (SyncMap V)
  inner n serial = elim (SyncMap.load serial n.deque) [
    | none ↦ none
    | some v ↦ elim v [ conn c ↦ none | table mp ↦ some mp ]
  ]

  -- The object behind the pointer `mp` of a serial after a change.
  unfoldable pub put_inner : NetConMap V → String → SyncMap V → NetConMap V
  put_inner n serial mp = record n { deque = SyncMap.store serial (table mp) n.deque }

  -- `atomic.AddUint64(&n.tms, 1)`.
  unfoldable pub count_call : NetConMap V → NetConMap V
  count_call n = record n { tms = (n.tms + 1) % 2 ^ 64 }

  unfoldable pub delete : NetConMap V → String → String → NetConMap V
  unfolding inner put_inner
  delete n serial subkey =
      if n.allow_dup
      then elim (inner n serial) [
        | none ↦ n
        | some mp ↦ put_inner n serial (SyncMap.delete subkey mp)
      ]
      else record n { deque = SyncMap.delete serial n.deque }

  unfoldable pub load : NetConMap V → String → String → Option (Value V) × NetConMap V
  unfolding inner count_call
  load n serial subkey =
      if n.allow_dup
      then ((inner n serial >>= λ mp. SyncMap.load subkey mp >>= λ v. some (conn v)), count_call n)
      else (SyncMap.load serial n.deque, n)

  -- `keys = append(keys, name)` for each inner map in which `Range` meets nothing.
  unfoldable pub empty_key : String → Value V → List String → List String × Bool
  empty_key name (conn c) keys = (keys, true)
  empty_key name (table mp) keys =
      (if SyncMap.range (λ _ _ _. (false, false)) true mp then keys ++ (name ∷ []) else keys, true)

  unfoldable pub delete_keys : List String → SyncMap (Value V) → SyncMap (Value V)
  delete_keys [] m = m
  delete_keys (nm ∷ keys) m =
      delete_keys keys (if not (str_eq nm "") then SyncMap.delete nm m else m)

  unfoldable pub remove_empty_keys : NetConMap V → NetConMap V
  unfolding empty_key delete_keys
  remove_empty_keys n =
      if n.allow_dup
      then record n {
        deque = delete_keys (SyncMap.range empty_key (replicate 10 "") n.deque) n.deque;
      }
      else n

  -- `mp.LoadOrStore(subkey, value)`.
  unfoldable pub inner_load_or_store :
      NetConMap V → String → SyncMap V → String → V → (Value V × Bool) × NetConMap V
  unfolding put_inner
  inner_load_or_store n serial mp subkey value =
      let ((actual, ok), mp') = SyncMap.load_or_store subkey value mp in
      ((conn actual, ok), put_inner n serial mp')

  -- From `n.mtx.Lock()` on. Where the second look finds the inner map, the code returns with the
  -- mutex held.
  unfoldable pub load_or_store_locked :
      NetConMap V → String → String → V → Option ((Value V × Bool) × NetConMap V)
  load_or_store_locked n serial subkey value = if n.mtx then none else elim (inner n serial) [
    | some mp ↦ some (inner_load_or_store (record n { mtx = true }) serial mp subkey value)
    | none ↦ some (inner_load_or_store (put_inner n serial []) serial [] subkey value)
  ]

  -- The count of calls, and a sweep at each 3000th.
  unfoldable pub count_and_sweep : NetConMap V → NetConMap V
  unfolding count_call remove_empty_keys
  count_and_sweep n =
      let n1 = count_call n in if n1.tms % 3000 == 0 then remove_empty_keys n1 else n1

  unfoldable pub load_or_store :
      (NetConMap V → NetConMap V)
      → NetConMap V
      → String
      → String
      → V
      → Option ((Value V × Bool) × NetConMap V)
  unfolding load_or_store_locked
  load_or_store others n serial subkey value =
      if n.allow_dup
      then (let n2 = count_and_sweep n in
          elim (inner n2 serial) [
            | some mp ↦ some (inner_load_or_store n2 serial mp subkey value)
            | none ↦ load_or_store_locked (others n2) serial subkey value
          ])
      else (let (r, deque') = SyncMap.load_or_store serial (conn value) n.deque in
          some (r, record n { deque = deque' }))

  -- From `n.mtx.Lock()` on, again with the mutex held where the second look finds the map.
  unfoldable pub store_locked : NetConMap V → String → String → V → Option (NetConMap V)
  unfolding inner put_inner
  store_locked n serial subkey value = if n.mtx then none else elim (inner n serial) [
    | some mp ↦ some (put_inner (record n { mtx = true }) serial (SyncMap.store subkey value mp))
    | none ↦ some (put_inner (put_inner n serial []) serial (SyncMap.store subkey value []))
  ]

  unfoldable pub store :
      (NetConMap V → NetConMap V) → NetConMap V → String → String → V → Option (NetConMap V)
  unfolding count_call inner put_inner store_locked
  store others n serial subkey value =
      if n.allow_dup
      then (let n1 = count_call n in
          elim (inner n1 serial) [
            | some mp ↦ some (put_inner n1 serial (SyncMap.store subkey value mp))
            | none ↦ store_locked (others n1) serial subkey value
          ])
      else some (record n { deque = SyncMap.store serial (conn value) n.deque })

  -- `Range` calls the visitor on the connections of a serial.
  unfoldable pub range {κ} :
      {S : Type κ} → NetConMap V → String → (String → Value V → S → S × Bool) → S → S
  unfolding inner
  range n serial f s =
      if n.allow_dup
      then elim (inner n serial) [ none ↦ s | some mp ↦ SyncMap.range (λ k v. f k (conn v)) s mp ]
      else elim (SyncMap.load serial n.deque) [ none ↦ s | some v ↦ (f serial v s).0 ]

  unfoldable pub is_key_exist : NetConMap V → String → Bool
  unfolding inner
  is_key_exist n serial =
      if n.allow_dup
      then elim (inner n serial) [
        | none ↦ false
        | some mp ↦ SyncMap.range (λ _ _ _. (true, false)) false mp
      ]
      else elim (SyncMap.load serial n.deque) [ none ↦ false | some v ↦ true ]
