-- ===== src/NetConMap/Lock.antt =====
-- The mutex of `Store` and `LoadOrStore` when another goroutine stores the serial first.
use gitee_fork_gateway.Prelude.{
  ◌≡◌, refl, Bool, true, false, none, some, String, arith, Option-cases, is_some, inl, inr,
}
use gitee_fork_gateway.SyncMap.{SyncMap}
use gitee_fork_gateway.SyncMap
use gitee_fork_gateway.NetConMap.{
  NetConMap, Value, inner, put_inner, count_call, count_and_sweep, inner_load_or_store,
  load_or_store_locked, load_or_store, store_locked, store,
}
use gitee_fork_gateway.NetConMap.View.{alone, inner-count_call}

module _ {ℓ} {V : Type ℓ} where
  -- What the other goroutines did between the two looks: they stored the serial, and left the lock.
  abbrev pub Overtaken : NetConMap V → NetConMap V → String → Type ℓ
  Overtaken n m s = (inner n s ≡ none) × (is_some (inner m s) ≡ true) × (m.mtx ≡ false)

  -- Where duplicates are allowed and another goroutine stores the serial between the two looks of
  -- `Store`, the call returns with the mutex held.
  pub store_leaks_lock :
      (others : NetConMap V → NetConMap V) (n : NetConMap V) (s k : String) (v : V)
      → n.allow_dup ≡ true
      → Overtaken (count_call n) (others (count_call n)) s
      → (n' : NetConMap V) × (store others n s k v ≡ some n') × (n'.mtx ≡ true)
  unfolding store store_locked count_call put_inner
  store_leaks_lock others n s k v dup (miss, hit, free) =
      elim (Option-cases (inner (others (count_call n)) s)) [
        | inl e ↦ absurd (ground arith)
        | inr (mp, e) ↦ (
          put_inner (record (others (count_call n)) { mtx = true }) s (SyncMap.store k v mp),
          ground arith,
          refl,
        )
      ]

  -- The same of `LoadOrStore`.
  pub load_or_store_leaks_lock :
      (others : NetConMap V → NetConMap V) (n : NetConMap V) (s k : String) (v : V)
      → n.allow_dup ≡ true
      → Overtaken (count_and_sweep n) (others (count_and_sweep n)) s
      → (r : (Value V × Bool) × NetConMap V) × (load_or_store others n s k v ≡ some r)
        × (r.1.mtx ≡ true)
  unfolding load_or_store load_or_store_locked inner_load_or_store put_inner SyncMap.load_or_store
  load_or_store_leaks_lock others n s k v dup (miss, hit, free) =
      elim (Option-cases (inner (others (count_and_sweep n)) s)) [
        | inl e ↦ absurd (ground arith)
        | inr (mp, e) ↦ (
          inner_load_or_store (record (others (count_and_sweep n)) { mtx = true }) s mp k v,
          ground arith,
          refl,
        )
      ]

  -- From then on a `Store` of a serial that is not in the table never returns.
  pub store_blocks :
      (n : NetConMap V) (s k : String) (v : V)
      → n.allow_dup ≡ true
      → n.mtx ≡ true
      → inner n s ≡ none
      → store alone n s k v ≡ none
  unfolding store store_locked count_call
  store_blocks n s k v dup held miss = ground (arith, inner-count_call n s)
