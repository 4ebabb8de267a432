-- ===== src/NetConMap/Entry.antt =====
-- `Store` and `LoadOrStore` with no other goroutine in between.
use gitee_fork_gateway.Prelude.{
  ◌≡◌, refl, ◌∙◌, Bool, true, false, none, some, [], String, str_eq_iff, arith, Bool-cases,
  Option-cases, inl, inr,
}
use gitee_fork_gateway.SyncMap.{SyncMap}
use gitee_fork_gateway.SyncMap
use gitee_fork_gateway.NetConMap.{
  NetConMap, Value, conn, inner, put_inner, count_call, load, count_and_sweep, inner_load_or_store,
  load_or_store_locked, load_or_store, store_locked, store,
}
use gitee_fork_gateway.NetConMap.Sweep.{IsMap, count_and_sweep-Agree}
use gitee_fork_gateway.NetConMap.View.{
  put_inner-empty-Agree, view, alone, Agree-trans, Updated, Agree, Updated-Agree, inner-put_inner,
  put_inner-fields, count_call-Agree, put_inner-Updated, put_new-Updated, deque-Updated,
}

module _ {ℓ} {V : Type ℓ} where
  -- `Store`, with no other goroutine in between, returns with the mutex as it was, and stores its
  -- entry and no other.
  pub store-Updated :
      (n : NetConMap V) (s k : String) (v : V)
      → n.mtx ≡ false
      → (n' : NetConMap V) × (store alone n s k v ≡ some n') × Updated n n' s k (some (conn v))
  unfolding store store_locked
  store-Updated n s k v free = elim (Bool-cases n.allow_dup) [
    | inl dup ↦ elim (Option-cases (inner (count_call n) s)) [
      | inl e ↦ (
        put_inner (put_inner (count_call n) s []) s (SyncMap.store k v []),
        ground (arith, count_call-Agree n),
        Updated-Agree (count_call-Agree n) (put_new-Updated (count_call n) s k v dup e),
      )
      | inr (mp, e) ↦ (
        put_inner (count_call n) s (SyncMap.store k v mp),
        ground (arith, count_call-Agree n),
        Updated-Agree (count_call-Agree n) (put_inner-Updated (count_call n) s k v mp dup e),
      )
    ]
    | inr no_dup ↦ (
      record n { deque = SyncMap.store s (conn v) n.deque },
      ground arith,
      deque-Updated n s k v no_dup,
    )
  ]

  -- What `LoadOrStore` promises: the entry that is there, with true, and no change; or the entry
  -- stored, with false, and no other change.
  pub data Entered (n : NetConMap V) (s k : String) (v : V) (r : (Value V × Bool) × NetConMap V)
      : Type ℓ where
    found :
        (old : Value V)
        → view n s k ≡ some old
        → r.0 ≡ (old, true)
        → Agree n r.1
        → Entered n s k v r
    stored :
        view n s k ≡ none
        → r.0 ≡ (conn v, false)
        → Updated n r.1 s k (some (conn v))
        → Entered n s k v r

  put_inner_same-Agree :
      (n : NetConMap V) (s : String) (mp : SyncMap V)
      → n.allow_dup ≡ true
      → inner n s ≡ some mp
      → Agree n (put_inner n s mp)
  unfolding load
  put_inner_same-Agree n s mp dup e = record {
    unlocked = (put_inner-fields n s mp).0;
    mode = (put_inner-fields n s mp).1;
    entries = λ s' k'.
        ground (arith, str_eq_iff s s', inner-put_inner n s s' mp, put_inner-fields n s mp, e);
  }

  inner_load_or_store-Entered :
      (n : NetConMap V) (s k : String) (v : V) (mp : SyncMap V)
      → n.allow_dup ≡ true
      → inner n s ≡ some mp
      → Entered n s k v (inner_load_or_store n s mp k v)
  unfolding inner_load_or_store SyncMap.load_or_store load
  inner_load_or_store-Entered n s k v mp dup e = elim (Option-cases (SyncMap.load k mp)) [
    | inl miss ↦
        rw (miss, SyncMap.load_or_store)
          (stored (ground arith) refl (put_inner-Updated n s k v mp dup e))
    | inr (old, hit) ↦
        rw (hit, SyncMap.load_or_store)
          (found (conn old) (ground arith) refl (put_inner_same-Agree n s mp dup e))
  ]

  Entered-Agree :
      {n m : NetConMap V} {s k : String} {v : V} {r : (Value V × Bool) × NetConMap V}
      → Agree n m
      → Entered m s k v r
      → Entered n s k v r
  Entered-Agree {n} {m} {s} {k} a (found old e d g) =
      found old (ground (arith, a.entries s k)) d (Agree-trans a g)
  Entered-Agree {n} {m} {s} {k} a (stored e d u) =
      stored (ground (arith, a.entries s k)) d (Updated-Agree a u)

  dup_load_or_store :
      (n : NetConMap V) (s k : String) (v : V)
      → n.allow_dup ≡ true
      → n.mtx ≡ false
      → Agree n (count_and_sweep n)
      → (r : (Value V × Bool) × NetConMap V) × (load_or_store alone n s k v ≡ some r)
        × Entered n s k v r
  unfolding load_or_store load_or_store_locked
  dup_load_or_store n s k v dup free a = elim (Option-cases (inner (count_and_sweep n) s)) [
    | inl miss ↦ (
      inner_load_or_store (put_inner (count_and_sweep n) s []) s [] k v,
      ground (arith, a),
      Entered-Agree a (
          Entered-Agree (put_inner-empty-Agree (count_and_sweep n) s (a.mode ∙ dup) miss) (
            inner_load_or_store-Entered (put_inner (count_and_sweep n) s []) s k v []
              ((put_inner-fields (count_and_sweep n) s []).1 ∙ a.mode ∙ dup)
              (ground (arith, str_eq_iff s s, inner-put_inner (count_and_sweep n) s s [])))),
    )
    | inr (mp, hit) ↦ (
      inner_load_or_store (count_and_sweep n) s mp k v,
      ground arith,
      Entered-Agree a (inner_load_or_store-Entered (count_and_sweep n) s k v mp (a.mode ∙ dup) hit),
    )
  ]

  -- `LoadOrStore`, with no other goroutine in between, keeps what it promises in both modes.
  pub load_or_store-Entered :
      (n : NetConMap V) (s k : String) (v : V)
      → IsMap n
      → n.mtx ≡ false
      → (r : (Value V × Bool) × NetConMap V) × (load_or_store alone n s k v ≡ some r)
        × Entered n s k v r
  unfolding load_or_store SyncMap.load_or_store load
  load_or_store-Entered n s k v d free = elim (Bool-cases n.allow_dup) [
    | inl dup ↦ dup_load_or_store n s k v dup free (count_and_sweep-Agree n d)
    | inr no_dup ↦ elim (Option-cases (SyncMap.load s n.deque)) [
      | inl miss ↦ (
        ((conn v, false), record n { deque = SyncMap.store s (conn v) n.deque }),
        ground arith,
        stored (ground arith) refl (deque-Updated n s k v no_dup),
      )
      | inr (old, hit) ↦ (
        ((old, true), n),
        ground arith,
        found old (ground arith) refl
            (record { unlocked = refl; mode = refl; entries = λ s' k'. refl }),
      )
    ]
  ]
