-- ===== src/NetConMap/Sweep.antt =====
-- `RemoveEmptyKeys` forgets inner maps that hold nothing.
use gitee_fork_gateway.Prelude.{
  ℕ, zero, suc, ◌%◌, ◌≡◌, refl, ◌⊎◌, false, none, some, List, [], ◌∷◌, ◌++◌, String, str_eq,
  str_eq_iff, arith, Bool-cases, inl, inr, ◌==◌, replicate,
}
use gitee_fork_gateway.SyncMap.{SyncMap, load-store, load-delete}
use gitee_fork_gateway.SyncMap
use gitee_fork_gateway.NetConMap.{
  NetConMap, Value, conn, table, inner, count_and_sweep, count_call, load, remove_empty_keys,
  empty_key, delete_keys,
}
use gitee_fork_gateway.NetConMap.View.{Agree, Agree-trans, count_call-Agree}

-- Each key stands once, as a map has it.
abbrev pub Distinct {κ} : {A : Type κ} → SyncMap A → Type κ
Distinct [] = Unit
Distinct ((k, v) ∷ m) = (SyncMap.load k m ≡ none) × Distinct m

-- The table is a map.
abbrev pub IsMap {ℓ} : {V : Type ℓ} → NetConMap V → Type ℓ
IsMap n = Distinct n.deque

module _ {ℓ} {V : Type ℓ} where
  count_call-IsMap : (n : NetConMap V) → IsMap n → IsMap (count_call n)
  unfolding count_call
  count_call-IsMap n d = d

  -- A name that may be deleted: none, or one whose inner map is empty.
  abbrev Vacant : SyncMap (Value V) → String → Type ℓ
  Vacant m nm = (SyncMap.load nm m ≡ none) ⊎ (SyncMap.load nm m ≡ some (table []))

  abbrev AllVacant : SyncMap (Value V) → List String → Type ℓ
  AllVacant m [] = Unit
  AllVacant m (nm ∷ keys) = (str_eq nm "" ≡ false → Vacant m nm) × AllVacant m keys

  AllVacant-append :
      (m : SyncMap (Value V)) (keys : List String) (nm : String)
      → AllVacant m keys
      → Vacant m nm
      → AllVacant m (keys ++ (nm ∷ []))
  AllVacant-append m [] nm a v = (λ _. v, tt)
  AllVacant-append m (x ∷ keys) nm a v = (a.0, AllVacant-append m keys nm a.1 v)

  abbrev Part : SyncMap (Value V) → SyncMap (Value V) → Type ℓ
  Part sub m = (k : String) (v : Value V) → SyncMap.load k sub ≡ some v → SyncMap.load k m ≡ some v

  Part-tail :
      (k : String) (v : Value V) (sub m : SyncMap (Value V))
      → SyncMap.load k sub ≡ none
      → Part ((k, v) ∷ sub) m
      → Part sub m
  unfolding SyncMap.load
  Part-tail k v sub m d p = λ j w e. p j w (ground (arith, str_eq_iff k j))

  Part-head :
      (k : String) (v : Value V) (sub m : SyncMap (Value V))
      → Part ((k, v) ∷ sub) m
      → SyncMap.load k m ≡ some v
  unfolding SyncMap.load
  Part-head k v sub m p = p k v (ground (arith, str_eq_iff k k))

  range-AllVacant :
      (m sub : SyncMap (Value V)) (keys : List String)
      → Part sub m
      → Distinct sub
      → AllVacant m keys
      → AllVacant m (SyncMap.range empty_key keys sub)
  unfolding SyncMap.range empty_key
  range-AllVacant m [] keys p d a = a
  range-AllVacant m ((k, conn c) ∷ sub) keys p d a =
      range-AllVacant m sub keys (Part-tail k (conn c) sub m d.0 p) d.1 a
  range-AllVacant m ((k, table []) ∷ sub) keys p d a =
      range-AllVacant m sub (keys ++ (k ∷ [])) (Part-tail k (table []) sub m d.0 p) d.1
        (AllVacant-append m keys k a (inr (Part-head k (table []) sub m p)))
  range-AllVacant m ((k, table (x ∷ mp)) ∷ sub) keys p d a =
      range-AllVacant m sub keys (Part-tail k (table (x ∷ mp)) sub m d.0 p) d.1 a

  delete-Vacant :
      (m : SyncMap (Value V)) (nm s : String) → Vacant m s → Vacant (SyncMap.delete nm m) s
  delete-Vacant m nm s v = ground (arith, load-delete nm s m)

  delete-AllVacant :
      (m : SyncMap (Value V)) (nm : String) (keys : List String)
      → AllVacant m keys
      → AllVacant (SyncMap.delete nm m) keys
  delete-AllVacant m nm [] a = tt
  delete-AllVacant m nm (x ∷ keys) a =
      (λ e. delete-Vacant m nm x (a.0 e), delete-AllVacant m nm keys a.1)

  -- One name's entry after the deletions: as before, or gone where it was empty.
  abbrev Kept : SyncMap (Value V) → SyncMap (Value V) → String → Type ℓ
  Kept m m' s =
      (SyncMap.load s m' ≡ SyncMap.load s m)
      ⊎ ((SyncMap.load s m ≡ some (table [])) × (SyncMap.load s m' ≡ none))

  delete_keys-Kept :
      (keys : List String) (m : SyncMap (Value V)) (s : String)
      → AllVacant m keys
      → Kept m (delete_keys keys m) s
  unfolding delete_keys
  delete_keys-Kept [] m s a = inl refl
  delete_keys-Kept (nm ∷ keys) m s a = elim (Bool-cases (str_eq nm "")) [
    | inl e ↦ rw e (delete_keys-Kept keys m s a.1)
    | inr e ↦ rw e (
        ground (
          arith,
          load-delete nm s m,
          a.0 e,
          str_eq_iff nm s,
          delete_keys-Kept keys (SyncMap.delete nm m) s (delete-AllVacant m nm keys a.1),
        ))
  ]

  unnamed-AllVacant : (m : SyncMap (Value V)) (c : ℕ) → AllVacant m (replicate c "")
  unnamed-AllVacant m zero = tt
  unnamed-AllVacant m (suc c) = (λ e. ground arith, unnamed-AllVacant m c)

  -- `RemoveEmptyKeys` changes no entry that `Load` finds, and not the mutex.
  remove_empty_keys-Agree : (n : NetConMap V) → IsMap n → Agree n (remove_empty_keys n)
  unfolding remove_empty_keys load inner SyncMap.load
  remove_empty_keys-Agree n d = record {
    unlocked = ground arith;
    mode = ground arith;
    entries = λ s k. ground (
      arith,
      delete_keys-Kept (SyncMap.range empty_key (replicate 10 "") n.deque) n.deque s (
          range-AllVacant n.deque n.deque (replicate 10 "") (λ j w e. e) d
            (unnamed-AllVacant n.deque 10)),
    );
  }

  -- So does the sweep that `LoadOrStore` makes now and then.
  pub count_and_sweep-Agree : (n : NetConMap V) → IsMap n → Agree n (count_and_sweep n)
  unfolding count_and_sweep
  count_and_sweep-Agree n d = elim (Bool-cases ((count_call n).tms % 3000 == 0)) [
    | inl due ↦ rw due (
        Agree-trans (count_call-Agree n)
          (remove_empty_keys-Agree (count_call n) (count_call-IsMap n d)))
    | inr not_due ↦ rw not_due (count_call-Agree n)
  ]
