-- ===== src/SyncMap.antt =====
-- `sync.Map` with string keys, as the maps of the servers use it: an association list. Each call is
-- one atomic step, and `Range` meets the entries in the list's order.
use gitee_fork_gateway.Prelude.{
  ◌≡◌, refl, Bool, true, false, Option, none, some, List, [], ◌∷◌, String, str_eq, str_eq_iff,
  if◌then◌else◌, arith,
}

abbrev pub SyncMap {ℓ} : Type ℓ → Type ℓ
SyncMap V = List (String × V)

module _ {ℓ} {V : Type ℓ} where
  unfoldable pub load : String → SyncMap V → Option V
  load k [] = none
  load k ((j, v) ∷ m) = if str_eq j k then some v else load k m

  unfoldable pub store : String → V → SyncMap V → SyncMap V
  store k v [] = (k, v) ∷ []
  store k v ((j, w) ∷ m) = if str_eq j k then (k, v) ∷ m else (j, w) ∷ store k v m

  unfoldable pub delete : String → SyncMap V → SyncMap V
  delete k [] = []
  delete k ((j, w) ∷ m) = let rest = delete k m in if str_eq j k then rest else (j, w) ∷ rest

  -- The value there is, with true; or the value stored, with false.
  unfoldable pub load_or_store : String → V → SyncMap V → (V × Bool) × SyncMap V
  unfolding load store
  load_or_store k v m = elim (load k m) [
    | some old ↦ ((old, true), m)
    | none ↦ ((v, false), store k v m)
  ]

  -- `Range`: the visitor returns false to stop.
  unfoldable pub range {κ} : {S : Type κ} → (String → V → S → S × Bool) → S → SyncMap V → S
  range f s [] = s
  range f s ((k, v) ∷ m) =
      let (s', more) = f k v s in let rest = range f s' m in if more then rest else s'

  pub load-store :
      (k j : String) (v : V) (m : SyncMap V)
      → load j (store k v m) ≡ (if str_eq k j then some v else load j m)
  unfolding load store
  load-store k j v [] = refl
  load-store k j v ((i, w) ∷ m) =
      ground (arith, str_eq_iff k j, str_eq_iff i k, str_eq_iff i j, load-store k j v m)

  pub load-delete :
      (k j : String) (m : SyncMap V) → load j (delete k m) ≡ (if str_eq k j then none else load j m)
  unfolding load delete
  load-delete k j [] = ground arith
  load-delete k j ((i, w) ∷ m) =
      ground (arith, str_eq_iff k j, str_eq_iff i k, str_eq_iff i j, load-delete k j m)

  pub load-store_self : (k : String) (v : V) (m : SyncMap V) → load k (store k v m) ≡ some v
  load-store_self k v m = ground (arith, load-store k k v m, str_eq_iff k k)
