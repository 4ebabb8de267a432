-- ===== src/NetConMap/Exists.antt =====
-- `IsKeyExist` against `Load`.
use gitee_fork_gateway.Prelude.{
  ◌≡◌, refl, ◌⊎◌, true, false, Option, none, some, [], ◌∷◌, String, str_eq_iff, arith, Bool-cases,
  is_some, inl, inr,
}
use gitee_fork_gateway.SyncMap.{SyncMap}
use gitee_fork_gateway.SyncMap
use gitee_fork_gateway.NetConMap.{NetConMap, inner, load, is_key_exist}
use gitee_fork_gateway.NetConMap.View.{view}

module _ {ℓ} {V : Type ℓ} where
  -- The first address of an inner map, if it has one.
  first_key : Option (SyncMap V) → String
  first_key none = ""
  first_key (some []) = ""
  first_key (some ((k, v) ∷ mp)) = k

  exists_in :
      (n : NetConMap V) (s : String) (found : Option (SyncMap V))
      → n.allow_dup ≡ true
      → inner n s ≡ found
      → is_key_exist n s ≡ true
      → is_some (view n s (first_key found)) ≡ true
  unfolding is_key_exist load first_key SyncMap.load SyncMap.range
  exists_in n s none dup e t = ground arith
  exists_in n s (some []) dup e t = ground arith
  exists_in n s (some ((k, v) ∷ mp)) dup e t = ground (arith, str_eq_iff k k)

  absent_in :
      (n : NetConMap V) (s k : String) (found : Option (SyncMap V))
      → n.allow_dup ≡ true
      → inner n s ≡ found
      → is_key_exist n s ≡ false
      → view n s k ≡ none
  unfolding is_key_exist load SyncMap.load SyncMap.range
  absent_in n s k none dup e f = ground arith
  absent_in n s k (some []) dup e f = ground arith
  absent_in n s k (some ((j, v) ∷ mp)) dup e f = ground arith

  -- `IsKeyExist` answers true where `Load` finds an entry of the serial at some address, and false
  -- where it finds none at any address.
  pub is_key_exist_lem :
      (n : NetConMap V) (s : String)
      → ((is_key_exist n s ≡ true) × ((k : String) × (is_some (view n s k) ≡ true)))
        ⊎ ((is_key_exist n s ≡ false) × ((k : String) → view n s k ≡ none))
  unfolding is_key_exist load
  is_key_exist_lem n s = elim (Bool-cases (is_key_exist n s)) [
    | inl t ↦ elim (Bool-cases n.allow_dup) [
      | inl dup ↦ inl (t, (first_key (inner n s), exists_in n s (inner n s) dup refl t))
      | inr no_dup ↦ inl (t, ("", ground arith))
    ]
    | inr f ↦ elim (Bool-cases n.allow_dup) [
      | inl dup ↦ inr (f, λ k. absent_in n s k (inner n s) dup refl f)
      | inr no_dup ↦ inr (f, λ k. ground arith)
    ]
  ]
