-- ===== src/Observer/Made.antt =====
-- The observer's message can be made wherever no server is nil.
use gitee_fork_gateway.Prelude.{Bool, ◌≡◌, refl, Option, none, some, List, [], ◌∷◌, String, length}
use gitee_fork_gateway.SyncMap.{SyncMap}
use gitee_fork_gateway.SyncMap
use gitee_fork_gateway.Entities.{DataWrapper}
use gitee_fork_gateway.Dispatch.{
  Server, Update, all_update, web_update, app_update, none_update, update_for, activity_loop,
  serial_activity_map,
}
use gitee_fork_gateway.HandOut.{Lines}
use gitee_fork_gateway.Observer.{
  Named, server_of, update_bytes, merge_flags, merge_loop, message_for,
}

-- No server of the list is nil.
abbrev pub Present : List (Option (Server DataWrapper)) → Type 0
Present [] = Unit
Present (none ∷ vs) = ⊥
Present (some s ∷ vs) = Present vs

activity_loop-Present :
    (vs : List (Option (Server DataWrapper))) (serial : String) (ret : SyncMap Bool)
    → Present vs
    → (mp : SyncMap Bool) × (activity_loop vs serial ret ≡ some mp)
unfolding activity_loop
activity_loop-Present [] serial ret p = (ret, refl)
activity_loop-Present (none ∷ vs) serial ret p = absurd p
activity_loop-Present (some v ∷ vs) serial ret p =
    activity_loop-Present vs serial (SyncMap.store v.serial (v.serial_is_activity serial) ret) p

serial_activity_map-Present :
    (v : Server DataWrapper) (vs : List (Option (Server DataWrapper))) (serial : String)
    → Present vs
    → (mp : SyncMap Bool) × (serial_activity_map v vs serial ≡ some mp)
unfolding serial_activity_map
serial_activity_map-Present v vs serial p =
    activity_loop-Present vs serial (SyncMap.store v.serial (v.serial_is_activity serial) []) p

module _ (tables : String → List (Option (Server DataWrapper)))
    (linked : (name : String) → Present (tables name)) (serial : String) where
  merge_loop-Present :
      (vs : List (Option (Server DataWrapper))) (mp : SyncMap Bool)
      → Present vs
      → (mp' : SyncMap Bool) × (merge_loop tables serial vs mp ≡ some mp')
  unfolding merge_loop
  merge_loop-Present [] mp p = (mp, refl)
  merge_loop-Present (none ∷ vs) mp p = absurd p
  merge_loop-Present (some vi ∷ vs) mp p =
      let (mp0, e) = serial_activity_map-Present vi (tables vi.serial) serial (linked vi.serial) in
      let (mp', e') = merge_loop-Present vs (merge_flags mp mp0) p in (mp', (rw (e, e') refl))

  -- Where neither the server's table nor a peer's has a nil, there is a message, one of the four.
  pub message_for-Present :
      (v : Named) (l : Lines)
      → Present l.to_broad_cast
      → (u : Update) × (message_for tables v l serial ≡ some (update_bytes u))
  unfolding message_for
  message_for-Present v l p =
      let (mp, e) = serial_activity_map-Present (server_of v l) l.to_broad_cast serial p in
      let (mp', e') = merge_loop-Present l.to_broad_cast mp p in (update_for mp', (rw (e, e') refl))

-- Each of the four texts has 33 bytes.
pub length-update_bytes : (u : Update) → length (update_bytes u) ≡ 33
unfolding update_bytes
length-update_bytes all_update = refl
length-update_bytes web_update = refl
length-update_bytes app_update = refl
length-update_bytes none_update = refl
