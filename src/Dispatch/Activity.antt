-- ===== src/Dispatch/Activity.antt =====
-- The activity that a server's map reports.
use gitee_fork_gateway.Prelude.{
  ◌≡◌, refl, ap, ◌∙◌, Bool, Option, none, some, List, [], ◌∷◌, String, str_eq, if◌then◌else◌,
}
use gitee_fork_gateway.SyncMap.{SyncMap, load-store}
use gitee_fork_gateway.SyncMap
use gitee_fork_gateway.Dispatch.{Server, activity_loop, serial_activity_map}

module _ {ℓ} {V : Type ℓ} where
  -- The flag of a name after the loop, from the one before it: that of the last server of the name.
  unfoldable pub last_flag : String → String → Option Bool → List (Server V) → Option Bool
  last_flag name serial seen [] = seen
  last_flag name serial seen (v ∷ vs) =
      last_flag name serial
        (if str_eq v.serial name then some (v.serial_is_activity serial) else seen) vs

  abbrev pub all_set : List (Server V) → List (Option (Server V))
  all_set [] = []
  all_set (v ∷ vs) = some v ∷ all_set vs

  activity_loop-last_flag :
      (vs : List (Server V)) (serial : String) (ret : SyncMap Bool)
      → (mp : SyncMap Bool) × (activity_loop (all_set vs) serial ret ≡ some mp)
        × ((name : String)
            → SyncMap.load name mp ≡ last_flag name serial (SyncMap.load name ret) vs)
  unfolding activity_loop last_flag
  activity_loop-last_flag [] serial ret = (ret, refl, λ name. refl)
  activity_loop-last_flag (v ∷ vs) serial ret =
      let (mp, e, f) =
        activity_loop-last_flag vs serial
          (SyncMap.store v.serial (v.serial_is_activity serial) ret) in
      (
        mp,
        e,
        λ name.
            f name
            ∙ ap (λ o. last_flag name serial o vs)
                (load-store v.serial name (v.serial_is_activity serial) ret),
      )

  -- Where no server is nil, `SerialActivityMap` does not panic, and the map reports under each name
  -- the activity of the last server of that name, the server itself being the first; a name of no
  -- server is not in the map.
  pub serial_activity_map_lem :
      (t : Server V) (vs : List (Server V)) (serial : String)
      → (mp : SyncMap Bool) × (serial_activity_map t (all_set vs) serial ≡ some mp)
        × ((name : String) → SyncMap.load name mp ≡ last_flag name serial none (t ∷ vs))
  unfolding serial_activity_map last_flag SyncMap.load
  serial_activity_map_lem t vs serial = activity_loop-last_flag (t ∷ vs) serial []
