-- ===== src/NetConMap/Tests.antt =====
-- Runs of new/thread_safe_map.go at concrete inputs.
use gitee_fork_gateway.Prelude.{ℕ, ◌≡◌, refl, Bool, true, false, some, [], ◌∷◌}
use gitee_fork_gateway.SyncMap
use gitee_fork_gateway.SyncMap.{SyncMap}
use gitee_fork_gateway.NetConMap.{
  NetConMap, Value, conn, table, count_and_sweep, load_or_store, remove_empty_keys,
}
use gitee_fork_gateway.NetConMap.View.{alone}
use gitee_fork_gateway.NetConMap.Entry.{Entered, load_or_store-Entered}

-- Two serials, one of them with no connection left; the next call is the 3000th.
abbrev devices : NetConMap ℕ
devices = record {
  deque = ("TTG1", table (("10.0.0.1", 7) ∷ [])) ∷ ("TTG2", table []) ∷ [];
  allow_dup = true;
  mtx = false;
  tms = 2999;
}

abbrev single : NetConMap ℕ
single = record { deque = ("TTG1", conn 7) ∷ []; allow_dup = false; mtx = false; tms = 0 }

swept : (count_and_sweep devices).deque ≡ ("TTG1", table (("10.0.0.1", 7) ∷ [])) ∷ []
unfolding count_and_sweep remove_empty_keys SyncMap.range SyncMap.delete
swept = refl

load_or_store-Entered_example :
    (r : (Value ℕ × Bool) × NetConMap ℕ) × (load_or_store alone devices "TTG1" "10.0.0.1" 9
      ≡ some r)
    × Entered devices "TTG1" "10.0.0.1" 9 r
unfolding SyncMap.load
load_or_store-Entered_example =
    load_or_store-Entered devices "TTG1" "10.0.0.1" 9 (refl, (refl, tt)) refl
