-- ===== src/FifoQueue/Tests.antt =====
-- Runs of new/fifo_queue.go's queues at concrete inputs.
use gitee_fork_gateway.Prelude.{ℕ, ◌≡◌, refl, true, false, some, none, [], ◌∷◌, ◌++◌, arith, inr}
use gitee_fork_gateway.SyncMap
use gitee_fork_gateway.SyncMap.{load-delete}
use gitee_fork_gateway.QueueHandle.{QueueHandle, add_data}
use gitee_fork_gateway.FifoQueue.{FifoQueue, put, get, singel_put}
use gitee_fork_gateway.FifoQueue.Puts.{contents, Changed, put_once}
use gitee_fork_gateway.FifoQueue.Sweep.{get_front, get_blocks}

abbrev in_use : QueueHandle ℕ
in_use = record {
  de_queue = 5 ∷ 6 ∷ [];
  noti_fy = true;
  last_active_time = 100;
  mutex = false;
  status = true;
  free = false;
}

abbrev two_serials : FifoQueue ℕ
two_serials = record {
  deque = ("TTG1", in_use) ∷ ("TTG2", record in_use { de_queue = []; free = true }) ∷ [];
  single = none;
  calltime = 999;
}

shared_queue :
    (singel_put 7 two_serials 9)
    ≡ some (record two_serials {
      single = some (record in_use { de_queue = 9 ∷ []; last_active_time = 7 });
    })
unfolding singel_put add_data
shared_queue = refl

put_once_example :
    (f' : FifoQueue ℕ) × (put 1 (λ f. f) 120 two_serials "TTG1" 7 ≡ some f')
    × Changed two_serials f' "TTG1" (contents two_serials "TTG1" ++ (7 ∷ []))
unfolding SyncMap.load
put_once_example =
    put_once 0 (λ f. f) 120 two_serials "TTG1" 7
      (record { unlocked = refl; ready = refl; kept = refl })

get_front_example :
    (f' : FifoQueue ℕ) × (get 120 two_serials "TTG1" ≡ some (some 5, f'))
    × Changed two_serials f' "TTG1" (6 ∷ [])
unfolding SyncMap.load
get_front_example =
    get_front 120 two_serials "TTG1" in_use 5 (6 ∷ [])
      (
        record { unlocked = refl; recent = inr (omega arith) },
        (record { unlocked = refl; recent = inr (omega arith) }, tt),
      )
      refl (record { unlocked = refl; ready = refl; kept = refl }) refl

get_blocks_example : get 5000 two_serials "TTG9" ≡ none
get_blocks_example =
    get_blocks 5000 two_serials "TTG9" []
      (("TTG2", record in_use { de_queue = []; free = true }) ∷ []) "TTG1" in_use refl refl
      (record { ready = refl; old = omega arith })
