-- ===== src/QueueHandle/Tests.antt =====
-- Runs of new/fifo_queue.go's queue at concrete inputs.
use gitee_fork_gateway.Prelude.{ℕ, ◌+◌, ◌<◌, ◌⊎◌, ◌≡◌, refl, true, false, some, none, [], ◌∷◌, List}
use gitee_fork_gateway.QueueHandle.{QueueHandle, new_handle, add_data, pop_data, can_gc}
use gitee_fork_gateway.QueueHandle.Order.{Op, adds, pops, enough, Ran, run, run-Ran}
use gitee_fork_gateway.QueueHandle.Wakeup.{Sched, send, Reach, IsSend, stuck_with, lost_wakeup}
use gitee_fork_gateway.QueueHandle.Gc.{can_gc_lem}

abbrev one_value : QueueHandle ℕ
one_value = record {
  de_queue = 5 ∷ [];
  noti_fy = true;
  last_active_time = 100;
  mutex = false;
  status = true;
  free = false;
}

abbrev calls : List (Op ℕ)
calls = adds 6 ∷ pops ∷ adds 7 ∷ pops ∷ []

popped_in_order :
    run 120 one_value calls
    ≡ some (5 ∷ 6 ∷ [], record one_value { de_queue = 7 ∷ []; last_active_time = 120 })
unfolding run add_data pop_data
popped_in_order = refl

nil_popped :
    pop_data 120 (record one_value { de_queue = [] })
    ≡ some (none, record one_value { de_queue = []; noti_fy = false; last_active_time = 120 })
unfolding pop_data
nil_popped = refl

empty_waits : pop_data {V = ℕ} 120 new_handle ≡ none
unfolding pop_data
empty_waits = refl

run-Ran_example : Ran 120 one_value calls
unfolding enough
run-Ran_example =
    run-Ran 120 one_value calls (record { unlocked = refl; ready = refl; kept = refl }) refl

abbrev idle_readers : Sched ℕ
idle_readers = record {
  handle = record one_value { de_queue = []; noti_fy = false };
  pending = [];
  waiting = 2;
  awake = 0;
  busy = 0;
}

abbrev next_sender : Sched ℕ
next_sender = record (stuck_with idle_readers 9) {
  handle = record one_value { de_queue = 9 ∷ [] };
  pending = 8 ∷ [];
}

lost_wakeup_example :
    Reach idle_readers (stuck_with idle_readers 9) × IsSend (stuck_with idle_readers 9) next_sender
lost_wakeup_example =
    lost_wakeup idle_readers 9 1 next_sender
      (record {
        empty = refl;
        no_item = refl;
        no_writer = refl;
        none_awake = refl;
        none_busy = refl;
      })
      refl (send 8)

can_gc_lem_example :
    (((true ≡ true) × (100 + 3000 < 5000)) × (can_gc 5000 one_value ≡ none))
    ⊎ (((true ≡ false) ⊎ (5000 < 100 + 3001)) × (can_gc 5000 one_value ≡ some (false, one_value)))
can_gc_lem_example = can_gc_lem 5000 one_value refl
