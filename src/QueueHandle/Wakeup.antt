-- ===== src/QueueHandle/Wakeup.antt =====
-- `AddData` and `PopData` of several goroutines, step by step, on a queue that is initialised and
-- not freed. Each step is what one goroutine does between two points at which others can run.
use gitee_fork_gateway.Prelude.{
  ℕ, suc, ◌≡◌, refl, ◌≢◌, true, false, some, List, [], ◌∷◌, ◌++◌, arith,
}
use mathlib.Core.Path.{subst}
use gitee_fork_gateway.QueueHandle.{QueueHandle, receive, take_front}

-- `pending` holds the values of the writers that have done the `select` and not yet pushed. Readers
-- wait on the channel, are past it (`awake`), or are not in `PopData` (`busy`).
pub record Sched {ℓ} (V : Type ℓ) : Type ℓ where
  pub handle : QueueHandle V
  pub pending : List V
  pub waiting : ℕ
  pub awake : ℕ
  pub busy : ℕ

pub data Step {ℓ} {V : Type ℓ} (s : Sched V) : Sched V → Type ℓ where
  -- A writer does the `select`.
  send :
      (v : V)
      → Step s (record s { handle = record s.handle { noti_fy = true }; pending = v ∷ s.pending })
  -- A writer pushes its value.
  push :
      (v : V) (before after : List V)
      → s.pending ≡ before ++ v ∷ after
      → Step s (record s {
        handle = record s.handle { de_queue = s.handle.de_queue ++ (v ∷ []) };
        pending = before ++ after;
      })
  -- A reader sees an empty queue.
  enter_wait :
      (n : ℕ)
      → s.busy ≡ suc n
      → s.handle.de_queue ≡ []
      → Step s (record s { waiting = suc s.waiting; busy = n })
  -- A reader sees a value in the queue.
  enter_take :
      (n : ℕ)
      → s.busy ≡ suc n
      → s.handle.de_queue ≢ []
      → Step s (record s { awake = suc s.awake; busy = n })
  -- A waiting reader receives from the channel.
  wake :
      (n : ℕ) (h : QueueHandle V)
      → s.waiting ≡ suc n
      → receive s.handle ≡ some h
      → Step s (record s { handle = h; waiting = n; awake = suc s.awake })
  -- A reader takes the front, or returns nil.
  take :
      (n : ℕ)
      → s.awake ≡ suc n
      → Step s (record s { handle = (take_front s.handle).1; awake = n; busy = suc s.busy })

pub data Reach {ℓ} {V : Type ℓ} (s : Sched V) : Sched V → Type ℓ where
  here : Reach s s
  next : {t u : Sched V} → Reach s t → Step t u → Reach s u

-- All readers wait, the channel and the queue are empty, and nobody is about to push.
pub record IsIdle {ℓ} {V : Type ℓ} (s : Sched V) : Type ℓ where
  pub empty : s.handle.de_queue ≡ []
  pub no_item : s.handle.noti_fy ≡ false
  pub no_writer : s.pending ≡ []
  pub none_awake : s.awake ≡ 0
  pub none_busy : s.busy ≡ 0

-- The next step can only be a writer's `select`.
pub data IsSend {ℓ} {V : Type ℓ} (s : Sched V) (u : Sched V) : Type ℓ where
  is_send :
      (v : V)
      → u ≡ record s { handle = record s.handle { noti_fy = true }; pending = v ∷ s.pending }
      → IsSend s u

module _ {ℓ} {V : Type ℓ} where
  -- The same readers wait, with `v` in the queue.
  abbrev pub stuck_with : Sched V → V → Sched V
  stuck_with s v = record s { handle = record s.handle { de_queue = v ∷ [] } }

  stuck_step :
      (s : Sched V) (v : V) (u : Sched V)
      → IsIdle s
      → Step (stuck_with s v) u
      → IsSend (stuck_with s v) u
  unfolding receive
  stuck_step s v u i (send w) = is_send w refl
  stuck_step s v u i (push w [] after e) = absurd (ground arith)
  stuck_step s v u i (push w (x ∷ before) after e) = absurd (ground arith)
  stuck_step s v u i (enter_wait n e q) = absurd (ground arith)
  stuck_step s v u i (enter_take n e q) = absurd (ground arith)
  stuck_step s v u i (wake n h e r) = absurd (ground arith)
  stuck_step s v u i (take n e) = absurd (ground arith)

  -- The five steps: a writer's `select`, a reader woken by it, its `take` of nothing, its next wait,
  -- and the writer's push.
  idle_to_stuck :
      (s : Sched V) (v : V) (n : ℕ)
      → IsIdle s
      → s.waiting ≡ suc n
      → (u : Sched V) × Reach s u × (u ≡ stuck_with s v)
  unfolding receive take_front
  idle_to_stuck s v n i w = (
    _,
    next
        (next
          (next
            (next (next here (send v))
              (wake n (record s.handle { noti_fy = false }) w (ground arith)))
            (take 0 (ground arith)))
          (enter_wait 0 (ground arith) (ground arith)))
        (push v [] [] (ground arith)),
    ground arith,
  )

  -- A value can be lost to the readers: from an idle queue at which a reader waits, one `AddData`
  -- and the `PopData` of a reader can run so that all readers wait again while the value is in the
  -- queue; every step from there is the `select` of another `AddData`.
  pub lost_wakeup :
      (s : Sched V) (v : V) (n : ℕ) (u : Sched V)
      → IsIdle s
      → s.waiting ≡ suc n
      → Step (stuck_with s v) u
      → Reach s (stuck_with s v) × IsSend (stuck_with s v) u
  lost_wakeup s v n u i w st =
      let (t, path, e) = idle_to_stuck s v n i w in (subst (Reach s) e path, stuck_step s v u i st)
