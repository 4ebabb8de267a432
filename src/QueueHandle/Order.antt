-- ===== src/QueueHandle/Order.antt =====
-- First in, first out.
use gitee_fork_gateway.Prelude.{
  ℕ, zero, suc, ◌≡◌, refl, sym, ◌∙◌, ap, Bool, true, false, Option, none, some, List, [], ◌∷◌, ◌++◌,
  length, length-append, arith, ◌>>=◌, append_assoc, append-nil,
}
use native.Mathlib.Numerals.{add-one}
use gitee_fork_gateway.QueueHandle.{QueueHandle, add_data, pop_data}

-- The queue is in use, and nobody is inside.
pub record IsOpen {ℓ} {V : Type ℓ} (q : QueueHandle V) : Type ℓ where
  pub unlocked : q.mutex ≡ false
  pub ready : q.status ≡ true
  pub kept : q.free ≡ false

module _ {ℓ} {V : Type ℓ} where
  -- What `AddData` and `PopData` do to an open queue.
  pub add_data-open :
      (now : ℕ) (q : QueueHandle V) (v : V)
      → IsOpen q
      → add_data now q v
        ≡ some (
          true,
          record q { de_queue = q.de_queue ++ (v ∷ []); noti_fy = true; last_active_time = now },
        )
  unfolding add_data
  add_data-open now q v o = ground arith

  pub pop_data-open :
      (now : ℕ) (q : QueueHandle V) (v : V) (vs : List V)
      → IsOpen q
      → q.de_queue ≡ v ∷ vs
      → pop_data now q ≡ some (some v, record q { de_queue = vs; last_active_time = now })
  unfolding pop_data
  pop_data-open now q v vs o e = ground arith

-- The calls on one queue, one after the other.
pub data Op {ℓ} (V : Type ℓ) : Type ℓ where
  adds : V → Op V
  pops : Op V

module _ {ℓ} {V : Type ℓ} where
  abbrev pub keep_some : Option V → List V → List V
  keep_some none vs = vs
  keep_some (some v) vs = v ∷ vs

  -- The values that the pops return, nil left out, and the queue at the end.
  unfoldable pub run : ℕ → QueueHandle V → List (Op V) → Option (List V × QueueHandle V)
  run now q [] = some ([], q)
  run now q (adds v ∷ ops) = do (ok, q') ← add_data now q v; run now q' ops
  run now q (pops ∷ ops) = do
    (v, q') ← pop_data now q
    (vs, q'') ← run now q' ops
    some (keep_some v vs, q'')

  unfoldable pub added : List (Op V) → List V
  added [] = []
  added (adds v ∷ ops) = v ∷ added ops
  added (pops ∷ ops) = added ops

  -- No prefix of the calls pops more than there is, from `n` values on.
  unfoldable pub enough : ℕ → List (Op V) → Bool
  enough n [] = true
  enough n (adds v ∷ ops) = enough (suc n) ops
  enough zero (pops ∷ ops) = false
  enough (suc n) (pops ∷ ops) = enough n ops

  -- How a run ends: what came out, then what is left, is what was there, then what was added.
  pub record Ran (now : ℕ) (q : QueueHandle V) (ops : List (Op V)) : Type ℓ where
    pub out : List V
    pub last : QueueHandle V
    pub returned : run now q ops ≡ some (out, last)
    pub still_open : IsOpen last
    pub fifo : out ++ last.de_queue ≡ q.de_queue ++ added ops

  after_add :
      (now : ℕ) (q : QueueHandle V) (v : V) (ops : List (Op V))
      → IsOpen q
      → Ran now
          (record q { de_queue = q.de_queue ++ (v ∷ []); noti_fy = true; last_active_time = now })
          ops
      → Ran now q (adds v ∷ ops)
  unfolding run added
  after_add now q v ops o r = record {
    out = r.out;
    last = r.last;
    returned = rw (add_data-open now q v o) r.returned;
    still_open = r.still_open;
    fifo = r.fifo ∙ append_assoc q.de_queue (v ∷ []) (added ops);
  }

  after_pop :
      (now : ℕ) (q : QueueHandle V) (v : V) (vs : List V) (ops : List (Op V))
      → IsOpen q
      → q.de_queue ≡ v ∷ vs
      → Ran now (record q { de_queue = vs; last_active_time = now }) ops
      → Ran now q (pops ∷ ops)
  unfolding run added
  after_pop now q v vs ops o e r = record {
    out = v ∷ r.out;
    last = r.last;
    returned = rw (pop_data-open now q v vs o e, r.returned);
    still_open = r.still_open;
    fifo = ap (λ t. v ∷ t) r.fifo ∙ ap (λ t. t ++ added ops) (sym e);
  }

  run_from :
      (now : ℕ) (ops : List (Op V)) (q : QueueHandle V) (xs : List V)
      → q.de_queue ≡ xs
      → IsOpen q
      → enough (length xs) ops ≡ true
      → Ran now q ops
  unfolding run added enough
  run_from now [] q xs e o h = record {
    out = [];
    last = q;
    returned = refl;
    still_open = o;
    fifo = sym (append-nil q.de_queue);
  }
  run_from now (adds v ∷ ops) q xs e o h = after_add now q v ops o (
      run_from now ops _ (xs ++ (v ∷ [])) (ap (λ t. t ++ (v ∷ [])) e) (ground arith)
        (rw (length-append xs (v ∷ []), add-one) h))
  run_from now (pops ∷ ops) q [] e o h = cc
  run_from now (pops ∷ ops) q (v ∷ vs) e o h = after_pop now q v vs ops o e (
      run_from now ops (record q { de_queue = vs; last_active_time = now }) vs refl (ground arith)
        h)

  -- Where no call pops more than there is, every call returns, and what is popped comes out in the
  -- order in which it went in: what came out, then what is left, is what was there, then what was
  -- added.
  pub run-Ran :
      (now : ℕ) (q : QueueHandle V) (ops : List (Op V))
      → IsOpen q
      → enough (length q.de_queue) ops ≡ true
      → Ran now q ops
  run-Ran now q ops o h = run_from now ops q q.de_queue refl o h
