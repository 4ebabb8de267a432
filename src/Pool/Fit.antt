-- ===== src/Pool/Fit.antt =====
-- `findBestFix`: the size of the pieces of a new brick.
use gitee_fork_gateway.Prelude.{ℕ, zero, suc, ◌+◌, ◌*◌, ◌≤◌, ◌<◌, ◌≡◌, ◌⊎◌, arith}
use gitee_fork_gateway.Pool.{fix_loop, find_best_fix}

-- The loop ends by its test when the fuel is enough, and has at most doubled past the size.
fix_loop_bounds :
    (fuel ret size : ℕ)
    → 0 < ret
    → size ≤ ret + fuel
    → (size ≤ fix_loop fuel ret size)
      × ((fix_loop fuel ret size ≡ ret) ⊎ (fix_loop fuel ret size < 2 * size))
unfolding fix_loop
fix_loop_bounds zero ret size pos h = ground arith
fix_loop_bounds (suc fuel) ret size pos h = ground (arith, fix_loop_bounds fuel (ret * 2) size)

-- A new brick's pieces hold the size asked for, and are either the least size 4 or smaller than
-- twice that size; so the doubling does not wrap where the size is at most 2^62.
pub find_best_fix_bounds :
    (size : ℕ)
    → (size ≤ find_best_fix size) × ((find_best_fix size ≡ 4) ⊎ (find_best_fix size < 2 * size))
unfolding find_best_fix
find_best_fix_bounds size = fix_loop_bounds size 4 size (omega arith) (omega arith)
