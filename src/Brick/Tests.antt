-- ===== src/Brick/Tests.antt =====
-- Runs of new/simple_pool.go's bricks at concrete inputs.
use gitee_fork_gateway.Prelude.{◌≡◌, refl, true, false, some, [], ◌∷◌, arith}
use gitee_fork_gateway.Brick.{
  MemBrick, check_and_acquire_free, load_mem, store_mem, is_all_free, memory_occurpy, alloc,
}
use gitee_fork_gateway.Brick.Memory.{load_mem-store_mem}

-- Three pieces of two bytes, the first taken.
abbrev three_pieces : MemBrick
three_pieces = record {
  addr = 4;
  alloc_bytes = 1 ∷ 2 ∷ 3 ∷ 4 ∷ 5 ∷ 6 ∷ [];
  alloc_piece_index = false ∷ true ∷ true ∷ [];
  each_size = 2;
}

abbrev two_taken : MemBrick
two_taken = record three_pieces { alloc_piece_index = false ∷ false ∷ true ∷ [] }

second_is_taken : check_and_acquire_free three_pieces ≡ (some 1, two_taken)
unfolding check_and_acquire_free
second_is_taken = refl

occupancy : memory_occurpy three_pieces ≡ 24
unfolding memory_occurpy
occupancy = refl

new_brick_free : is_all_free (alloc 0 5 4) ≡ true
unfolding is_all_free alloc
new_brick_free = refl

load_mem-store_mem_example :
    load_mem (store_mem three_pieces 1 (8 ∷ 9 ∷ [])) 2 ≡ load_mem three_pieces 2
load_mem-store_mem_example =
    load_mem-store_mem three_pieces 1 (8 ∷ 9 ∷ []) refl (omega arith) refl 2 (omega arith)
