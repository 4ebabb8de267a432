-- ===== src/Pool/Tests.antt =====
-- Runs of new/simple_pool.go's pool at concrete inputs.
use gitee_fork_gateway.Prelude.{◌≡◌, refl, true, false, some, [], ◌∷◌, arith, replicate, is_some}
use gitee_fork_gateway.Brick.{MemBrick}
use gitee_fork_gateway.Pool.{find_brick, MemEntity, MemPool, get_entity, find_best_fix, total_size}
use gitee_fork_gateway.Pool.Hold.{piece}
use gitee_fork_gateway.Pool.Gets.{Held, get_entity-Held, get_entity_keeps, get_entity_total}

-- A brick of two pieces of eight bytes, the first taken, and one that is free.
abbrev half_full : MemBrick
half_full = record {
  addr = 0;
  alloc_bytes = replicate 16 7;
  alloc_piece_index = false ∷ true ∷ [];
  each_size = 8;
}

abbrev spare : MemBrick
spare = record {
  addr = 2;
  alloc_bytes = replicate 8 7;
  alloc_piece_index = true ∷ true ∷ [];
  each_size = 4;
}

abbrev two_bricks : MemPool
two_bricks = record {
  mem_brick_list = half_full ∷ spare ∷ [];
  retired = [];
  next_addr = 3;
  total_call = 999;
  last_rcd_time = 100;
}

abbrev got : MemEntity
got = record { index = 1; ack_times = 2; brick = 0 }

-- The 1000th call unlinks the spare brick.
collected :
    (get_entity two_bricks 2 6 150 151).1.mem_brick_list
    ≡ record half_full { alloc_piece_index = false ∷ false ∷ [] } ∷ []
unfolding get_entity
collected = refl

fit_of_1000 : find_best_fix 1000 ≡ 1024
unfolding find_best_fix
fit_of_1000 = refl

two_bricks_size : total_size two_bricks ≡ 56
unfolding total_size
two_bricks_size = refl

get_entity-Held_example : Held 6 2 two_bricks (get_entity two_bricks 2 6 150 151).1 got
unfolding get_entity
get_entity-Held_example = get_entity-Held two_bricks 2 6 150 151 got (omega arith) refl

get_entity_keeps_example :
    piece (get_entity two_bricks 2 6 150 151).1.mem_brick_list 0 0 ≡ some false
unfolding get_entity find_brick
get_entity_keeps_example = get_entity_keeps two_bricks 2 6 150 151 0 0 refl

get_entity_total_example : is_some (get_entity two_bricks 2 6 150 151).0 ≡ true
get_entity_total_example = get_entity_total two_bricks 2 6 150 151

-- The piece that is taken, shared by three servers.
abbrev shared : MemEntity
shared = record { index = 0; ack_times = 3; brick = 0 }
