-- ===== src/Entities/Tests.antt =====
-- An entity of a one-brick pool, taken, released and freed.
use gitee_fork_gateway.Prelude.{◌≡◌, refl, true, false, none, some, [], ◌∷◌, arith}
use gitee_fork_gateway.Brick.{load_mem, store_mem}
use gitee_fork_gateway.Brick.Rows.{row}
use gitee_fork_gateway.Pool.Slices.{row_at}
use gitee_fork_gateway.Entities.Acks.{ack_of}
use gitee_fork_gateway.Entities.Seen.{IsSound, seen, place, Apart}
use gitee_fork_gateway.Entities.Runs.{Run, here, other, own, writes, Run-release}
use gitee_fork_gateway.Pool.{
  empty_pool, bytes, find_brick, put_brick, brick_of, write_brick, release_onece,
}
use gitee_fork_gateway.Entities.{Store, slice, put_slice, release}

-- A pool of one brick of 2 pieces of 2 bytes, whose first piece is held by an entity of count 2.
abbrev store : Store
store = record {
  pool = record empty_pool {
    mem_brick_list =
        record {
          addr = 0;
          alloc_bytes = 65 ∷ 66 ∷ 67 ∷ 68 ∷ [];
          alloc_piece_index = false ∷ true ∷ [];
          each_size = 2;
        }
        ∷ [];
    next_addr = 1;
  };
  entities = record { index = 0; ack_times = 2; brick = 0 } ∷ [];
}

first_piece : slice store 0 ≡ some (65 ∷ 66 ∷ [], 2)
unfolding slice bytes find_brick
first_piece = refl

-- One release lowers the count; the piece is still held.
counted :
    release store 0
    ≡ some (record store { entities = record { index = 0; ack_times = 1; brick = 0 } ∷ [] })
unfolding release release_onece find_brick
counted = refl

-- The second piece is held by another entity.
abbrev two : Store
two = record store {
  pool = record empty_pool {
    mem_brick_list =
        record {
          addr = 0;
          alloc_bytes = 65 ∷ 66 ∷ 67 ∷ 68 ∷ [];
          alloc_piece_index = false ∷ false ∷ [];
          each_size = 2;
        }
        ∷ [];
    next_addr = 1;
  };
  entities =
      record { index = 0; ack_times = 2; brick = 0 }
      ∷ record { index = 1; ack_times = 1; brick = 0 }
      ∷ [];
}

-- After the first release, and after a write of the other holder.
abbrev shared : Store
shared = record two {
  entities =
      record { index = 0; ack_times = 1; brick = 0 }
      ∷ record { index = 1; ack_times = 1; brick = 0 }
      ∷ [];
}

abbrev written : Store
written = record shared {
  pool = record empty_pool {
    mem_brick_list =
        record {
          addr = 0;
          alloc_bytes = 65 ∷ 66 ∷ 69 ∷ 70 ∷ [];
          alloc_piece_index = false ∷ false ∷ [];
          each_size = 2;
        }
        ∷ [];
    next_addr = 1;
  };
}

two-IsSound : IsSound two
unfolding empty_pool
two-IsSound = record { valid = (omega arith, omega arith); whole = (refl, record {}) }

apart : Apart shared 1 0
unfolding place
apart e = ground arith

writing : put_slice shared 1 (69 ∷ 70 ∷ []) ≡ some written
unfolding put_slice brick_of write_brick store_mem find_brick put_brick empty_pool
writing = refl

releasing : release two 0 ≡ some shared
unfolding release release_onece find_brick
releasing = refl

other_slice : seen shared 1 ≡ some (67 ∷ 68 ∷ [], 2)
unfolding seen row_at find_brick row load_mem empty_pool
other_slice = refl

steps : Run 0 1 two written
steps = own 0 two shared written releasing (
    other 0 shared written written
      (writes 1 2 (67 ∷ 68 ∷ []) (69 ∷ 70 ∷ []) apart other_slice refl writing) (here written))

Run-release_example :
    (seen written 0 ≡ some (65 ∷ 66 ∷ [], 2))
    × (s'' : Store) × (release written 0 ≡ some s'')
    × (seen s'' 0 ≡ none)
unfolding seen row_at find_brick row load_mem empty_pool ack_of
Run-release_example =
    Run-release 0 0 1 (65 ∷ 66 ∷ [], 2) two written two-IsSound refl refl (omega arith) steps
