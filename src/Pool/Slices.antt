-- ===== src/Pool/Slices.antt =====
-- The bytes that the holder of a piece sees, across the operations of the pool.
use gitee_fork_gateway.Prelude.{ℕ, ◌≡◌, Option, some, List, [], ◌∷◌, ◌++◌, ◌>>=◌, arith}
use gitee_fork_gateway.Brick.{MemBrick, alloc, check_and_acquire_free}
use gitee_fork_gateway.Brick.Memory.{IsWhole}
use gitee_fork_gateway.Brick.Rows.{
  row, row-check_and_acquire_free, row_not_free, IsWhole-check_and_acquire_free, IsWhole-alloc,
}
use gitee_fork_gateway.Pool.{
  MemPool, find_brick, unlink_free, remove_node, acquire_loop, add_new, find_best_fix, try_entity,
  retry_entity, connect, collect, remove_one_node, is_time_out, get_entity,
}

-- The slice of a taken piece of a brick of the chain.
unfoldable pub row_at : List MemBrick → ℕ → ℕ → Option (List ℕ × ℕ)
unfolding find_brick
row_at chain a i = do m ← find_brick a chain; row m i

-- All bricks of a chain are whole.
abbrev pub AllWhole : List MemBrick → Type 0
AllWhole [] = Unit
AllWhole (b ∷ bs) = IsWhole b × AllWhole bs

addr-check_and_acquire_free : (m : MemBrick) → (check_and_acquire_free m).1.addr ≡ m.addr
unfolding check_and_acquire_free
addr-check_and_acquire_free m = ground arith

acquire_loop-row_at :
    (size : ℕ) (chain : List MemBrick) (a i : ℕ) (x : List ℕ × ℕ)
    → row_at chain a i ≡ some x
    → row_at (acquire_loop size chain).1 a i ≡ some x
unfolding acquire_loop row_at find_brick
acquire_loop-row_at size [] a i x h = h
acquire_loop-row_at size (b ∷ bs) a i x h = ground (
  arith,
  acquire_loop-row_at size bs a i x,
  row-check_and_acquire_free b i x,
  addr-check_and_acquire_free b,
)

append-row_at :
    (chain : List MemBrick) (m : MemBrick) (a i : ℕ) (x : List ℕ × ℕ)
    → row_at chain a i ≡ some x
    → row_at (chain ++ (m ∷ [])) a i ≡ some x
unfolding row_at find_brick
append-row_at [] m a i x h = cc
append-row_at (b ∷ bs) m a i x h = ground (arith, append-row_at bs m a i x)

unlink_free-row_at :
    (chain : List MemBrick) (a i : ℕ) (x : List ℕ × ℕ)
    → row_at chain a i ≡ some x
    → row_at (unlink_free chain).0 a i ≡ some x
unfolding unlink_free row_at find_brick
unlink_free-row_at [] a i x h = h
unlink_free-row_at (b ∷ bs) a i x h =
    ground (arith, unlink_free-row_at bs a i x, row_not_free b i x)

remove_node-row_at :
    (chain : List MemBrick) (a i : ℕ) (x : List ℕ × ℕ)
    → row_at chain a i ≡ some x
    → row_at (remove_node chain).0 a i ≡ some x
unfolding remove_node row_at find_brick
remove_node-row_at [] a i x h = h
remove_node-row_at (b ∷ []) a i x h = h
remove_node-row_at (b ∷ c ∷ bs) a i x h =
    ground (arith, unlink_free-row_at (c ∷ bs) a i x, row_not_free b i x)

try_entity-row_at :
    (p : MemPool) (ack size a i : ℕ) (x : List ℕ × ℕ)
    → row_at p.mem_brick_list a i ≡ some x
    → row_at (try_entity p ack size).1.mem_brick_list a i ≡ some x
unfolding try_entity add_new connect
try_entity-row_at p ack size a i x h = ground (
  arith,
  acquire_loop-row_at size p.mem_brick_list a i x h,
  append-row_at p.mem_brick_list (alloc p.next_addr 1024 (find_best_fix size)) a i x h,
)

collect-row_at :
    (p : MemPool) (now later a i : ℕ) (x : List ℕ × ℕ)
    → row_at p.mem_brick_list a i ≡ some x
    → row_at (collect p now later).mem_brick_list a i ≡ some x
unfolding collect remove_one_node is_time_out
collect-row_at p now later a i x h = ground (arith, remove_node-row_at p.mem_brick_list a i x h)

-- `GetEntity` leaves the slice of every taken piece as it was.
pub get_entity-row_at :
    (p : MemPool) (ack size now later a i : ℕ) (x : List ℕ × ℕ)
    → row_at p.mem_brick_list a i ≡ some x
    → row_at (get_entity p ack size now later).1.mem_brick_list a i ≡ some x
unfolding get_entity retry_entity
get_entity-row_at p ack size now later a i x h =
    collect-row_at ((retry_entity (try_entity p ack size) ack size).1) now later a i x (
      ground (
        arith,
        try_entity-row_at p ack size a i x h,
        try_entity-row_at (try_entity p ack size).1 ack size a i x,
      ))

acquire_loop-AllWhole :
    (size : ℕ) (chain : List MemBrick) → AllWhole chain → AllWhole (acquire_loop size chain).1
unfolding acquire_loop
acquire_loop-AllWhole size [] w = w
acquire_loop-AllWhole size (b ∷ bs) w =
    ground (arith, acquire_loop-AllWhole size bs w.1, IsWhole-check_and_acquire_free b w.0)

append-AllWhole :
    (chain : List MemBrick) (m : MemBrick)
    → AllWhole chain
    → IsWhole m
    → AllWhole (chain ++ (m ∷ []))
append-AllWhole [] m w h = (h, record {})
append-AllWhole (b ∷ bs) m w h = (w.0, append-AllWhole bs m w.1 h)

unlink_free-AllWhole : (chain : List MemBrick) → AllWhole chain → AllWhole (unlink_free chain).0
unfolding unlink_free
unlink_free-AllWhole [] w = w
unlink_free-AllWhole (b ∷ bs) w = ground (arith, unlink_free-AllWhole bs w.1)

remove_node-AllWhole : (chain : List MemBrick) → AllWhole chain → AllWhole (remove_node chain).0
unfolding remove_node
remove_node-AllWhole [] w = w
remove_node-AllWhole (b ∷ []) w = w
remove_node-AllWhole (b ∷ c ∷ bs) w = ground (arith, unlink_free-AllWhole (c ∷ bs) w.1)

try_entity-AllWhole :
    (p : MemPool) (ack size : ℕ)
    → AllWhole p.mem_brick_list
    → AllWhole (try_entity p ack size).1.mem_brick_list
unfolding try_entity add_new connect
try_entity-AllWhole p ack size w = ground (
  arith,
  acquire_loop-AllWhole size p.mem_brick_list w,
  append-AllWhole p.mem_brick_list (alloc p.next_addr 1024 (find_best_fix size)) w
      (IsWhole-alloc p.next_addr 1024 (find_best_fix size)),
)

collect-AllWhole :
    (p : MemPool) (now later : ℕ)
    → AllWhole p.mem_brick_list
    → AllWhole (collect p now later).mem_brick_list
unfolding collect remove_one_node is_time_out
collect-AllWhole p now later w = ground (arith, remove_node-AllWhole p.mem_brick_list w)

pub get_entity-AllWhole :
    (p : MemPool) (ack size now later : ℕ)
    → AllWhole p.mem_brick_list
    → AllWhole (get_entity p ack size now later).1.mem_brick_list
unfolding get_entity retry_entity
get_entity-AllWhole p ack size now later w =
    collect-AllWhole ((retry_entity (try_entity p ack size) ack size).1) now later (
      ground (
        arith,
        try_entity-AllWhole p ack size w,
        try_entity-AllWhole (try_entity p ack size).1 ack size,
      ))
