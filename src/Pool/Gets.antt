-- ===== src/Pool/Gets.antt =====
-- What `GetEntity` promises to the holder of the new entity and to those who hold one already.
use gitee_fork_gateway.Prelude.{
  ℕ, ◌≤◌, ◌≡◌, ◌∙◌, ◌≢◌, inl, inr, ◌%◌, ◌^◌, Bool, true, false, some, List, arith, Option-cases,
  is_some,
}
use gitee_fork_gateway.Brick.{MemBrick, alloc}
use gitee_fork_gateway.Pool.{
  MemEntity, MemPool, find_brick, remove_one_node, add_new, find_best_fix, try_entity, retry_entity,
  collect, get_entity, is_time_out, connect,
}
use gitee_fork_gateway.Pool.Hold.{
  Ordered, piece, piece_size, acquire_loop_took, acquire_loop_fits, acquire_loop-Ordered,
  acquire_loop_keeps, remove_node_keeps, remove_node_keeps_size, piece-append, retry_entity_total,
  remove_node-Ordered, Ordered-append,
}

-- The chain's bricks have rising addresses below the next one.
abbrev pub IsValid : MemPool → Type 0
IsValid p = Ordered 0 p.next_addr p.mem_brick_list

-- What a call that returns entity `e` has done to the chain.
pub record Held (size ack : ℕ) (p q : MemPool) (e : MemEntity) : Type 0 where
  pub counted : e.ack_times ≡ ack % 2 ^ 32
  pub taken : piece q.mem_brick_list e.brick e.index ≡ some false
  pub room : (n : ℕ) × (piece_size q.mem_brick_list e.brick ≡ some n) × (size ≤ n)
  pub fresh : piece p.mem_brick_list e.brick e.index ≢ some false

try_entity-IsValid : (p : MemPool) (ack size : ℕ) → IsValid p → IsValid (try_entity p ack size).1
unfolding try_entity add_new connect alloc
try_entity-IsValid p ack size v = ground (
  arith,
  acquire_loop-Ordered size 0 p.next_addr p.mem_brick_list v,
  Ordered-append 0 p.next_addr p.mem_brick_list (alloc p.next_addr 1024 (find_best_fix size)),
)

collect-IsValid : (p : MemPool) (now later : ℕ) → IsValid p → IsValid (collect p now later)
unfolding collect remove_one_node is_time_out
collect-IsValid p now later v = ground (arith, remove_node-Ordered 0 p.next_addr p.mem_brick_list v)

retry-IsValid :
    (p : MemPool) (ack size : ℕ)
    → IsValid p
    → IsValid (retry_entity (try_entity p ack size) ack size).1
unfolding retry_entity
retry-IsValid p ack size v =
    ground (
      arith,
      try_entity-IsValid p ack size v,
      try_entity-IsValid (try_entity p ack size).1 ack size,
    )

-- `GetEntity` keeps the chain's order, its retry and its check included.
pub get_entity-IsValid :
    (p : MemPool) (ack size now later : ℕ) → IsValid p → IsValid (get_entity p ack size now later).1
unfolding get_entity
get_entity-IsValid p ack size now later v = collect-IsValid _ now later (retry-IsValid p ack size v)

try_entity_keeps :
    (p : MemPool) (ack size a i : ℕ)
    → piece p.mem_brick_list a i ≡ some false
    → piece (try_entity p ack size).1.mem_brick_list a i ≡ some false
unfolding try_entity add_new connect
try_entity_keeps p ack size a i h = ground (
  arith,
  acquire_loop_keeps size p.mem_brick_list a i h,
  piece-append p.mem_brick_list (alloc p.next_addr 1024 (find_best_fix size)) a i false h,
)

collect_keeps :
    (p : MemPool) (now later a i : ℕ)
    → piece p.mem_brick_list a i ≡ some false
    → piece (collect p now later).mem_brick_list a i ≡ some false
unfolding collect remove_one_node is_time_out
collect_keeps p now later a i h = ground (arith, remove_node_keeps p.mem_brick_list a i h)

-- Every piece that is taken stays taken across `GetEntity`, in a brick that is still in the chain,
-- also if the check at its end unlinks a brick.
pub get_entity_keeps :
    (p : MemPool) (ack size now later a i : ℕ)
    → piece p.mem_brick_list a i ≡ some false
    → piece (get_entity p ack size now later).1.mem_brick_list a i ≡ some false
unfolding get_entity retry_entity
get_entity_keeps p ack size now later a i h =
    collect_keeps ((retry_entity (try_entity p ack size) ack size).1) now later a i (
      ground (
        arith,
        try_entity_keeps p ack size a i h,
        try_entity_keeps (try_entity p ack size).1 ack size a i,
      ))

piece-piece_size :
    (chain : List MemBrick) (a i : ℕ) (v : Bool)
    → piece chain a i ≡ some v
    → (n : ℕ) × (piece_size chain a ≡ some n)
piece-piece_size chain a i v h = elim (Option-cases (find_brick a chain)) [
  | inl e ↦ absurd (ground arith)
  | inr (m, e) ↦ (m.each_size, rw e)
]

try_entity-Held :
    (p : MemPool) (ack size : ℕ) (e : MemEntity)
    → IsValid p
    → (try_entity p ack size).0 ≡ some e
    → Held size ack p (try_entity p ack size).1 e
unfolding try_entity
try_entity-Held p ack size e v h = record {
  counted = ground arith;
  taken = taken;
  room = (
    large.0,
    large.1,
    ground (
      arith,
      acquire_loop_fits size 0 p.next_addr p.mem_brick_list e.index e.brick large.0 v,
      large.1,
    ),
  );
  fresh =
      λ t. ground (arith, acquire_loop_took size 0 p.next_addr p.mem_brick_list e.index e.brick v);
}
  where
    taken : piece (try_entity p ack size).1.mem_brick_list e.brick e.index ≡ some false
    taken = ground (arith, acquire_loop_took size 0 p.next_addr p.mem_brick_list e.index e.brick v)

    large : (n : ℕ) × (piece_size (try_entity p ack size).1.mem_brick_list e.brick ≡ some n)
    large = piece-piece_size _ e.brick e.index false taken

Held-after :
    (size ack : ℕ) (o p q : MemPool) (e : MemEntity)
    → ((a i : ℕ)
        → piece o.mem_brick_list a i ≡ some false
        → piece p.mem_brick_list a i ≡ some false)
    → Held size ack p q e
    → Held size ack o q e
Held-after size ack o p q e k h = record {
  counted = h.counted;
  taken = h.taken;
  room = h.room;
  fresh = λ t. h.fresh (k e.brick e.index t);
}

-- The entity comes from the first try or, on the longer chain, from the second.
retry_entity-Held :
    (p : MemPool) (ack size : ℕ) (e : MemEntity)
    → IsValid p
    → (retry_entity (try_entity p ack size) ack size).0 ≡ some e
    → Held size ack p (retry_entity (try_entity p ack size) ack size).1 e
unfolding retry_entity
retry_entity-Held p ack size e v h = elim (Option-cases (try_entity p ack size).0) [
  | inl n ↦
      rw (n, retry_entity)
        (Held-after size ack p (try_entity p ack size).1 _ e (try_entity_keeps p ack size) (
          try_entity-Held (try_entity p ack size).1 ack size e (try_entity-IsValid p ack size v)
            (rw (n, retry_entity) at h)))
  | inr (e', n) ↦
      rw (n, retry_entity) (try_entity-Held p ack size e v (n ∙ (rw (n, retry_entity) at h)))
]

collect_keeps_size :
    (p : MemPool) (now later a i n : ℕ)
    → piece p.mem_brick_list a i ≡ some false
    → piece_size p.mem_brick_list a ≡ some n
    → piece_size (collect p now later).mem_brick_list a ≡ some n
unfolding collect remove_one_node is_time_out
collect_keeps_size p now later a i n h e =
    ground (arith, remove_node_keeps_size p.mem_brick_list a i n h e)

-- The entity that `GetEntity` returns holds a piece that nobody held before, of a brick that is in
-- the chain after the check and whose pieces are large enough, with the count asked for.
pub get_entity-Held :
    (p : MemPool) (ack size now later : ℕ) (e : MemEntity)
    → IsValid p
    → (get_entity p ack size now later).0 ≡ some e
    → Held size ack p (get_entity p ack size now later).1 e
unfolding get_entity
get_entity-Held p ack size now later e v h = record {
  counted = got.counted;
  taken = collect_keeps q now later e.brick e.index got.taken;
  room = (
    got.room.0,
    collect_keeps_size q now later e.brick e.index got.room.0 got.taken got.room.1,
    got.room.2,
  );
  fresh = got.fresh;
}
  where
    q : MemPool
    q = (retry_entity (try_entity p ack size) ack size).1

    got : Held size ack p q e
    got = retry_entity-Held p ack size e v h

-- `GetEntity` never returns nil: if no piece is free, the brick that the first try appends has one.
pub get_entity_total :
    (p : MemPool) (ack size now later : ℕ) → is_some (get_entity p ack size now later).0 ≡ true
unfolding get_entity
get_entity_total p ack size now later = retry_entity_total p ack size
