-- ===== src/Pool/Hold.antt =====
-- Who holds a piece: the state of the pieces under the operations of the pool.
use gitee_fork_gateway.Prelude.{
  ℕ, zero, suc, ◌+◌, ◌≤◌, ◌≡◌, refl, ◌≢◌, ◌⊎◌, inl, inr, Bool, true, false, Option, none, some,
  List, [], ◌∷◌, ◌++◌, get_elem?, set, arith, Option-cases, get_elem?-set_self, get_elem?-set_ne,
  length-gt_of_get_elem?, ◌>>=◌, is_some,
}
use gitee_fork_gateway.Brick.{MemBrick, check_and_acquire_free, first_free, alloc}
use gitee_fork_gateway.Brick.Pieces.{all_true_lem, first_free_sound}
use gitee_fork_gateway.Pool.{
  MemPool, find_brick, unlink_free, remove_node, acquire_loop, add_new, find_best_fix, try_entity,
  retry_entity, connect,
}
use gitee_fork_gateway.Pool.Fit.{find_best_fix_bounds}

-- The state of piece `i` of the brick at address `a`: free, taken, or no such piece.
abbrev pub piece : List MemBrick → ℕ → ℕ → Option Bool
piece chain a i = find_brick a chain >>= λ m. get_elem? m.alloc_piece_index i

-- The size of the pieces of the brick at an address.
abbrev pub piece_size : List MemBrick → ℕ → Option ℕ
piece_size chain a = find_brick a chain >>= λ m. some m.each_size

-- The addresses rise along the chain, from `lo` on and below `hi`.
abbrev pub Ordered : ℕ → ℕ → List MemBrick → Type 0
Ordered lo hi [] = lo ≤ hi
Ordered lo hi (b ∷ bs) = (lo ≤ b.addr) × Ordered (suc b.addr) hi bs

-- The search takes a free piece, and marks it.
pub acquire_loop_took :
    (size lo hi : ℕ) (chain : List MemBrick) (i a : ℕ)
    → Ordered lo hi chain
    → (acquire_loop size chain).0 ≡ some (i, a)
    → (lo ≤ a)
      × (piece chain a i ≡ some true)
      × (piece (acquire_loop size chain).1 a i ≡ some false)
unfolding acquire_loop find_brick check_and_acquire_free
acquire_loop_took size lo hi [] i a o h = cc
acquire_loop_took size lo hi (b ∷ bs) i a o h = ground (
  arith,
  acquire_loop_took size (suc b.addr) hi bs i a o.1,
  first_free_sound b.alloc_piece_index i,
  length-gt_of_get_elem? b.alloc_piece_index i true,
  get_elem?-set_self b.alloc_piece_index i false,
)

-- It takes no other piece.
pub acquire_loop_others :
    (size lo hi : ℕ) (chain : List MemBrick) (i a j c : ℕ)
    → Ordered lo hi chain
    → (acquire_loop size chain).0 ≡ some (i, a)
    → (a ≢ c) ⊎ (i ≢ j)
    → piece (acquire_loop size chain).1 c j ≡ piece chain c j
unfolding acquire_loop find_brick check_and_acquire_free
acquire_loop_others size lo hi [] i a j c o h ne = cc
acquire_loop_others size lo hi (b ∷ bs) i a j c o h ne = ground (
  arith,
  acquire_loop_others size (suc b.addr) hi bs i a j c o.1,
  get_elem?-set_ne b.alloc_piece_index i j false,
)

-- The pieces of the brick that it takes from are large enough.
pub acquire_loop_fits :
    (size lo hi : ℕ) (chain : List MemBrick) (i a n : ℕ)
    → Ordered lo hi chain
    → (acquire_loop size chain).0 ≡ some (i, a)
    → piece_size (acquire_loop size chain).1 a ≡ some n
    → (lo ≤ a) × (size ≤ n)
unfolding acquire_loop find_brick check_and_acquire_free
acquire_loop_fits size lo hi [] i a n o h e = cc
acquire_loop_fits size lo hi (b ∷ bs) i a n o h e = ground (
  arith,
  acquire_loop_fits size (suc b.addr) hi bs i a n o.1,
  acquire_loop_took size (suc b.addr) hi bs i a o.1,
)

set_keeps :
    (vs : List Bool) (i j : ℕ)
    → get_elem? vs j ≡ some false
    → get_elem? (set vs i false) j ≡ some false
set_keeps [] i j h = h
set_keeps (x ∷ vs) zero zero h = refl
set_keeps (x ∷ vs) zero (suc j) h = h
set_keeps (x ∷ vs) (suc i) zero h = h
set_keeps (x ∷ vs) (suc i) (suc j) h = set_keeps vs i j h

-- Nor does it free one.
pub acquire_loop_keeps :
    (size : ℕ) (chain : List MemBrick) (c j : ℕ)
    → piece chain c j ≡ some false
    → piece (acquire_loop size chain).1 c j ≡ some false
unfolding acquire_loop find_brick check_and_acquire_free
acquire_loop_keeps size [] c j h = h
acquire_loop_keeps size (b ∷ bs) c j h = elim (Option-cases (first_free b.alloc_piece_index)) [
  | inl e ↦ ground (arith, acquire_loop_keeps size bs c j)
  | inr (i, e) ↦ ground (arith, acquire_loop_keeps size bs c j, set_keeps b.alloc_piece_index i j)
]

pub acquire_loop-Ordered :
    (size lo hi : ℕ) (chain : List MemBrick)
    → Ordered lo hi chain
    → Ordered lo hi (acquire_loop size chain).1
unfolding acquire_loop check_and_acquire_free
acquire_loop-Ordered size lo hi [] o = o
acquire_loop-Ordered size lo hi (b ∷ bs) o =
    ground (arith, acquire_loop-Ordered size (suc b.addr) hi bs o.1)

-- The search that finds nothing changes nothing.
acquire_loop-none :
    (size : ℕ) (chain : List MemBrick)
    → (acquire_loop size chain).0 ≡ none
    → (acquire_loop size chain).1 ≡ chain
unfolding acquire_loop check_and_acquire_free
acquire_loop-none size [] h = refl
acquire_loop-none size (b ∷ bs) h = ground (arith, acquire_loop-none size bs)

-- A brick at the end that fits and has its first piece free is found.
acquire_loop_last :
    (size : ℕ) (chain : List MemBrick) (m : MemBrick)
    → size ≤ m.each_size
    → first_free m.alloc_piece_index ≡ some 0
    → is_some (acquire_loop size (chain ++ (m ∷ []))).0 ≡ true
unfolding acquire_loop check_and_acquire_free
acquire_loop_last size [] m h f = ground arith
acquire_loop_last size (b ∷ bs) m h f = ground (arith, acquire_loop_last size bs m)

-- A piece that is taken stays where it is when a brick is unlinked.
unlink_free_keeps :
    (chain : List MemBrick) (a i : ℕ)
    → piece chain a i ≡ some false
    → piece (unlink_free chain).0 a i ≡ some false
unfolding unlink_free find_brick
unlink_free_keeps [] a i h = h
unlink_free_keeps (b ∷ bs) a i h =
    ground (arith, unlink_free_keeps bs a i, all_true_lem b.alloc_piece_index i)

pub remove_node_keeps :
    (chain : List MemBrick) (a i : ℕ)
    → piece chain a i ≡ some false
    → piece (remove_node chain).0 a i ≡ some false
unfolding remove_node find_brick
remove_node_keeps [] a i h = h
remove_node_keeps (b ∷ []) a i h = h
remove_node_keeps (b ∷ c ∷ bs) a i h =
    ground (arith, unlink_free_keeps (c ∷ bs) a i, all_true_lem b.alloc_piece_index i)

-- A piece of the chain stays the piece that it is when a brick is appended.
pub piece-append :
    (chain : List MemBrick) (m : MemBrick) (a i : ℕ) (v : Bool)
    → piece chain a i ≡ some v
    → piece (chain ++ (m ∷ [])) a i ≡ some v
unfolding find_brick
piece-append [] m a i v h = cc
piece-append (b ∷ bs) m a i v h = ground (arith, piece-append bs m a i v)

first_free-alloc : (a n size : ℕ) → first_free (alloc a (suc n) size).alloc_piece_index ≡ some 0
unfolding first_free alloc
first_free-alloc a n size = refl

each_size-alloc : (a n size : ℕ) → (alloc a n size).each_size ≡ size
unfolding alloc
each_size-alloc a n size = refl

-- The brick that a failed try appends serves the retry.
try_entity_again :
    (p : MemPool) (ack size : ℕ)
    → (try_entity p ack size).0 ≡ none
    → is_some (try_entity (try_entity p ack size).1 ack size).0 ≡ true
unfolding try_entity add_new connect
try_entity_again p ack size h = ground (
  arith,
  acquire_loop_last size p.mem_brick_list (alloc p.next_addr 1024 (find_best_fix size)),
  first_free-alloc p.next_addr 1023 (find_best_fix size),
  each_size-alloc p.next_addr 1024 (find_best_fix size),
  find_best_fix_bounds size,
)

pub retry_entity_total :
    (p : MemPool) (ack size : ℕ) → is_some (retry_entity (try_entity p ack size) ack size).0 ≡ true
unfolding retry_entity
retry_entity_total p ack size = ground (arith, try_entity_again p ack size)

-- A new brick gets the next address, at the end of the chain.
pub Ordered-append :
    (lo hi : ℕ) (chain : List MemBrick) (m : MemBrick)
    → m.addr ≡ hi
    → Ordered lo hi chain
    → Ordered lo (hi + 1) (chain ++ (m ∷ []))
Ordered-append lo hi [] m e o = omega arith
Ordered-append lo hi (b ∷ bs) m e o = (o.0, Ordered-append (suc b.addr) hi bs m e o.1)

Ordered-weaken :
    (k lo hi : ℕ) (chain : List MemBrick) → k ≤ lo → Ordered lo hi chain → Ordered k hi chain
Ordered-weaken k lo hi [] h o = omega arith
Ordered-weaken k lo hi (b ∷ bs) h o = (omega arith, o.1)

unlink_free-Ordered :
    (lo hi : ℕ) (chain : List MemBrick) → Ordered lo hi chain → Ordered lo hi (unlink_free chain).0
unfolding unlink_free
unlink_free-Ordered lo hi [] o = o
unlink_free-Ordered lo hi (b ∷ bs) o = ground (
  arith,
  unlink_free-Ordered (suc b.addr) hi bs o.1,
  Ordered-weaken lo (suc b.addr) hi bs (omega arith) o.1,
)

pub remove_node-Ordered :
    (lo hi : ℕ) (chain : List MemBrick) → Ordered lo hi chain → Ordered lo hi (remove_node chain).0
unfolding remove_node
remove_node-Ordered lo hi [] o = o
remove_node-Ordered lo hi (b ∷ []) o = o
remove_node-Ordered lo hi (b ∷ c ∷ bs) o = ground (
  arith,
  unlink_free-Ordered (suc b.addr) hi (c ∷ bs) o.1,
  Ordered-weaken lo (suc b.addr) hi (c ∷ bs) (omega arith) o.1,
)

-- Nor does the brick of a taken piece change its size.
unlink_free_keeps_size :
    (chain : List MemBrick) (a i n : ℕ)
    → piece chain a i ≡ some false
    → piece_size chain a ≡ some n
    → piece_size (unlink_free chain).0 a ≡ some n
unfolding unlink_free find_brick
unlink_free_keeps_size [] a i n h e = e
unlink_free_keeps_size (b ∷ bs) a i n h e =
    ground (arith, unlink_free_keeps_size bs a i n, all_true_lem b.alloc_piece_index i)

pub remove_node_keeps_size :
    (chain : List MemBrick) (a i n : ℕ)
    → piece chain a i ≡ some false
    → piece_size chain a ≡ some n
    → piece_size (remove_node chain).0 a ≡ some n
unfolding remove_node find_brick
remove_node_keeps_size [] a i n h e = e
remove_node_keeps_size (b ∷ []) a i n h e = e
remove_node_keeps_size (b ∷ c ∷ bs) a i n h e =
    ground (arith, unlink_free_keeps_size (c ∷ bs) a i n, all_true_lem b.alloc_piece_index i)
