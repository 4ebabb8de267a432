-- ===== src/Pool.antt =====
-- `MemEntity` and `MemPool` of new/simple_pool.go: the entities that hold a piece, and the pool.
-- The chain `MemBrickList`, `NextBrick`, … is the list of its bricks in order, each with the address
-- of its object; `retired` holds the objects that `removeOneNode` unlinked. Each operation runs to
-- its end before the next starts. A clock reading is an argument. `none` stands for nil or a panic,
-- as each function says. Lengths stay below 2^62, where `int` does not wrap.
pub mod Fit
pub mod Hold
pub mod Gets
pub mod Counts
pub mod Slices
pub mod Writes
mod Tests
use gitee_fork_gateway.Prelude.{
  ℕ, zero, suc, ◌+◌, ◌-◌, ◌*◌, ◌%◌, ◌^◌, Bool, true, false, Option, none, some, List, [], ◌∷◌, ◌++◌,
  take, drop, ltb, leb, ◌==◌, if◌then◌else◌, ◌>>=◌,
}
use gitee_fork_gateway.Bytes.{copy_loop}
use gitee_fork_gateway.Brick.{
  MemBrick, alloc, memory_occurpy, is_all_free, g_free, check_and_acquire_free, release_acq,
  load_mem, store_mem,
}

-- An entity points at its brick. `AckTimes` is an int32, kept as its bit pattern.
pub record MemEntity : Type 0 where
  pub index : ℕ
  pub ack_times : ℕ
  pub brick : ℕ

pub record MemPool : Type 0 where
  pub mem_brick_list : List MemBrick
  pub retired : List MemBrick
  pub next_addr : ℕ
  pub total_call : ℕ
  pub last_rcd_time : ℕ

unfoldable pub empty_pool : MemPool
empty_pool = record {
  mem_brick_list = [];
  retired = [];
  next_addr = 0;
  total_call = 0;
  last_rcd_time = 0;
}

-- The object at an address.
unfoldable pub find_brick : ℕ → List MemBrick → Option MemBrick
find_brick a [] = none
find_brick a (b ∷ bs) = if b.addr == a then some b else find_brick a bs

-- The bricks with a change at one address.
unfoldable pub put_brick : MemBrick → List MemBrick → List MemBrick
put_brick m [] = []
put_brick m (b ∷ bs) = if b.addr == m.addr then m ∷ bs else b ∷ put_brick m bs

-- The brick that an entity points at, linked or retired.
unfoldable pub brick_of : MemPool → MemEntity → Option MemBrick
brick_of p e = find_brick e.brick (p.mem_brick_list ++ p.retired)

unfoldable pub write_brick : MemPool → MemBrick → MemPool
write_brick p m = record p {
  mem_brick_list = put_brick m p.mem_brick_list;
  retired = put_brick m p.retired;
}

unfoldable pub bytes : MemPool → MemEntity → Option (List ℕ × ℕ)
unfolding brick_of load_mem
bytes p e = do m ← brick_of p e; load_mem m e.index

unfoldable pub full_release : MemPool → MemEntity → Option MemPool
unfolding brick_of write_brick release_acq
full_release p e = do m ← brick_of p e; m' ← release_acq (some e.index) m; some (write_brick p m')

-- `atomic.AddInt32(m.AckTimes, -1)` wraps; the entity is shared by all who hold it.
unfoldable pub release_onece : MemPool → MemEntity → Option (MemPool × MemEntity)
unfolding full_release
release_onece p e =
    let v = (e.ack_times + (2 ^ 32 - 1)) % 2 ^ 32 in
    let e' : MemEntity = record e { ack_times = v } in
    if v == 0 then (do p' ← full_release p e; some (p', e')) else some (p, e')

-- Two readings of the clock, as the code takes them. `now - last > sec` without a negative.
unfoldable pub is_time_out : MemPool → ℕ → ℕ → ℕ → Bool × MemPool
is_time_out p sec now later =
    if ltb (p.last_rcd_time + sec) now
    then (ltb 0 p.last_rcd_time, record p { last_rcd_time = later })
    else (false, p)

-- The loop of `removeOneNode` over the bricks behind the first: the first free one is unlinked.
pub unlink_free : List MemBrick → List MemBrick × List MemBrick
unfolding is_all_free
unlink_free [] = ([], [])
unlink_free (n1 ∷ rest) =
    let r = unlink_free rest in if is_all_free n1 then (rest, n1 ∷ []) else (n1 ∷ r.0, r.1)

-- The chain and what is unlinked of it, by the first brick and the rest.
pub remove_node : List MemBrick → List MemBrick × List MemBrick
unfolding unlink_free is_all_free
remove_node [] = ([], [])
remove_node (n0 ∷ []) = (n0 ∷ [], [])
remove_node (n0 ∷ n1 ∷ rest) =
    if is_all_free n0
    then (n1 ∷ rest, n0 ∷ [])
    else (let r = unlink_free (n1 ∷ rest) in (n0 ∷ r.0, r.1))

-- `GFree` on what was unlinked.
pub g_free_all : List MemBrick → List MemBrick
unfolding g_free
g_free_all [] = []
g_free_all (b ∷ bs) = g_free b ∷ g_free_all bs

unfoldable pub remove_one_node : MemPool → MemPool
unfolding remove_node g_free_all
remove_one_node p =
    let r = remove_node p.mem_brick_list in
    record p { mem_brick_list = r.0; retired = g_free_all r.1 ++ p.retired }

-- `for ret < size { ret *= 2 }`. Each round adds at least 4, so `size` rounds are enough.
pub fix_loop : ℕ → ℕ → ℕ → ℕ
fix_loop zero ret size = ret
fix_loop (suc fuel) ret size =
    let rest = fix_loop fuel (ret * 2) size in if ltb ret size then rest else ret

pub find_best_fix : ℕ → ℕ
unfolding fix_loop
find_best_fix size = fix_loop size 4 size

-- `Connect` walks to the end of the chain.
unfoldable pub connect : List MemBrick → MemBrick → List MemBrick
connect chain mb = chain ++ (mb ∷ [])

unfoldable pub add_new : MemPool → ℕ → MemPool
unfolding alloc connect
add_new p size = record p {
  mem_brick_list = connect p.mem_brick_list (alloc p.next_addr 1024 size);
  next_addr = p.next_addr + 1;
}

-- The search of `getEntity`: the first piece free in a brick whose pieces are large enough, with
-- the address of its brick, and the chain after the acquisition.
pub acquire_loop : ℕ → List MemBrick → Option (ℕ × ℕ) × List MemBrick
unfolding check_and_acquire_free
acquire_loop size [] = (none, [])
acquire_loop size (ptr ∷ rest) =
    let later = acquire_loop size rest in
    let (index, ptr') = check_and_acquire_free ptr in
    if leb size ptr.each_size
    then elim index [ none ↦ (later.0, ptr ∷ later.1) | some i ↦ (some (i, ptr.addr), ptr' ∷ rest) ]
    else (later.0, ptr ∷ later.1)

-- `none` is nil. On an empty chain the search finds nothing, as the code's first branch says.
unfoldable pub try_entity : MemPool → ℕ → ℕ → Option MemEntity × MemPool
unfolding acquire_loop find_best_fix add_new
try_entity p ack_time size =
    let (found, chain) = acquire_loop size p.mem_brick_list in
    elim found [
      | none ↦ (none, add_new p (find_best_fix size))
      | some (i, a) ↦ (
        some (record { index = i; ack_times = ack_time % 2 ^ 32; brick = a }),
        record p { mem_brick_list = chain },
      )
    ]

-- The check that `GetEntity` makes after each call.
unfoldable pub collect : MemPool → ℕ → ℕ → MemPool
unfolding is_time_out remove_one_node
collect p now later =
    let q : MemPool = record p { total_call = (p.total_call + 1) % 2 ^ 64 } in
    if q.total_call % 1000 == 0
    then remove_one_node q
    else (let (due, q') = is_time_out q 300 now later in if due then remove_one_node q' else q')

-- One retry, and then the check.
pub retry_entity : Option MemEntity × MemPool → ℕ → ℕ → Option MemEntity × MemPool
unfolding try_entity
retry_entity (none, p) ack_time size = try_entity p ack_time size
retry_entity (some e, p) ack_time size = (some e, p)

unfoldable pub get_entity : MemPool → ℕ → ℕ → ℕ → ℕ → Option MemEntity × MemPool
unfolding try_entity retry_entity collect
get_entity p ack_time size now later =
    let (ret, q) = retry_entity (try_entity p ack_time size) ack_time size in
    (ret, collect q now later)

-- A new entity with the first `cp_len` bytes of this one; nil or an index out of range panics.
unfoldable pub copy : MemPool → MemEntity → ℕ → ℕ → ℕ → ℕ → Option (MemEntity × MemPool)
unfolding bytes get_entity copy_loop store_mem
copy p e ack_time cp_len now later = do
  (src, size) ← bytes p e
  let got = get_entity p ack_time size now later
  entity ← got.0
  (dst, _) ← bytes got.1 entity
  dst' ← copy_loop cp_len 0 src dst
  m ← brick_of got.1 entity
  some (entity, write_brick got.1 (store_mem m entity.index dst'))

pub chain_size : List MemBrick → ℕ
unfolding memory_occurpy
chain_size [] = 0
chain_size (ptr ∷ rest) = memory_occurpy ptr + chain_size rest

unfoldable pub total_size : MemPool → ℕ
unfolding chain_size
total_size p = elim p.mem_brick_list [ [] ↦ 4 | ptr ∷ rest ↦ chain_size (ptr ∷ rest) ]
