-- ===== src/Pool/Writes.antt =====
-- What a write to the slice of a piece, and the release of a piece, leave of the other slices.
use gitee_fork_gateway.Prelude.{
  ℕ, suc, ◌<◌, ◌≡◌, refl, ◌∙◌, ◌≢◌, ◌⊎◌, true, false, none, some, List, [], ◌∷◌, set, length,
  get_elem?, ◌==◌, ◌&&◌, if◌then◌else◌, >>=-some, arith, length-gt_of_get_elem?,
}
use gitee_fork_gateway.Brick.{MemBrick, store_mem}
use gitee_fork_gateway.Brick.Memory.{IsWhole}
use gitee_fork_gateway.Brick.Rows.{
  row, row_whole, row-set, row-store_mem, row-length, row-taken, IsWhole-store_mem, IsWhole-set,
}
use gitee_fork_gateway.Bytes.Slices.{get_elem?-set}
use gitee_fork_gateway.Pool.{
  MemEntity, MemPool, find_brick, put_brick, brick_of, write_brick, bytes, full_release,
}
use gitee_fork_gateway.Pool.Counts.{
  find_brick-append, find_brick-addr, find_brick-put_brick, freed_brick, full_release_found,
}
use gitee_fork_gateway.Pool.Gets.{IsValid}
use gitee_fork_gateway.Pool.Hold.{Ordered, piece, piece_size}
use gitee_fork_gateway.Pool.Slices.{row_at, AllWhole}

IsWhole-found :
    (chain : List MemBrick) (a : ℕ) (m : MemBrick)
    → AllWhole chain
    → find_brick a chain ≡ some m
    → IsWhole m
unfolding find_brick
IsWhole-found [] a m w h = cc
IsWhole-found (b ∷ bs) a m w h = ground (arith, IsWhole-found bs a m w.1)

AllWhole-put_brick :
    (m : MemBrick) (chain : List MemBrick)
    → AllWhole chain
    → IsWhole m
    → AllWhole (put_brick m chain)
unfolding put_brick
AllWhole-put_brick m [] w h = w
AllWhole-put_brick m (b ∷ bs) w h = ground (arith, AllWhole-put_brick m bs w.1 h)

row_at-found :
    (chain : List MemBrick) (a i : ℕ) (x : List ℕ × ℕ)
    → row_at chain a i ≡ some x
    → (m : MemBrick) × (find_brick a chain ≡ some m) × (row m i ≡ some x)
unfolding row_at
row_at-found chain a i x h = >>=-some (find_brick a chain) (λ m. row m i) x h

put_brick-row_at :
    (chain : List MemBrick) (a i c j : ℕ) (m m' : MemBrick)
    → find_brick a chain ≡ some m
    → m'.addr ≡ a
    → row_at (put_brick m' chain) c j ≡ (if a == c then row m' j else row_at chain c j)
unfolding row_at
put_brick-row_at chain a i c j m m' f e = ground (arith, find_brick-put_brick chain a c m m' f e)

-- The piece of a whole brick that is taken has a slice.
pub row_at-taken :
    (chain : List MemBrick) (a i n : ℕ)
    → AllWhole chain
    → piece chain a i ≡ some false
    → piece_size chain a ≡ some n
    → (content : List ℕ) × (row_at chain a i ≡ some (content, n))
unfolding row_at
row_at-taken chain a i n w h z =
    let (m, f, r) = >>=-some (find_brick a chain) (λ m. get_elem? m.alloc_piece_index i) false h in
    let ws = IsWhole-found chain a m w f in
    let lt = length-gt_of_get_elem? m.alloc_piece_index i false r in
    let x = row_whole m i ws lt r in (x.0, ground arith)

-- The slice that an entity sees.
pub bytes-row_at :
    (p : MemPool) (e : MemEntity) (x : List ℕ × ℕ)
    → row_at p.mem_brick_list e.brick e.index ≡ some x
    → bytes p e ≡ some x
unfolding bytes brick_of
bytes-row_at p e x h =
    let (m, f, r) = row_at-found p.mem_brick_list e.brick e.index x h in
    let (t, l) = row-taken m e.index x r in
    rw (find_brick-append p.mem_brick_list p.retired e.brick m f) l

pub row_at-length :
    (chain : List MemBrick) (a i n : ℕ) (content : List ℕ)
    → row_at chain a i ≡ some (content, n)
    → length content ≡ n
row_at-length chain a i n content h =
    let (m, f, r) = row_at-found chain a i (content, n) h in (row-length m i n content r).1

stored-row_at :
    (chain : List MemBrick) (a i c j n : ℕ) (m : MemBrick) (old content : List ℕ)
    → IsWhole m
    → find_brick a chain ≡ some m
    → row m i ≡ some (old, n)
    → length content ≡ m.each_size
    → n ≡ m.each_size
    → (store_mem m i content).addr ≡ a
    → row_at (put_brick (store_mem m i content) chain) c j
      ≡ (if a == c && i == j then some (content, n) else row_at chain c j)
unfolding row_at
stored-row_at chain a i c j n m old content w f r l s at = ground (
  arith,
  put_brick-row_at chain a i c j m (store_mem m i content) f at,
  row-store_mem m i j old content n w r l,
)

-- The order of the chain.
Ordered-put_brick :
    (m : MemBrick) (lo hi : ℕ) (chain : List MemBrick)
    → Ordered lo hi chain
    → Ordered lo hi (put_brick m chain)
unfolding put_brick
Ordered-put_brick m lo hi [] o = o
Ordered-put_brick m lo hi (b ∷ bs) o = ground (arith, Ordered-put_brick m (suc b.addr) hi bs o.1)

-- What `p'` is, after the slice of one piece is written.
pub record Written (p p' : MemPool) (a i : ℕ) (x : List ℕ × ℕ) : Type 0 where
  pub valid : IsValid p → IsValid p'
  pub whole : AllWhole p'.mem_brick_list
  pub slices :
      (c j : ℕ)
      → row_at p'.mem_brick_list c j
        ≡ (if a == c && i == j then some x else row_at p.mem_brick_list c j)

addr-store_mem : (m : MemBrick) (i : ℕ) (content : List ℕ) → (store_mem m i content).addr ≡ m.addr
unfolding store_mem
addr-store_mem m i content = refl

pub write_brick-Written :
    (p : MemPool) (e : MemEntity) (old content : List ℕ) (n : ℕ)
    → AllWhole p.mem_brick_list
    → row_at p.mem_brick_list e.brick e.index ≡ some (old, n)
    → length content ≡ n
    → (m : MemBrick) × (brick_of p e ≡ some m)
      × Written p (write_brick p (store_mem m e.index content)) e.brick e.index (content, n)
unfolding brick_of write_brick
write_brick-Written p e old content n w h l =
    let (m, f, r) = row_at-found p.mem_brick_list e.brick e.index (old, n) h in
    let (s, _) = row-length m e.index n old r in
    let ws = IsWhole-found p.mem_brick_list e.brick m w f in
    let ls : length content ≡ m.each_size = l ∙ s in
    let at = addr-store_mem m e.index content ∙ find_brick-addr p.mem_brick_list e.brick m f in
    (
      m,
      find_brick-append p.mem_brick_list p.retired e.brick m f,
      record {
        valid =
            λ v. Ordered-put_brick (store_mem m e.index content) 0 p.next_addr p.mem_brick_list v;
        whole =
            AllWhole-put_brick (store_mem m e.index content) p.mem_brick_list w
              (IsWhole-store_mem m e.index n old content ws r ls);
        slices = λ c j.
            stored-row_at p.mem_brick_list e.brick e.index c j n m old content ws f r ls s at;
      },
    )

-- What `p'` is, after the release of one piece.
pub record Released (p p' : MemPool) (a i : ℕ) : Type 0 where
  pub gone : row_at p'.mem_brick_list a i ≡ none
  pub valid : IsValid p → IsValid p'
  pub whole : AllWhole p'.mem_brick_list
  pub slices :
      (c j : ℕ) → (a ≢ c) ⊎ (i ≢ j) → row_at p'.mem_brick_list c j ≡ row_at p.mem_brick_list c j

freed-row_at_self :
    (chain : List MemBrick) (a i : ℕ) (m : MemBrick)
    → find_brick a chain ≡ some m
    → m.addr ≡ a
    → i < length m.alloc_piece_index
    → row_at (put_brick (record m { alloc_piece_index = set m.alloc_piece_index i true }) chain) a i
      ≡ none
unfolding row
freed-row_at_self chain a i m f e lt =
    put_brick-row_at chain a i a i m
      (record m { alloc_piece_index = set m.alloc_piece_index i true }) f e
    ∙ ground (arith, get_elem?-set m.alloc_piece_index i i true lt)

freed-row_at :
    (chain : List MemBrick) (a i c j : ℕ) (m : MemBrick)
    → find_brick a chain ≡ some m
    → m.addr ≡ a
    → (a ≢ c) ⊎ (i ≢ j)
    → row_at (put_brick (record m { alloc_piece_index = set m.alloc_piece_index i true }) chain) c j
      ≡ row_at chain c j
unfolding row_at
freed-row_at chain a i c j m f at ne = ground (
  arith,
  put_brick-row_at chain a i c j m (record m { alloc_piece_index = set m.alloc_piece_index i true })
      f at,
  row-set m i j true,
)

-- `FullRelease` of the entity of a taken piece succeeds, and changes no other slice.
pub full_release-Released :
    (p : MemPool) (e : MemEntity) (x : List ℕ × ℕ)
    → AllWhole p.mem_brick_list
    → row_at p.mem_brick_list e.brick e.index ≡ some x
    → (p' : MemPool) × (full_release p e ≡ some p') × Released p p' e.brick e.index
unfolding write_brick
full_release-Released p e x w h =
    let (m, f, r) = row_at-found p.mem_brick_list e.brick e.index x h in
    let (t, _) = row-taken m e.index x r in
    let lt = length-gt_of_get_elem? m.alloc_piece_index e.index false t in
    let ws = IsWhole-found p.mem_brick_list e.brick m w f in
    (
      write_brick p (freed_brick p e m f),
      full_release_found p e m f lt,
      record {
        gone =
            freed-row_at_self p.mem_brick_list e.brick e.index m f
              (find_brick-addr p.mem_brick_list e.brick m f) lt;
        valid = λ v. Ordered-put_brick (freed_brick p e m f) 0 p.next_addr p.mem_brick_list v;
        whole =
            AllWhole-put_brick (freed_brick p e m f) p.mem_brick_list w
              (IsWhole-set m e.index true ws);
        slices = λ c j ne.
            freed-row_at p.mem_brick_list e.brick e.index c j m f
              (find_brick-addr p.mem_brick_list e.brick m f) ne;
      },
    )

-- A piece with a slice is taken.
pub piece-row_at :
    (chain : List MemBrick) (a i : ℕ) (x : List ℕ × ℕ)
    → row_at chain a i ≡ some x
    → piece chain a i ≡ some false
piece-row_at chain a i x h =
    let (m, f, r) = row_at-found chain a i x h in let (t, _) = row-taken m i x r in rw f t
