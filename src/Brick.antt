-- ===== src/Brick.antt =====
-- `MemBrick` of new/simple_pool.go: a large block of bytes, cut into pieces of one size.
-- `none` stands for -1, or for a panic, as each function says.
pub mod Pieces
pub mod Memory
pub mod Rows
mod Tests
use gitee_fork_gateway.Prelude.{
  ℕ, zero, suc, ◌+◌, ◌*◌, ◌/◌, Bool, true, false, ◌&&◌, Option, none, some, List, [], ◌∷◌, ◌++◌,
  length, set, take, drop, replicate, ltb, leb, if◌then◌else◌, ◌>>=◌,
}

-- `AllocPieceIndex` holds true where the piece is free; a nil slice is empty.
pub record MemBrick : Type 0 where
  pub addr : ℕ
  pub alloc_bytes : List ℕ
  pub alloc_piece_index : List Bool
  pub each_size : ℕ

unfoldable pub alloc : ℕ → ℕ → ℕ → MemBrick
alloc addr piece each_size = record {
  addr = addr;
  alloc_bytes = replicate (piece * each_size) 0;
  alloc_piece_index = replicate piece true;
  each_size = each_size;
}

unfoldable pub memory_occurpy : MemBrick → ℕ
memory_occurpy m = (12 + length m.alloc_piece_index * (1 + m.each_size) + 3) / 4 * 4

unfoldable pub all_true : List Bool → Bool
all_true [] = true
all_true (v ∷ vs) = v && all_true vs

unfoldable pub is_all_free : MemBrick → Bool
unfolding all_true
is_all_free m = all_true m.alloc_piece_index

unfoldable pub g_free : MemBrick → MemBrick
g_free m = record m { alloc_bytes = []; alloc_piece_index = []; each_size = 0 }

-- The first free piece; `none` is -1.
unfoldable pub first_free : List Bool → Option ℕ
first_free [] = none
first_free (true ∷ vs) = some 0
first_free (false ∷ vs) = do i ← first_free vs; some (suc i)

unfoldable pub check_and_acquire_free : MemBrick → Option ℕ × MemBrick
unfolding first_free
check_and_acquire_free m = elim (first_free m.alloc_piece_index) [
  | none ↦ (none, m)
  | some ret ↦ (some ret, record m { alloc_piece_index = set m.alloc_piece_index ret false })
]

-- A negative index, `none`, is ignored; an index out of range panics.
unfoldable pub release_acq : Option ℕ → MemBrick → Option MemBrick
release_acq none m = some m
release_acq (some index) m =
    if ltb index (length m.alloc_piece_index)
    then some (record m { alloc_piece_index = set m.alloc_piece_index index true })
    else none

-- `AllocBytes[index*EachSize : index*EachSize+EachSize]` and its length.
unfoldable pub load_mem : MemBrick → ℕ → Option (List ℕ × ℕ)
load_mem m index =
    if leb (index * m.each_size + m.each_size) (length m.alloc_bytes)
    then some (take m.each_size (drop (index * m.each_size) m.alloc_bytes), m.each_size)
    else none

-- What the slice of a piece is written to.
unfoldable pub store_mem : MemBrick → ℕ → List ℕ → MemBrick
store_mem m index bytes = record m {
  alloc_bytes =
      take (index * m.each_size) m.alloc_bytes
      ++ (bytes ++ drop (index * m.each_size + m.each_size) m.alloc_bytes);
}
