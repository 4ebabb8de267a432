-- ===== src/Brick/Rows.antt =====
-- The bytes of a piece that is taken.
use gitee_fork_gateway.Prelude.{
  ℕ, zero, suc, ◌*◌, ◌<◌, ◌≡◌, refl, ◌∙◌, ◌≢◌, inl, inr, Bool, true, false, Option, none, some,
  List, [], ◌∷◌, length, set, get_elem?, ◌==◌, if◌then◌else◌, ◌>>=◌, >>=-some, arith, Option-cases,
  get_elem?-set_ne, length-gt_of_get_elem?, length-set, length-replicate, length-take, length-drop,
  take, drop,
}
use gitee_fork_gateway.Brick.{
  MemBrick, alloc, is_all_free, first_free, check_and_acquire_free, load_mem, store_mem,
}
use gitee_fork_gateway.Brick.Memory.{IsWhole, load_mem-store_mem, length-store_mem, row_fits}
use gitee_fork_gateway.Brick.Pieces.{all_true_lem}

-- The slice of a piece, if it is taken.
unfoldable pub row : MemBrick → ℕ → Option (List ℕ × ℕ)
row m i = do v ← get_elem? m.alloc_piece_index i; if v then none else load_mem m i

pub row-taken :
    (m : MemBrick) (i : ℕ) (x : List ℕ × ℕ)
    → row m i ≡ some x
    → (get_elem? m.alloc_piece_index i ≡ some false) × (load_mem m i ≡ some x)
unfolding row
row-taken m i x h =
    let (v, e, r) =
      >>=-some (get_elem? m.alloc_piece_index i) (λ v. if v then none else load_mem m i) x h in
    (ground arith, ground arith)

pub row_of :
    (m : MemBrick) (i : ℕ) (x : List ℕ × ℕ)
    → get_elem? m.alloc_piece_index i ≡ some false
    → load_mem m i ≡ some x
    → row m i ≡ some x
unfolding row
row_of m i x e l = rw (e, l) refl

-- Another piece of the brick is taken or freed.
pub row-set :
    (m : MemBrick) (k i : ℕ) (v : Bool)
    → k ≢ i
    → row (record m { alloc_piece_index = set m.alloc_piece_index k v }) i ≡ row m i
unfolding row load_mem
row-set m k i v ne = rw (get_elem?-set_ne m.alloc_piece_index k i v ne) refl

still_taken :
    (vs : List Bool) (k i : ℕ)
    → get_elem? vs i ≡ some false
    → get_elem? (set vs k false) i ≡ some false
still_taken [] k i h = h
still_taken (x ∷ vs) zero zero h = refl
still_taken (x ∷ vs) zero (suc i) h = h
still_taken (x ∷ vs) (suc k) zero h = h
still_taken (x ∷ vs) (suc k) (suc i) h = still_taken vs k i h

pub row-check_and_acquire_free :
    (m : MemBrick) (i : ℕ) (x : List ℕ × ℕ)
    → row m i ≡ some x
    → row (check_and_acquire_free m).1 i ≡ some x
unfolding check_and_acquire_free load_mem
row-check_and_acquire_free m i x h =
    let (t, l) = row-taken m i x h in
    elim (Option-cases (first_free m.alloc_piece_index)) [
      | inl e ↦ ground arith
      | inr (k, e) ↦
          (let r =
              (row_of (record m { alloc_piece_index = set m.alloc_piece_index k false }) i x
                (still_taken m.alloc_piece_index k i t) l) in
            ground arith)
    ]

-- A brick with a taken piece is not all free.
pub row_not_free :
    (m : MemBrick) (i : ℕ) (x : List ℕ × ℕ) → row m i ≡ some x → is_all_free m ≡ false
unfolding is_all_free
row_not_free m i x h =
    let (t, l) = row-taken m i x h in ground (arith, all_true_lem m.alloc_piece_index i)

index-store_mem :
    (m : MemBrick) (i : ℕ) (content : List ℕ)
    → (store_mem m i content).alloc_piece_index ≡ m.alloc_piece_index
unfolding store_mem
index-store_mem m i content = refl

-- Writing the slice of a taken piece, and reading a taken piece.
pub row-store_mem :
    (m : MemBrick) (i j : ℕ) (old content : List ℕ) (n : ℕ)
    → IsWhole m
    → row m i ≡ some (old, n)
    → length content ≡ m.each_size
    → row (store_mem m i content) j ≡ (if i == j then some (content, m.each_size) else row m j)
unfolding row
row-store_mem m i j old content n w h l =
    let (t, _) = row-taken m i (old, n) h in
    let hi = length-gt_of_get_elem? m.alloc_piece_index i false t in
    elim (Option-cases (get_elem? m.alloc_piece_index j)) [
      | inl e ↦ ground (arith, index-store_mem m i content)
      | inr (v, e) ↦ ground (
        arith,
        index-store_mem m i content,
        load_mem-store_mem m i content w hi l j,
        length-gt_of_get_elem? m.alloc_piece_index j v e,
      )
    ]

-- Each operation of a brick leaves its bytes and its pieces of one length.
pub IsWhole-store_mem :
    (m : MemBrick) (i n : ℕ) (old content : List ℕ)
    → IsWhole m
    → row m i ≡ some (old, n)
    → length content ≡ m.each_size
    → IsWhole (store_mem m i content)
unfolding store_mem
IsWhole-store_mem m i n old content w h l =
    let (t, _) = row-taken m i (old, n) h in
    let hi = length-gt_of_get_elem? m.alloc_piece_index i false t in
    unfold store_mem in length-store_mem m i content w hi l ∙ w

pub IsWhole-check_and_acquire_free :
    (m : MemBrick) → IsWhole m → IsWhole (check_and_acquire_free m).1
unfolding check_and_acquire_free
IsWhole-check_and_acquire_free m w = elim (Option-cases (first_free m.alloc_piece_index)) [
  | inl e ↦ ground arith
  | inr (k, e) ↦ ground (arith, length-set m.alloc_piece_index k false)
]

pub IsWhole-set :
    (m : MemBrick) (k : ℕ) (v : Bool)
    → IsWhole m
    → IsWhole (record m { alloc_piece_index = set m.alloc_piece_index k v })
IsWhole-set m k v w = rw (length-set m.alloc_piece_index k v) w

pub IsWhole-alloc : (a n size : ℕ) → IsWhole (alloc a n size)
unfolding alloc
IsWhole-alloc a n size = rw (length-replicate n true) (length-replicate (n * size) 0)

-- A slice is as long as the pieces.
pub row-length :
    (m : MemBrick) (i n : ℕ) (content : List ℕ)
    → row m i ≡ some (content, n)
    → (n ≡ m.each_size) × (length content ≡ n)
unfolding load_mem
row-length m i n content h =
    let (t, l) = row-taken m i (content, n) h in
    let window = drop (i * m.each_size) m.alloc_bytes in
    ground (arith, length-take m.each_size window, length-drop (i * m.each_size) m.alloc_bytes)

pub row_whole :
    (m : MemBrick) (i : ℕ)
    → IsWhole m
    → i < length m.alloc_piece_index
    → get_elem? m.alloc_piece_index i ≡ some false
    → (content : List ℕ) × (row m i ≡ some (content, m.each_size))
unfolding load_mem
row_whole m i w lt t =
    let fits = row_fits i (length m.alloc_piece_index) m.each_size lt in
    (take m.each_size (drop (i * m.each_size) m.alloc_bytes), row_of m i _ t (ground arith))
