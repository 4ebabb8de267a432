-- ===== src/Brick/Pieces.antt =====
-- Which piece `CheckAndAcquireFree` takes, and what `ReleaseAcq` gives back.
use gitee_fork_gateway.Prelude.{
  ℕ, zero, suc, ◌≡◌, refl, ◌≢◌, ap, Bool, true, false, Option, none, some, List, [], ◌∷◌, get_elem?,
  set, take, replicate, arith, Option-cases, inl, inr, length-set, length-gt_of_get_elem?,
}
use gitee_fork_gateway.Brick.{MemBrick, all_true, first_free, check_and_acquire_free, release_acq}

pub first_free_sound :
    (vs : List Bool) (i : ℕ) → first_free vs ≡ some i → get_elem? vs i ≡ some true
unfolding first_free
first_free_sound [] i h = cc
first_free_sound (true ∷ vs) zero h = refl
first_free_sound (true ∷ vs) (suc i) h = ground arith
first_free_sound (false ∷ vs) zero h = ground arith
first_free_sound (false ∷ vs) (suc i) h = first_free_sound vs i (ground arith)

-- What stands before it is taken.
pub first_free_least :
    (vs : List Bool) (i : ℕ) → first_free vs ≡ some i → take i vs ≡ replicate i false
unfolding first_free
first_free_least [] i h = cc
first_free_least (true ∷ vs) zero h = refl
first_free_least (true ∷ vs) (suc i) h = ground arith
first_free_least (false ∷ vs) zero h = ground arith
first_free_least (false ∷ vs) (suc i) h = ap (λ t. false ∷ t) (first_free_least vs i (ground arith))

pub first_free-none : (vs : List Bool) (j : ℕ) → first_free vs ≡ none → get_elem? vs j ≢ some true
unfolding first_free
first_free-none [] j h e = cc
first_free-none (true ∷ vs) j h e = cc
first_free-none (false ∷ vs) zero h e = ground arith
first_free-none (false ∷ vs) (suc j) h e = first_free-none vs j (ground arith) e

pub all_true_lem : (vs : List Bool) (j : ℕ) → all_true vs ≡ true → get_elem? vs j ≢ some false
unfolding all_true
all_true_lem [] j h e = cc
all_true_lem (true ∷ vs) zero h e = ground arith
all_true_lem (true ∷ vs) (suc j) h e = all_true_lem vs j h e
all_true_lem (false ∷ vs) j h e = cc

pub set-set_same :
    (vs : List Bool) (i : ℕ) (v w : Bool) → get_elem? vs i ≡ some w → set (set vs i v) i w ≡ vs
set-set_same [] i v w h = refl
set-set_same (x ∷ vs) zero v w h = ground arith
set-set_same (x ∷ vs) (suc i) v w h = ap (λ t. x ∷ t) (set-set_same vs i v w h)

-- What `CheckAndAcquireFree` did: nothing where no piece is free, else the least free piece.
pub data Acquired (m : MemBrick) : Option ℕ × MemBrick → Type 0 where
  full : ((j : ℕ) → get_elem? m.alloc_piece_index j ≢ some true) → Acquired m (none, m)
  took :
      (i : ℕ)
      → get_elem? m.alloc_piece_index i ≡ some true
      → take i m.alloc_piece_index ≡ replicate i false
      → Acquired m (some i, record m { alloc_piece_index = set m.alloc_piece_index i false })

-- `CheckAndAcquireFree` fails, and leaves the brick as it was, only where no piece is free;
-- otherwise it takes the free piece of the least index and changes nothing else.
pub check_and_acquire_free-Acquired : (m : MemBrick) → Acquired m (check_and_acquire_free m)
unfolding check_and_acquire_free
check_and_acquire_free-Acquired m = elim (Option-cases (first_free m.alloc_piece_index)) [
  | inl e ↦ rw (e, check_and_acquire_free) (full (λ j. first_free-none m.alloc_piece_index j e))
  | inr (i, e) ↦
      rw (e, check_and_acquire_free)
        (took i (first_free_sound m.alloc_piece_index i e)
          (first_free_least m.alloc_piece_index i e))
]

-- Releasing the piece that was just acquired restores the brick.
pub release_acq-check_and_acquire_free :
    (m m' : MemBrick) (i : ℕ)
    → check_and_acquire_free m ≡ (some i, m')
    → release_acq (some i) m' ≡ some m
unfolding release_acq check_and_acquire_free
release_acq-check_and_acquire_free m m' i h = ground (
  arith,
  first_free_sound m.alloc_piece_index i,
  length-gt_of_get_elem? m.alloc_piece_index i true,
  length-set m.alloc_piece_index i false,
  set-set_same m.alloc_piece_index i false true,
)
