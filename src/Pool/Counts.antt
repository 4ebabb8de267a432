-- ===== src/Pool/Counts.antt =====
-- `ReleaseOnece` and `FullRelease`: when the piece of an entity that several servers share comes
-- free.
use gitee_fork_gateway.Prelude.{
  ℕ, zero, suc, ◌+◌, ◌^◌, ◌<◌, ◌≡◌, refl, ◌≢◌, inl, inr, Bool, true, Option, some, List, [], ◌∷◌,
  ◌++◌, length, set, arith, ◌>>=◌, Option-cases, get_elem?-set_self, get_elem?-set_ne,
  length-gt_of_get_elem?, ◌==◌, ◌&&◌, if◌then◌else◌,
}
use gitee_fork_gateway.Brick.{MemBrick, release_acq}
use gitee_fork_gateway.Pool.{
  MemEntity, MemPool, find_brick, put_brick, brick_of, write_brick, full_release, release_onece,
}
use gitee_fork_gateway.Pool.Hold.{piece}

-- The servers that share an entity release it one after the other.
pub release_times : ℕ → MemPool → MemEntity → Option (MemPool × MemEntity)
release_times zero p e = some (p, e)
release_times (suc n) p e = do (p', e') ← release_onece p e; release_times n p' e'

-- Fewer releases than the count leave the pool as it was.
pub release_times_held :
    (n c : ℕ) (p : MemPool) (e : MemEntity)
    → e.ack_times ≡ n + suc c
    → n + suc c < 2 ^ 32
    → release_times n p e ≡ some (p, record e { ack_times = suc c })
unfolding release_times release_onece
release_times_held zero c p e h lt = ground arith
release_times_held (suc n) c p e h lt =
    ground (arith, release_times_held n c p (record e { ack_times = n + suc c }))

pub find_brick-append :
    (chain more : List MemBrick) (a : ℕ) (m : MemBrick)
    → find_brick a chain ≡ some m
    → find_brick a (chain ++ more) ≡ some m
unfolding find_brick
find_brick-append [] more a m h = cc
find_brick-append (b ∷ bs) more a m h = ground (arith, find_brick-append bs more a m)

pub find_brick-addr :
    (chain : List MemBrick) (a : ℕ) (m : MemBrick) → find_brick a chain ≡ some m → m.addr ≡ a
unfolding find_brick
find_brick-addr [] a m h = cc
find_brick-addr (b ∷ bs) a m h = ground (arith, find_brick-addr bs a m)

pub find_brick-put_brick :
    (chain : List MemBrick) (a c : ℕ) (m m' : MemBrick)
    → find_brick a chain ≡ some m
    → m'.addr ≡ a
    → (find_brick a (put_brick m' chain) ≡ some m')
      × (a ≢ c → find_brick c (put_brick m' chain) ≡ find_brick c chain)
unfolding find_brick put_brick
find_brick-put_brick [] a c m m' h e = cc
find_brick-put_brick (b ∷ bs) a c m m' h e = ground (arith, find_brick-put_brick bs a c m m')

-- What the release of a piece does to the chain: it frees that piece and no other.
pub record Freed (a i : ℕ) (p p' : MemPool) : Type 0 where
  pub pieces :
      (c j : ℕ)
      → piece p'.mem_brick_list c j
        ≡ (if a == c && i == j then some true else piece p.mem_brick_list c j)

module _ (p : MemPool) (e : MemEntity) (m : MemBrick)
    (found : find_brick e.brick p.mem_brick_list ≡ some m) where
  abbrev pub freed_brick : MemBrick
  freed_brick = record m { alloc_piece_index = set m.alloc_piece_index e.index true }

  pub full_release_found :
      e.index < length m.alloc_piece_index → full_release p e ≡ some (write_brick p freed_brick)
  unfolding full_release brick_of release_acq
  full_release_found lt =
      ground (arith, find_brick-append p.mem_brick_list p.retired e.brick m found)

  piece-Freed :
      e.index < length m.alloc_piece_index → Freed e.brick e.index p (write_brick p freed_brick)
  unfolding write_brick
  piece-Freed lt = record {
    pieces = λ c j. ground (
      arith,
      found,
      find_brick-addr p.mem_brick_list e.brick m found,
      find_brick-put_brick p.mem_brick_list e.brick c m freed_brick found,
      get_elem?-set_self m.alloc_piece_index e.index true,
      get_elem?-set_ne m.alloc_piece_index e.index j true,
    );
  }

pub piece-found :
    (chain : List MemBrick) (a i : ℕ) (v : Bool)
    → piece chain a i ≡ some v
    → (m : MemBrick) × (find_brick a chain ≡ some m) × (i < length m.alloc_piece_index)
piece-found chain a i v h = elim (Option-cases (find_brick a chain)) [
  | inl n ↦ absurd (ground arith)
  | inr (m, n) ↦ (m, n, length-gt_of_get_elem? m.alloc_piece_index i v (ground arith))
]

-- `FullRelease` on the entity of a piece of the chain succeeds, frees that piece and no other.
pub full_release-Freed :
    (p : MemPool) (e : MemEntity) (v : Bool)
    → piece p.mem_brick_list e.brick e.index ≡ some v
    → (p' : MemPool) × (full_release p e ≡ some p') × Freed e.brick e.index p p'
full_release-Freed p e v h =
    let (m, found, lt) = piece-found p.mem_brick_list e.brick e.index v h in
    (
      write_brick p (freed_brick p e m found),
      full_release_found p e m found lt,
      piece-Freed p e m found lt,
    )

-- With a count of `n + 1` the first `n` releases leave the pool as it was, whoever makes them, and
-- the next one frees the entity's piece, and no other.
pub release_times_frees :
    (n : ℕ) (p : MemPool) (e : MemEntity) (v : Bool)
    → piece p.mem_brick_list e.brick e.index ≡ some v
    → e.ack_times ≡ suc n
    → suc n < 2 ^ 32
    → (release_times n p e ≡ some (p, record e { ack_times = 1 }))
      × ((p' : MemPool) × (release_times (suc n) p e ≡ some (p', record e { ack_times = 0 }))
          × Freed e.brick e.index p p')
unfolding release_times release_onece
release_times_frees zero p e v h c lt =
    let (p', done, freed) = full_release-Freed p (record e { ack_times = 0 }) v h in
    (ground arith, (p', ground arith, freed))
release_times_frees (suc n) p e v h c lt =
    let (held, after) =
      release_times_frees n p (record e { ack_times = suc n }) v h refl (omega arith) in
    let (p', done, freed) = after in (ground (arith, held), (p', ground (arith, done), freed))
