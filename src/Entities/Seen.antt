-- ===== src/Entities/Seen.antt =====
-- The slices that the holders of pointers see, across the operations on the store.
use gitee_fork_gateway.Prelude.{
  ℕ, ◌≡◌, refl, sym, ◌∙◌, ◌≢◌, ◌⊎◌, inl, inr, Option, some, List, length, get_elem?, ◌==◌, ◌&&◌,
  if◌then◌else◌, ◌>>=◌, >>=-some, arith, Bool-cases,
}
use gitee_fork_gateway.Pool.{MemEntity, MemPool, write_brick}
use gitee_fork_gateway.Brick.{store_mem}
use gitee_fork_gateway.Pool.Gets.{IsValid}
use gitee_fork_gateway.Pool.Slices.{row_at, AllWhole}
use gitee_fork_gateway.Pool.Writes.{
  bytes-row_at, row_at-length, write_brick-Written, full_release-Released,
}
use gitee_fork_gateway.Entities.{Store, slice, put_slice, free}

-- The chain is in order, and its bricks are whole.
pub record IsSound (s : Store) : Type 0 where
  pub valid : IsValid s.pool
  pub whole : AllWhole s.pool.mem_brick_list

-- The slice of the taken piece behind a pointer.
unfoldable pub seen : Store → ℕ → Option (List ℕ × ℕ)
seen s h = do e ← get_elem? s.entities h; row_at s.pool.mem_brick_list e.brick e.index

-- Where it is.
unfoldable pub place : Store → ℕ → Option (ℕ × ℕ)
place s h = do e ← get_elem? s.entities h; some (e.brick, e.index)

abbrev pub Apart : Store → ℕ → ℕ → Type 0
Apart s h k = place s h ≢ place s k

pub slice-seen : (s : Store) (h : ℕ) (x : List ℕ × ℕ) → seen s h ≡ some x → slice s h ≡ some x
unfolding seen slice
slice-seen s h x e =
    let (m, g, r) =
      >>=-some (get_elem? s.entities h) (λ m. row_at s.pool.mem_brick_list m.brick m.index) x e in
    rw g (bytes-row_at s.pool m x r)

pub seen-length :
    (s : Store) (h n : ℕ) (content : List ℕ) → seen s h ≡ some (content, n) → length content ≡ n
unfolding seen
seen-length s h n content e =
    let (m, g, r) =
      >>=-some (get_elem? s.entities h) (λ m. row_at s.pool.mem_brick_list m.brick m.index)
        (content, n) e in
    row_at-length s.pool.mem_brick_list m.brick m.index n content r

-- The pieces of two entities that are apart.
places_ne : (a i c j : ℕ) → ((a ≡ c) → (i ≡ j) → ⊥) → (a ≢ c) ⊎ (i ≢ j)
places_ne a i c j h = elim (Bool-cases (a == c)) [
  | inl e ↦ inr (λ q. h (ground arith) q)
  | inr e ↦ inl (λ q. ground arith)
]

pieces_differ :
    (s : Store) (h k : ℕ) (e f : MemEntity)
    → get_elem? s.entities h ≡ some e
    → get_elem? s.entities k ≡ some f
    → Apart s h k
    → (e.brick ≢ f.brick) ⊎ (e.index ≢ f.index)
unfolding place
pieces_differ s h k e f ge gf a =
    places_ne e.brick e.index f.brick f.index (λ q t. a (rw (ge, gf) (λ z. some (q z, t z))))

pub seen-at :
    (s : Store) (h : ℕ) (e : MemEntity)
    → get_elem? s.entities h ≡ some e
    → seen s h ≡ row_at s.pool.mem_brick_list e.brick e.index
unfolding seen
seen-at s h e g = rw g refl

pub seen-found :
    (s : Store) (h : ℕ) (x : List ℕ × ℕ)
    → seen s h ≡ some x
    → (e : MemEntity) × (get_elem? s.entities h ≡ some e)
      × (row_at s.pool.mem_brick_list e.brick e.index ≡ some x)
unfolding seen
seen-found s h x t =
    >>=-some (get_elem? s.entities h) (λ e. row_at s.pool.mem_brick_list e.brick e.index) x t

-- The store with another pool, behind which one piece differs.
pub others-seen :
    (s : Store) (p' : MemPool) (h : ℕ) (e : MemEntity)
    → get_elem? s.entities h ≡ some e
    → ((c j : ℕ)
        → (e.brick ≢ c) ⊎ (e.index ≢ j)
        → row_at p'.mem_brick_list c j ≡ row_at s.pool.mem_brick_list c j)
    → (k : ℕ) (y : List ℕ × ℕ) → Apart s h k
    → seen s k ≡ some y
    → seen (record s { pool = p' }) k ≡ some y
others-seen s p' h e g rest k y a t =
    let (f, gf, r) = seen-found s k y t in
    seen-at (record s { pool = p' }) k f gf
    ∙ (rest f.brick f.index (pieces_differ s h k e f g gf a) ∙ r)

written_others :
    (p p' : MemPool) (a i c j : ℕ) (x : List ℕ × ℕ)
    → row_at p'.mem_brick_list c j
      ≡ (if a == c && i == j then some x else row_at p.mem_brick_list c j)
    → (a ≢ c) ⊎ (i ≢ j)
    → row_at p'.mem_brick_list c j ≡ row_at p.mem_brick_list c j
written_others p p' a i c j x h ne = ground arith

-- What a write behind a pointer does.
pub record Put (s s' : Store) (h : ℕ) (x : List ℕ × ℕ) : Type 0 where
  pub sound : IsSound s'
  pub entities : s'.entities ≡ s.entities
  pub self : seen s' h ≡ some x
  pub others : (k : ℕ) (y : List ℕ × ℕ) → Apart s h k → seen s k ≡ some y → seen s' k ≡ some y

put_slice-at :
    (s : Store) (h n : ℕ) (old content : List ℕ) (e : MemEntity)
    → IsSound s
    → get_elem? s.entities h ≡ some e
    → row_at s.pool.mem_brick_list e.brick e.index ≡ some (old, n)
    → length content ≡ n
    → (s' : Store) × (put_slice s h content ≡ some s') × Put s s' h (content, n)
unfolding put_slice
put_slice-at s h n old content e i g r l =
    let (b, f, w) = write_brick-Written s.pool e old content n i.whole r l in
    let p' = write_brick s.pool (store_mem b e.index content) in
    (
      record s { pool = p' },
      (rw (g, f) refl),
      record {
        sound = record { valid = w.valid i.valid; whole = w.whole };
        entities = refl;
        self = seen-at (record s { pool = p' }) h e g ∙ (w.slices e.brick e.index ∙ ground arith);
        others =
            others-seen s p' h e g
              (λ c j. written_others s.pool p' e.brick e.index c j (content, n) (w.slices c j));
      },
    )

-- Writing the slice behind a pointer, with as many bytes, succeeds.
pub put_slice-Put :
    (s : Store) (h n : ℕ) (old content : List ℕ)
    → IsSound s
    → seen s h ≡ some (old, n)
    → length content ≡ n
    → (s' : Store) × (put_slice s h content ≡ some s') × Put s s' h (content, n)
put_slice-Put s h n old content i t l =
    let (e, g, r) = seen-found s h (old, n) t in put_slice-at s h n old content e i g r l

-- What the release of a piece does to the others.
pub record Gone (s s' : Store) (h : ℕ) : Type 0 where
  pub sound : IsSound s'
  pub entities : s'.entities ≡ s.entities
  pub others : (k : ℕ) (y : List ℕ × ℕ) → Apart s h k → seen s k ≡ some y → seen s' k ≡ some y

-- Freeing what is behind a pointer succeeds.
pub free-Gone :
    (s : Store) (h : ℕ) (x : List ℕ × ℕ)
    → IsSound s
    → seen s h ≡ some x
    → (s' : Store) × (free s h ≡ some s') × Gone s s' h
unfolding free
free-Gone s h x i t =
    let (e, g, r) = seen-found s h x t in
    let (p', f, w) = full_release-Released s.pool e x i.whole r in
    (
      record s { pool = p' },
      (rw (g, f) refl),
      record {
        sound = record { valid = w.valid i.valid; whole = w.whole };
        entities = refl;
        others = others-seen s p' h e g w.slices;
      },
    )

pub place-same : (s s' : Store) (h : ℕ) → s'.entities ≡ s.entities → place s' h ≡ place s h
unfolding place
place-same s s' h e = rw e refl

-- Two places that stay where they are stay apart.
pub Apart-kept :
    (s s' : Store) (h k : ℕ)
    → place s' h ≡ place s h
    → place s' k ≡ place s k
    → Apart s h k
    → Apart s' h k
Apart-kept s s' h k eh ek a q = a (sym eh ∙ (q ∙ ek))
