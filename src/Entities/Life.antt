-- ===== src/Entities/Life.antt =====
-- The life of a shared entity, while the other holders go on with theirs.
use gitee_fork_gateway.Prelude.{
  ℕ, ◌+◌, ◌-◌, ◌%◌, ◌^◌, ◌≡◌, refl, ◌∙◌, true, false, some, List, get_elem?, set, ◌==◌, arith,
  length-gt_of_get_elem?, Bool-cases, inl, inr,
}
use gitee_fork_gateway.Bytes.Slices.{get_elem?-set}
use gitee_fork_gateway.Pool.{MemEntity, MemPool, full_release, release_onece}
use gitee_fork_gateway.Pool.Writes.{full_release-Released}
use gitee_fork_gateway.Entities.{Store, release}
use gitee_fork_gateway.Entities.Seen.{IsSound, seen, seen-found, Apart, others-seen}

-- Another count behind a pointer changes no slice.
pub recounted : Store → ℕ → MemEntity → ℕ → Store
recounted s k e v = record s { entities = set s.entities k (record e { ack_times = v }) }

pub seen-recounted :
    (s : Store) (k v j : ℕ) (e : MemEntity)
    → get_elem? s.entities k ≡ some e
    → seen (recounted s k e v) j ≡ seen s j
unfolding seen recounted
seen-recounted s k v j e g =
    let t =
      get_elem?-set s.entities k j (record e { ack_times = v })
        (length-gt_of_get_elem? s.entities k e g) in
    elim (Bool-cases (j == k)) [
      | inl y ↦
          (let gj : get_elem? s.entities j ≡ some e = ground arith in
            let tj : get_elem? (set s.entities k (record e { ack_times = v })) j
                ≡ some (record e { ack_times = v }) =
              ground arith in
            rw (tj, gj) refl)
      | inr y ↦ (rw (t, y) refl)
    ]

abbrev pub lower : MemEntity → ℕ
lower e = (e.ack_times + (2 ^ 32 - 1)) % 2 ^ 32

pub release-shared :
    (s : Store) (k : ℕ) (e : MemEntity)
    → get_elem? s.entities k ≡ some e
    → (lower e == 0) ≡ false
    → release s k ≡ some (recounted s k e (lower e))
unfolding release release_onece recounted
release-shared s k e g z = rw (g, z) refl

release-freed :
    (s : Store) (k : ℕ) (e : MemEntity) (p' : MemPool)
    → get_elem? s.entities k ≡ some e
    → (lower e == 0) ≡ true
    → full_release s.pool e ≡ some p'
    → release s k ≡ some (recounted (record s { pool = p' }) k e (lower e))
unfolding release release_onece recounted
release-freed s k e p' g z f = rw (g, z, f) refl

pub recounted-IsSound :
    (s : Store) (k v : ℕ) (e : MemEntity) → IsSound s → IsSound (recounted s k e v)
unfolding recounted
recounted-IsSound s k v e i = record { valid = i.valid; whole = i.whole }

-- A release of another holder.
pub release-others :
    (s : Store) (k : ℕ) (y : List ℕ × ℕ)
    → IsSound s
    → seen s k ≡ some y
    → (s' : Store) × (release s k ≡ some s')
      × IsSound s'
      × ((j : ℕ) (z : List ℕ × ℕ) → Apart s k j → seen s j ≡ some z → seen s' j ≡ some z)
release-others s k y i t =
    let (e, g, r) = seen-found s k y t in
    let (p', f, w) = full_release-Released s.pool e y i.whole r in
    let over : Store = record s { pool = p' } in
    elim (Bool-cases (lower e == 0)) [
      | inl z ↦ (
        recounted over k e (lower e),
        release-freed s k e p' g z f,
        recounted-IsSound over k (lower e) e (record { valid = w.valid i.valid; whole = w.whole }),
        λ j x a h. seen-recounted over k (lower e) j e g ∙ others-seen s p' k e g w.slices j x a h,
      )
      | inr z ↦ (
        recounted s k e (lower e),
        release-shared s k e g z,
        recounted-IsSound s k (lower e) e i,
        λ j x a h. seen-recounted s k (lower e) j e g ∙ h,
      )
    ]
