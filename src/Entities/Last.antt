-- ===== src/Entities/Last.antt =====
-- The last release of an entity frees its piece.
use gitee_fork_gateway.Prelude.{
  ℕ, ◌≡◌, refl, none, some, List, get_elem?, set, arith, length-gt_of_get_elem?,
}
use gitee_fork_gateway.Bytes.Slices.{get_elem?-set}
use gitee_fork_gateway.Pool.{MemEntity, MemPool, full_release, release_onece}
use gitee_fork_gateway.Pool.Slices.{row_at}
use gitee_fork_gateway.Pool.Writes.{full_release-Released}
use gitee_fork_gateway.Entities.{Store, release}
use gitee_fork_gateway.Entities.Acks.{ack_of}
use gitee_fork_gateway.Entities.Seen.{IsSound, seen, seen-found}

abbrev spent : MemEntity → MemEntity
spent e = record e { ack_times = 0 }

release_onece-last :
    (p p' : MemPool) (e : MemEntity)
    → e.ack_times ≡ 1
    → full_release p e ≡ some p'
    → release_onece p e ≡ some (p', spent e)
unfolding release_onece
release_onece-last p p' e one f = rw (one, f) refl

pub ack_at :
    (s : Store) (h n : ℕ) (e : MemEntity)
    → get_elem? s.entities h ≡ some e
    → ack_of s h ≡ some n
    → e.ack_times ≡ n
unfolding ack_of
ack_at s h n e g a = ground arith

gone_at :
    (s : Store) (p' : MemPool) (h : ℕ) (e : MemEntity)
    → get_elem? s.entities h ≡ some e
    → row_at p'.mem_brick_list e.brick e.index ≡ none
    → seen (record { pool = p'; entities = set s.entities h (spent e) }) h ≡ none
unfolding seen
gone_at s p' h e g r =
    let t = get_elem?-set s.entities h h (spent e) (length-gt_of_get_elem? s.entities h e g) in
    let t' : get_elem? (set s.entities h (spent e)) h ≡ some (spent e) = ground arith in rw t' r

-- Releasing the entity with a count of 1 frees its piece.
pub release-last :
    (s : Store) (h : ℕ) (x : List ℕ × ℕ)
    → IsSound s
    → seen s h ≡ some x
    → ack_of s h ≡ some 1
    → (s' : Store) × (release s h ≡ some s') × (seen s' h ≡ none)
unfolding release
release-last s h x i t a =
    let (e, g, r) = seen-found s h x t in
    let (p', f, w) = full_release-Released s.pool e x i.whole r in
    let o = release_onece-last s.pool p' e (ack_at s h 1 e g a) f in
    (
      record { pool = p'; entities = set s.entities h (spent e) },
      (rw (g, o) refl),
      gone_at s p' h e g w.gone,
    )
