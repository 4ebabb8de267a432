-- ===== src/Entities/Acks.antt =====
-- The counts of the entities, as the operations leave them.
use gitee_fork_gateway.Prelude.{
  ℕ, zero, suc, ◌+◌, ◌-◌, ◌%◌, ◌^◌, ◌≡◌, Option, some, List, [], ◌∷◌, ◌++◌, length, get_elem?, ◌==◌,
  if◌then◌else◌, ◌>>=◌, arith, Option-cases, inl, inr, length-gt_of_get_elem?, >>=-some,
}
use gitee_fork_gateway.Bytes.Slices.{get_elem?-set}
use gitee_fork_gateway.Pool.{MemEntity, MemPool, get_entity, release_onece}
use gitee_fork_gateway.Entities.{Store, acquire, put_slice, release, free}

-- `AckTimes` behind a pointer.
unfoldable pub ack_of : Store → ℕ → Option ℕ
ack_of s h = do e ← get_elem? s.entities h; some e.ack_times

-- No count that there is changes.
abbrev pub SameAcks : Store → Store → Type 0
SameAcks s s' = (h n : ℕ) → ack_of s h ≡ some n → ack_of s' h ≡ some n

pub get_elem?-append_left :
    (es fs : List MemEntity) (h : ℕ) (e : MemEntity)
    → get_elem? es h ≡ some e
    → get_elem? (es ++ fs) h ≡ some e
get_elem?-append_left [] fs h e g = ground arith
get_elem?-append_left (x ∷ es) fs zero e g = g
get_elem?-append_left (x ∷ es) fs (suc h) e g = get_elem?-append_left es fs h e g

abbrev joined : Store → MemPool → MemEntity → Store
joined s p x = record { pool = p; entities = s.entities ++ (x ∷ []) }

pub acquire-SameAcks :
    (s s' : Store) (ack size now later h : ℕ)
    → acquire s ack size now later ≡ some (h, s')
    → SameAcks s s'
unfolding acquire ack_of
acquire-SameAcks s s' ack size now later h e k n g =
    let (e1, g1, n1) = >>=-some (get_elem? s.entities k) (λ x. some x.ack_times) n g in
    let (e0, g0, r) =
      >>=-some (get_entity s.pool ack size now later).0
        (λ x. some (length s.entities, joined s (get_entity s.pool ack size now later).1 x)) (h, s')
        e in
    let es : s'.entities ≡ s.entities ++ (e0 ∷ []) = ground arith in
    let a = get_elem?-append_left s.entities (e0 ∷ []) k e1 g1 in rw (es, a) n1

pub put_slice-SameAcks :
    (s s' : Store) (h : ℕ) (content : List ℕ) → put_slice s h content ≡ some s' → SameAcks s s'
unfolding put_slice ack_of
put_slice-SameAcks s s' h content e k n g = ground arith

pub free-SameAcks : (s s' : Store) (h : ℕ) → free s h ≡ some s' → SameAcks s s'
unfolding free ack_of
free-SameAcks s s' h e k n g = ground arith

-- A release lowers the count behind its pointer, and no other.
pub release-ack_of :
    (s s' : Store) (h : ℕ)
    → release s h ≡ some s'
    → (k n : ℕ) → ack_of s k ≡ some n
    → ack_of s' k ≡ some (if k == h then (n + (2 ^ 32 - 1)) % 2 ^ 32 else n)
unfolding release release_onece ack_of
release-ack_of s s' h e k n g = elim (Option-cases (get_elem? s.entities h)) [
  | inl none_there ↦ absurd (ground arith)
  | inr (x, gx) ↦ ground (
    arith,
    get_elem?-set s.entities h k (record x { ack_times = (x.ack_times + (2 ^ 32 - 1)) % 2 ^ 32 })
        (length-gt_of_get_elem? s.entities h x gx),
  )
]
