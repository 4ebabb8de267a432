-- ===== src/Entities/Runs.antt =====
-- The holders of one entity, and what all others do with the pool meanwhile, as steps.
use gitee_fork_gateway.Prelude.{
  ℕ, zero, suc, ◌+◌, ◌-◌, ◌%◌, ◌^◌, ◌<◌, ◌≡◌, sym, ap, subst, ◌∙◌, false, Option, none, some, List,
  length, ◌==◌, arith, Bool-cases, inl, inr,
}
use gitee_fork_gateway.Entities.{Store, acquire, put_slice, release, free}
use gitee_fork_gateway.Entities.Acks.{
  ack_of, acquire-SameAcks, put_slice-SameAcks, release-ack_of, free-SameAcks,
}
use gitee_fork_gateway.Entities.Seen.{
  IsSound, seen, seen-found, place, Apart, put_slice-Put, free-Gone,
}
use gitee_fork_gateway.Entities.Fresh.{acquire-Fresh}
use gitee_fork_gateway.Entities.Last.{ack_at, release-last}
use gitee_fork_gateway.Entities.Life.{
  lower, recounted, recounted-IsSound, seen-recounted, release-shared, release-others,
}

-- What the holders of other pieces do: they acquire one, write to theirs, release it, or free it.
pub data Other (h : ℕ) (s s' : Store) : Type 0 where
  acquires : (k ack size now later : ℕ) → acquire s ack size now later ≡ some (k, s') → Other h s s'
  writes :
      (k n : ℕ) (old content : List ℕ)
      → Apart s k h
      → seen s k ≡ some (old, n)
      → length content ≡ n
      → put_slice s k content ≡ some s'
      → Other h s s'
  releases :
      (k : ℕ) (y : List ℕ × ℕ)
      → Apart s k h
      → seen s k ≡ some y
      → release s k ≡ some s'
      → Other h s s'
  frees :
      (k : ℕ) (y : List ℕ × ℕ) → Apart s k h → seen s k ≡ some y → free s k ≡ some s' → Other h s s'

-- The holders of `h` release it `r` times, among steps of the others, in any order.
pub data Run (h : ℕ) : ℕ → Store → Store → Type 0 where
  here : (s : Store) → Run h 0 s s
  other : (r : ℕ) (s s' s'' : Store) → Other h s s' → Run h r s' s'' → Run h r s s''
  own : (r : ℕ) (s s' s'' : Store) → release s h ≡ some s' → Run h r s' s'' → Run h (suc r) s s''

record Alive (h n : ℕ) (x : List ℕ × ℕ) (s : Store) : Type 0 where
  sound : IsSound s
  held : seen s h ≡ some x
  count : ack_of s h ≡ some n

same_store : (s1 s2 : Store) → some s1 ≡ some s2 → s1 ≡ s2
same_store s1 s2 e = ground arith

same_pair : (p q : ℕ × Store) → some p ≡ some q → p.1 ≡ q.1
same_pair p q e = ground arith

Apart-differs : (s : Store) (k h : ℕ) → Apart s k h → (h == k) ≡ false
Apart-differs s k h a = elim (Bool-cases (h == k)) [
  | inl y ↦ (let q : k ≡ h = ground arith in absurd (a (ap (place s) q)))
  | inr y ↦ y
]

other-Alive :
    (h n : ℕ) (x : List ℕ × ℕ) (s s' : Store) → Other h s s' → Alive h n x s → Alive h n x s'
other-Alive h n x s s' (acquires k ack size now later e) a =
    let (k2, s2, e2, f) = acquire-Fresh s ack size now later a.sound in
    subst (Alive h n x) (same_pair (k2, s2) (k, s') (sym e2 ∙ e)) (record {
      sound = f.sound;
      held = f.others h x a.held;
      count = acquire-SameAcks s s2 ack size now later k2 e2 h n a.count;
    })
other-Alive h n x s s' (writes k m old content ap0 t l e) a =
    let (s2, e2, p) = put_slice-Put s k m old content a.sound t l in
    subst (Alive h n x) (same_store s2 s' (sym e2 ∙ e)) (record {
      sound = p.sound;
      held = p.others h x ap0 a.held;
      count = put_slice-SameAcks s s2 k content e2 h n a.count;
    })
other-Alive h n x s s' (releases k y ap0 t e) a =
    let (s2, e2, i, rest) = release-others s k y a.sound t in
    let c = release-ack_of s s2 k e2 h n a.count in
    let ne = Apart-differs s k h ap0 in
    subst (Alive h n x) (same_store s2 s' (sym e2 ∙ e))
      (record { sound = i; held = rest h x ap0 a.held; count = ground arith })
other-Alive h n x s s' (frees k y ap0 t e) a =
    let (s2, e2, g) = free-Gone s k y a.sound t in
    subst (Alive h n x) (same_store s2 s' (sym e2 ∙ e)) (record {
      sound = g.sound;
      held = g.others h x ap0 a.held;
      count = free-SameAcks s s2 k e2 h n a.count;
    })

lower_count : (n : ℕ) → suc (suc n) < 2 ^ 32 → (suc (suc n) + (2 ^ 32 - 1)) % 2 ^ 32 ≡ suc n
lower_count n h = omega arith

-- A release that is not the last.
own-Alive :
    (h n : ℕ) (x : List ℕ × ℕ) (s : Store)
    → suc (suc n) < 2 ^ 32
    → Alive h (suc (suc n)) x s
    → (s' : Store) × (release s h ≡ some s') × Alive h (suc n) x s'
own-Alive h n x s lt a =
    let (e, g, r) = seen-found s h x a.held in
    let c = ack_at s h (suc (suc n)) e g a.count in
    let lc = lower_count n lt in
    let v : lower e ≡ suc n = ap (λ z. (z + (2 ^ 32 - 1)) % 2 ^ 32) c ∙ lc in
    let z : (lower e == 0) ≡ false = ground arith in
    let s' = recounted s h e (lower e) in
    let q = release-shared s h e g z in
    let k = release-ack_of s s' h q h (suc (suc n)) a.count in
    (
      s',
      q,
      record {
        sound = recounted-IsSound s h (lower e) e a.sound;
        held = seen-recounted s h (lower e) h e g ∙ a.held;
        count = ground arith;
      },
    )

abbrev counts :
    (h : ℕ) (x : List ℕ × ℕ) (s : Store) (n n' : ℕ) → n ≡ n' → Alive h n x s → Alive h n' x s
counts h x s n n' e a = record {
  sound = a.sound;
  held = a.held;
  count = a.count ∙ ap (λ k. some k) e;
}

run-Alive :
    (h r m : ℕ) (x : List ℕ × ℕ) (s s' : Store)
    → suc m + r < 2 ^ 32
    → Run h r s s'
    → Alive h (suc m + r) x s
    → Alive h (suc m) x s'
run-Alive h r m x s s' lt (here t) a = counts h x s' (suc m + 0) (suc m) (omega arith) a
run-Alive h r m x s s' lt (other q t t' t'' step rest) a =
    run-Alive h r m x t' s' lt rest (other-Alive h (suc m + r) x s t' step a)
run-Alive h (suc r) m x s s' lt (own q t t' t'' e rest) a =
    let (t2, e2, b) =
      own-Alive h (m + r) x s (omega arith)
        (counts h x s (suc m + suc r) (suc (suc (m + r))) (omega arith) a) in
    let b' = subst (Alive h (suc (m + r)) x) (same_store t2 t' (sym e2 ∙ e)) b in
    run-Alive h r m x t' s' (omega arith) rest
      (counts h x t' (suc (m + r)) (suc m + r) (omega arith) b')

-- The entity's slice once its count has been lowered to `m`.
abbrev pub slice_left : ℕ → List ℕ × ℕ → Option (List ℕ × ℕ)
slice_left zero x = none
slice_left (suc m) x = some x

alive_release :
    (h m : ℕ) (x : List ℕ × ℕ) (s : Store)
    → suc m < 2 ^ 32
    → Alive h (suc m) x s
    → (s' : Store) × (release s h ≡ some s') × (seen s' h ≡ slice_left m x)
alive_release h zero x s lt a = release-last s h x a.sound a.held a.count
alive_release h (suc m) x s lt a = let (s', e, b) = own-Alive h m x s lt a in (s', e, b.held)

-- An entity of a sound pool, with a count below 2^32, whose holders release it one after the other,
-- while all others acquire, write, release and free other pieces, in any order. Before a release, at
-- which `m` more are to come, the entity's slice is what it was at the start; the release returns; and
-- behind it the slice is still the same, but if it was the last one, `m` is 0, its piece is free.
pub Run-release :
    (h m r : ℕ) (x : List ℕ × ℕ) (s s' : Store)
    → IsSound s
    → seen s h ≡ some x
    → ack_of s h ≡ some (suc m + r)
    → suc m + r < 2 ^ 32
    → Run h r s s'
    → (seen s' h ≡ some x)
      × (s'' : Store) × (release s' h ≡ some s'')
      × (seen s'' h ≡ slice_left m x)
Run-release h m r x s s' i t c lt run =
    let a = run-Alive h r m x s s' lt run (record { sound = i; held = t; count = c }) in
    let (s'', e, left) = alive_release h m x s' (omega arith) a in (a.held, s'', e, left)
