-- ===== src/Entities/Fresh.antt =====
-- A new entity, among those that there are.
use gitee_fork_gateway.Prelude.{
  ℕ, ◌%◌, ◌^◌, ◌≤◌, ◌≡◌, refl, ap, ◌∙◌, ◌≢◌, true, false, Option, none, some, List, [], ◌∷◌, ◌++◌,
  length, get_elem?, arith, is_some,
}
use gitee_fork_gateway.Pool.{MemEntity, get_entity}
use gitee_fork_gateway.Pool.Hold.{piece}
use gitee_fork_gateway.Pool.Gets.{get_entity-IsValid, get_entity-Held, get_entity_total}
use gitee_fork_gateway.Pool.Slices.{get_entity-row_at, get_entity-AllWhole}
use gitee_fork_gateway.Pool.Writes.{row_at-taken, piece-row_at}
use gitee_fork_gateway.Entities.{Store, acquire}
use gitee_fork_gateway.Entities.Acks.{ack_of, get_elem?-append_left}
use gitee_fork_gateway.Entities.Seen.{IsSound, seen, place, Apart, seen-found, seen-at}

-- What `GetEntity` gives: a pointer to a slice that is large enough, with the count asked for, apart
-- from every slice that there was, each of which is as it was.
pub record Fresh (size ack : ℕ) (s s' : Store) (h : ℕ) : Type 0 where
  pub sound : IsSound s'
  pub count : ack_of s' h ≡ some (ack % 2 ^ 32)
  pub self : (content : List ℕ) × (n : ℕ) × (seen s' h ≡ some (content, n)) × (size ≤ n)
  pub others : (k : ℕ) (y : List ℕ × ℕ) → seen s k ≡ some y → seen s' k ≡ some y
  pub apart : (k : ℕ) (y : List ℕ × ℕ) → seen s k ≡ some y → Apart s' h k
  pub places : (k : ℕ) (y : List ℕ × ℕ) → seen s k ≡ some y → place s' k ≡ place s k

get_elem?-last :
    (es : List MemEntity) (e : MemEntity) → get_elem? (es ++ (e ∷ [])) (length es) ≡ some e
get_elem?-last [] e = refl
get_elem?-last (x ∷ es) e = get_elem?-last es e

got_some : (o : Option MemEntity) → is_some o ≡ true → (e : MemEntity) × (o ≡ some e)
got_some none h = absurd (ground arith)
got_some (some e) h = (e, refl)

module _ (s : Store) (ack size now later : ℕ) (i : IsSound s) where
  grown : MemEntity → Store
  grown e = record {
    pool = (get_entity s.pool ack size now later).1;
    entities = s.entities ++ (e ∷ []);
  }

  grown-others :
      (e : MemEntity) (k : ℕ) (y : List ℕ × ℕ) → seen s k ≡ some y → seen (grown e) k ≡ some y
  unfolding grown
  grown-others e k y t =
      let (f, gf, r) = seen-found s k y t in
      seen-at (grown e) k f (get_elem?-append_left s.entities (e ∷ []) k f gf)
      ∙ get_entity-row_at s.pool ack size now later f.brick f.index y r

  grown-place :
      (e : MemEntity) (k : ℕ) (y : List ℕ × ℕ) → seen s k ≡ some y → place (grown e) k ≡ place s k
  unfolding grown place
  grown-place e k y t =
      let (f, gf, r) = seen-found s k y t in
      let a = get_elem?-append_left s.entities (e ∷ []) k f gf in rw (gf, a) refl

  grown-Apart :
      (e : MemEntity) (k : ℕ) (y : List ℕ × ℕ)
      → piece s.pool.mem_brick_list e.brick e.index ≢ some false
      → seen s k ≡ some y
      → Apart (grown e) (length s.entities) k
  unfolding grown place
  grown-Apart e k y fresh t =
      let (f, gf, r) = seen-found s k y t in
      let p = piece-row_at s.pool.mem_brick_list f.brick f.index y r in
      let a = get_elem?-append_left s.entities (e ∷ []) k f gf in
      let b = get_elem?-last s.entities e in λ q. fresh (ground arith)

  grown-Fresh :
      (e : MemEntity)
      → (get_entity s.pool ack size now later).0 ≡ some e
      → Fresh size ack s (grown e) (length s.entities)
  unfolding grown ack_of
  grown-Fresh e g =
      let held = get_entity-Held s.pool ack size now later e i.valid g in
      let whole = get_entity-AllWhole s.pool ack size now later i.whole in
      let (n, room, fits) = held.room in
      let (content, r) =
        row_at-taken (get_entity s.pool ack size now later).1.mem_brick_list e.brick e.index n whole
          held.taken room in
      let last = get_elem?-last s.entities e in
      record {
        sound = record {
          valid = get_entity-IsValid s.pool ack size now later i.valid;
          whole = whole;
        };
        count = (rw last (ap some held.counted));
        self = (content, n, seen-at (grown e) (length s.entities) e last ∙ r, fits);
        others = grown-others e;
        places = grown-place e;
        apart = λ k y. grown-Apart e k y held.fresh;
      }

  -- `GetEntity` always succeeds.
  pub acquire-Fresh :
      (h : ℕ) × (s' : Store) × (acquire s ack size now later ≡ some (h, s')) × Fresh size ack s s' h
  unfolding acquire grown
  acquire-Fresh =
      let (e, g) =
        got_some (get_entity s.pool ack size now later).0
          (get_entity_total s.pool ack size now later) in
      (length s.entities, grown e, (rw g refl), grown-Fresh e g)
