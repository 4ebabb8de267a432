-- ===== src/Observer/Laid.antt =====
-- The entity that carries the observer's message.
use gitee_fork_gateway.Prelude.{ℕ, ◌≤◌, ◌≡◌, refl, ◌∙◌, some, List, length, take, arith, take_all}
use gitee_fork_gateway.Bytes.Copy.{copy_loop_lem}
use gitee_fork_gateway.FifoQueue.{FifoQueue}
use gitee_fork_gateway.Entities.{Store, DataWrapper}
use gitee_fork_gateway.Entities.Acks.{ack_of, put_slice-SameAcks}
use gitee_fork_gateway.Entities.Seen.{IsSound, seen, slice-seen, seen-length, put_slice-Put}
use gitee_fork_gateway.Entities.Fresh.{acquire-Fresh}
use gitee_fork_gateway.Observer.{prepare}

-- The new entity holds the text, and its count is 1; all that was held is as it was.
pub record Laid (s s' : Store) (e : ℕ) (text : List ℕ) : Type 0 where
  pub sound : IsSound s'
  pub content : List ℕ
  pub room : ℕ
  pub held : seen s' e ≡ some (content, room)
  pub same : take (length text) content ≡ text
  pub count : ack_of s' e ≡ some 1
  pub others : (k : ℕ) (y : List ℕ × ℕ) → seen s k ≡ some y → seen s' k ≡ some y

pub prepare-Laid :
    (others : FifoQueue DataWrapper → FifoQueue DataWrapper) (now later : ℕ) (s : Store)
    (entity piece : ℕ) (src text : List ℕ)
    → IsSound s
    → seen s entity ≡ some (src, piece)
    → length text ≤ piece
    → (e : ℕ) × (s' : Store) × (prepare others now later s entity text ≡ some (e, s'))
      × Laid s s' e text
unfolding prepare
prepare-Laid others now later s entity piece src text sound there fits =
    let (e, s1, e1, f) = acquire-Fresh s 1 piece now later sound in
    let (old, k, t, room) = f.self in
    let lk = seen-length s1 e k old t in
    let (r, c, l, tk, d) = copy_loop_lem (length text) text old (omega arith) (omega (arith, lk)) in
    let (s2, p, put) = put_slice-Put s1 e k old r f.sound t (l ∙ lk) in
    (
      e,
      s2,
      (rw (slice-seen s entity (src, piece) there, e1, slice-seen s1 e (old, k) t, c, p) refl),
      record {
        sound = put.sound;
        content = r;
        room = k;
        held = put.self;
        same = tk ∙ take_all text;
        count = put_slice-SameAcks s1 s2 e r p e 1 f.count;
        others = λ j y q. put.others j y (f.apart j y q) (f.others j y q);
      },
    )
