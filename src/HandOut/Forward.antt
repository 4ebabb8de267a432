-- ===== src/HandOut/Forward.antt =====
-- The way of a message from the buffer of its sender to the queues of the other servers.
pub mod Web
use gitee_fork_gateway.Prelude.{
  ℕ, zero, suc, ◌+◌, ◌%◌, ◌^◌, ◌≤◌, ◌<◌, ◌≡◌, refl, sym, ap, ◌∙◌, ◌≢◌, Bool, true, false, Option,
  none, some, List, [], ◌∷◌, ◌++◌, String, length, take, ltb, if◌then◌else◌, ◌>>=◌, arith,
}
use gitee_fork_gateway.FifoQueue.{FifoQueue}
use gitee_fork_gateway.Dispatch.{broad_cast_data}
use gitee_fork_gateway.Dispatch.Broadcast.{AllAccept, AllReceived, broad_cast_data-AllReceived}
use gitee_fork_gateway.Entities.{Store, DataWrapper, acquire, free}
use gitee_fork_gateway.Entities.Acks.{ack_of, acquire-SameAcks, free-SameAcks, SameAcks}
use gitee_fork_gateway.Entities.Seen.{IsSound, seen, Apart, Put, free-Gone, place-same, Apart-kept}
use gitee_fork_gateway.Entities.Fresh.{Fresh, acquire-Fresh}
use gitee_fork_gateway.HandOut.{Lines, Answer, Parser, hand_self, hand_others, hand_out}
use gitee_fork_gateway.HandOut.Kept.{message}

-- A parser's answer that casts a text, and nothing to the sender.
pub record Cast (s s' : Store) (tocast : ℕ) (a : Answer) (serial : String) (text : List ℕ)
    : Type 0 where
  pub silent : a.s_size ≡ 0
  pub size : a.c_size ≡ length text
  pub target : a.serial ≡ serial
  pub content : List ℕ
  pub room : ℕ
  pub put : Put s s' tocast (content, room)
  pub acks : SameAcks s s'
  pub cast : take (length text) content ≡ text

-- The parser casts the text where the buffer and the entity for the others have it and room for it.
abbrev pub Casts : Parser → ℕ → ℕ → String → List ℕ → List ℕ → ℕ → Type 0
Casts parser src n serial text bytes m =
    (s : Store) (toself tocast k : ℕ) (old : List ℕ)
    → IsSound s
    → seen s src ≡ some (bytes, m)
    → seen s tocast ≡ some (old, k)
    → 1024 ≤ k
    → (a : Answer) × (s' : Store) × (parser s src toself tocast n ≡ some (a, s'))
      × Cast s s' tocast a serial text

-- What is left when the message is handed out: every server has one wrapper of it, whose entity holds
-- the text, and counts the servers; the sender's buffer is as it was.
pub record Forwarded (others : FifoQueue DataWrapper → FifoQueue DataWrapper) (now : ℕ)
    (l l' : Lines) (s' : Store) (src : ℕ) (buffer : List ℕ × ℕ) (serial : String)
    (udp_addr : Option String) (text : List ℕ) : Type 0 where
  pub tocast : ℕ
  pub handed :
      broad_cast_data 2 others now l.to_broad_cast serial
        (message now tocast (length text) serial udp_addr)
      ≡ some l'.to_broad_cast
  pub received :
      AllReceived serial
        (message now tocast (length text) serial udp_addr)
        l.to_broad_cast
        l'.to_broad_cast
  pub inbox : l'.inbox ≡ l.inbox
  pub content : List ℕ
  pub room : ℕ
  pub held : seen s' tocast ≡ some (content, room)
  pub same : take (length text) content ≡ text
  pub count : ack_of s' tocast ≡ some (length l.to_broad_cast % 2 ^ 32)
  pub sound : IsSound s'
  pub source : seen s' src ≡ some buffer

module _ (others : FifoQueue DataWrapper → FifoQueue DataWrapper) (now : ℕ) where
  hand_self-silent :
      (l : Lines) (s s' : Store) (toself : ℕ) (serial self_id : String) (udp_addr : Option String)
      → free s toself ≡ some s'
      → hand_self others now l s toself 0 serial self_id udp_addr ≡ some (l, s')
  unfolding hand_self
  hand_self-silent l s s' toself serial self_id udp_addr f = rw f refl

  hand_others-full :
      (l : Lines) (s : Store) (tocast c_size : ℕ) (serial : String) (udp_addr : Option String)
      → 0 < c_size
      → AllAccept l.to_broad_cast serial
      → (l' : Lines) × (hand_others others now l s tocast c_size serial udp_addr ≡ some (l', s))
        × (l'.inbox ≡ l.inbox)
        × (broad_cast_data 2 others now l.to_broad_cast serial
              (message now tocast c_size serial udp_addr)
            ≡ some l'.to_broad_cast)
        × AllReceived serial
            (message now tocast c_size serial udp_addr)
            l.to_broad_cast
            l'.to_broad_cast
  unfolding hand_others
  hand_others-full l s tocast c_size serial udp_addr pos a =
      let (objs, e, r) =
        broad_cast_data-AllReceived 1 others now l.to_broad_cast serial
          (message now tocast c_size serial udp_addr) a in
      let t : ltb 0 c_size ≡ true = ground arith in
      (record l { to_broad_cast = objs }, (rw (t, e) refl), refl, e, r)

  -- The round from the parser's answer on.
  abbrev rest :
      Answer
      → Lines
      → Store
      → ℕ
      → ℕ
      → String
      → String
      → Option String
      → Option (Answer × Lines × Store)
  rest a l s toself tocast serial self_id udp_addr = do
    (l1, s4) ← hand_self others now l s toself a.s_size serial self_id udp_addr
    (l2, s5) ← hand_others others now l1 s4 tocast a.c_size a.serial udp_addr
    some (a, l2, s5)

  rest-Forwarded :
      (a : Answer) (l : Lines) (s : Store) (toself tocast src room : ℕ) (content text : List ℕ)
      (x buffer : List ℕ × ℕ) (serial serial0 self_id : String) (udp_addr : Option String)
      → IsSound s
      → (a.s_size ≡ 0) × (a.c_size ≡ length text) × (a.serial ≡ serial0)
      → (seen s toself ≡ some x)
        × (seen s tocast ≡ some (content, room))
        × (seen s src ≡ some buffer)
      → Apart s toself tocast × Apart s toself src
      → take (length text) content ≡ text
      → ack_of s tocast ≡ some (length l.to_broad_cast % 2 ^ 32)
      → 0 < length text
      → AllAccept l.to_broad_cast serial0
      → (l' : Lines) × (s' : Store) × (rest a l s toself tocast serial self_id udp_addr
          ≡ some (a, l', s'))
        × Forwarded others now l l' s' src buffer serial0 udp_addr text
  rest-Forwarded a l s toself tocast src room content text x buffer serial serial0 self_id udp_addr
        sound (silent, size, target) (t1, t2, t3) (ap1, ap2) same count pos accepts =
      let (s4, f, gone) = free-Gone s toself x sound t1 in
      let e1 = hand_self-silent l s s4 toself serial self_id udp_addr f in
      let (l', e2, inbox, handed, r) =
        hand_others-full l s4 tocast (length text) serial0 udp_addr pos accepts in
      (
        l',
        s4,
        (rw (silent, size, target, e1, e2) refl),
        record {
          tocast = tocast;
          handed = handed;
          received = r;
          inbox = inbox;
          content = content;
          room = room;
          held = gone.others tocast (content, room) ap1 t2;
          same = same;
          count = free-SameAcks s s4 toself f tocast (length l.to_broad_cast % 2 ^ 32) count;
          sound = gone.sound;
          source = gone.others src buffer ap2 t3;
        },
      )

  -- A parser that casts the text of the buffer, and servers that take data at once: the round returns,
  -- and the message is forwarded.
  pub hand_out-Forwarded :
      (parser : Parser) (later : ℕ) (l : Lines) (s : Store) (src n m : ℕ) (bytes text : List ℕ)
      (serial serial0 self_id : String) (udp_addr : Option String)
      → Casts parser src n serial0 text bytes m
      → IsSound s
      → seen s src ≡ some (bytes, m)
      → 0 < length text
      → AllAccept l.to_broad_cast serial0
      → (a : Answer) × (l' : Lines) × (s' : Store) × (hand_out others now parser later l s src n
            serial self_id udp_addr
          ≡ some (a, l', s'))
        × Forwarded others now l l' s' src (bytes, m) serial0 udp_addr text
  unfolding hand_out
  hand_out-Forwarded parser later l s src n m bytes text serial serial0 self_id udp_addr casts sound
        there pos accepts =
      let (h1, s1, e1, f1) = acquire-Fresh s 1 1024 now later sound in
      let (h2, s2, e2, f2) = acquire-Fresh s1 (length l.to_broad_cast) 1024 now later f1.sound in
      let (c1, k1, t1, _) = f1.self in
      let (c2, k2, t2, room) = f2.self in
      let src1 = f1.others src (bytes, m) there in
      let src2 = f2.others src (bytes, m) src1 in
      let (a, s3, e3, c) = casts s2 h1 h2 k2 c2 f2.sound src2 t2 room in
      let apart1 = f1.apart src (bytes, m) there in
      let apart_src : Apart s2 h1 src =
        Apart-kept s1 s2 h1 src (f2.places h1 (c1, k1) t1) (f2.places src (bytes, m) src1) apart1 in
      let apart_two : Apart s2 h1 h2 = λ q. f2.apart h1 (c1, k1) t1 (sym q) in
      let self2 = f2.others h1 (c1, k1) t1 in
      let stays = λ (k : ℕ). place-same s2 s3 k (c.put).entities in
      let (l', s', e4, done) =
        rest-Forwarded a l s3 h1 h2 src c.room c.content text (c1, k1) (bytes, m) serial serial0
          self_id udp_addr (c.put).sound (c.silent, c.size, c.target)
          (
            (c.put).others h1 (c1, k1) (λ q. apart_two (sym q)) self2,
            (c.put).self,
            (c.put).others src (bytes, m) (f2.apart src (bytes, m) src1) src2,
          )
          (
            Apart-kept s2 s3 h1 h2 (stays h1) (stays h2) apart_two,
            Apart-kept s2 s3 h1 src (stays h1) (stays src) apart_src,
          )
          c.cast (c.acks h2 (length l.to_broad_cast % 2 ^ 32) f2.count) pos accepts in
      (a, l', s', (rw (e1, e2, e3) e4), done)
