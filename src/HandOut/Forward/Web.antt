-- ===== src/HandOut/Forward/Web.antt =====
-- The parsers of the WebSocket and UDP servers cast what they are given.
mod Tests
use gitee_fork_gateway.Prelude.{
  ℕ, ◌≤◌, ◌<◌, ◌≡◌, refl, sym, ap, ◌∙◌, Option, none, some, List, String, length, take, drop, ◌>>=◌,
  arith, length-take, length-drop, ltb, if◌then◌else◌, true, false,
}
use gitee_fork_gateway.Bytes.{prefix, copy_loop}
use gitee_fork_gateway.Bytes.Copy.{copy_loop_lem}
use gitee_fork_gateway.FifoQueue.{FifoQueue}
use gitee_fork_gateway.Dispatch.Broadcast.{AllAccept}
use gitee_fork_gateway.Entities.{Store, DataWrapper, slice, put_slice}
use gitee_fork_gateway.Entities.Acks.{put_slice-SameAcks}
use gitee_fork_gateway.Entities.Seen.{IsSound, seen, slice-seen, seen-length, put_slice-Put}
use gitee_fork_gateway.Parser.{web_socket_parse}
use gitee_fork_gateway.Parser.Pooled.{
  web_socket_parser, weixin_answer, weixin_cast, weixin_parser, UdpPackage, Unmarshal, deseries,
  empty_package,
}
use gitee_fork_gateway.HandOut.{Lines, Answer, hand_out}
use gitee_fork_gateway.HandOut.Forward.{Cast, Casts, Forwarded, hand_out-Forwarded}

pub text_length : (n m : ℕ) (bytes : List ℕ) → length bytes ≡ m → n ≤ m → length (take n bytes) ≡ n
text_length n m bytes l h = omega (arith, length-take n bytes)

prefix_inside : (n : ℕ) (bytes : List ℕ) → n ≤ length bytes → prefix bytes n ≡ some (take n bytes)
unfolding prefix
prefix_inside n bytes h = ground arith

web_socket_parser-Casts :
    (src n m : ℕ) (serial : String) (bytes : List ℕ)
    → n ≤ m
    → n ≤ 1024
    → Casts (web_socket_parser serial) src n serial (take n bytes) bytes m
unfolding web_socket_parser web_socket_parse
web_socket_parser-Casts src n m serial bytes h h' s toself tocast k old sound t t' room =
    let lb = seen-length s src m bytes t in
    let lc = seen-length s tocast k old t' in
    let (r, e, l, tk, d) = copy_loop_lem n bytes old (omega arith) (omega arith) in
    let (s', p, put) = put_slice-Put s tocast k old r sound t' (l ∙ lc) in
    let lt = text_length n m bytes lb h in
    (
      record { s_size = 0; c_size = n; serial = serial; beat = false; src_len = n },
      s',
      (rw (slice-seen s src (bytes, m) t, slice-seen s tocast (old, k) t', e, p) refl),
      record {
        silent = refl;
        size = sym lt;
        target = refl;
        content = r;
        room = k;
        put = put;
        acks = put_slice-SameAcks s s' tocast r p;
        cast = ap (λ z. take z r) lt ∙ tk;
      },
    )

weixin_cast-some :
    (s : Store) (tocast n k : ℕ) (bytes old r : List ℕ) (p : UdpPackage) (s' : Store)
    → slice s tocast ≡ some (old, k)
    → copy_loop n 0 bytes old ≡ some r
    → put_slice s tocast r ≡ some s'
    → weixin_cast s tocast bytes n (true, p) ≡ some (weixin_answer p.serial n n, s')
unfolding weixin_cast
weixin_cast-some s tocast n k bytes old r p s' t e f = rw (t, e, f) refl

weixin_parser-Casts :
    (unmarshal : Unmarshal) (src n m : ℕ) (pkg : UdpPackage) (bytes : List ℕ)
    → n ≤ m
    → n ≤ 1024
    → deseries unmarshal empty_package (take n bytes) ≡ (true, pkg)
    → Casts (weixin_parser unmarshal) src n pkg.serial (take n bytes) bytes m
unfolding weixin_parser
weixin_parser-Casts unmarshal src n m pkg bytes h h' js s toself tocast k old sound t t' room =
    let lb = seen-length s src m bytes t in
    let lc = seen-length s tocast k old t' in
    let (r, e, l, tk, d) = copy_loop_lem n bytes old (omega arith) (omega arith) in
    let (s', p, put) = put_slice-Put s tocast k old r sound t' (l ∙ lc) in
    let lt = text_length n m bytes lb h in
    let inside = prefix_inside n bytes (omega arith) in
    (
      weixin_answer pkg.serial n n,
      s',
      (rw (slice-seen s src (bytes, m) t, inside, js)
          (weixin_cast-some s tocast n k bytes old r pkg s' (slice-seen s tocast (old, k) t') e p)),
      record {
        silent = refl;
        size = sym lt;
        target = refl;
        content = r;
        room = k;
        put = put;
        acks = put_slice-SameAcks s s' tocast r p;
        cast = ap (λ z. take z r) lt ∙ tk;
      },
    )

-- A message that a WebSocket client has sent, of at most 1024 bytes, where every server can take data
-- at once and the pool is sound: the round returns; every server that is not nil has one wrapper of it
-- at the end of its queue, under the client's serial; the wrapper's entity holds the message, byte for
-- byte, and its count is the number of servers, modulo 2^32; the sender's own queue and its buffer are
-- as they were, and the pool is sound.
pub web_hand_out-Forwarded :
    (others : FifoQueue DataWrapper → FifoQueue DataWrapper) (now later : ℕ) (l : Lines) (s : Store)
    (src n m : ℕ) (bytes : List ℕ) (serial self_id : String)
    → IsSound s
    → seen s src ≡ some (bytes, m)
    → 0 < n
    → n ≤ m
    → n ≤ 1024
    → AllAccept l.to_broad_cast serial
    → (a : Answer) × (l' : Lines) × (s' : Store) × (hand_out others now
          (web_socket_parser serial)
          later
          l
          s
          src
          n
          serial
          self_id
          none
        ≡ some (a, l', s'))
      × Forwarded others now l l' s' src (bytes, m) serial none (take n bytes)
web_hand_out-Forwarded others now later l s src n m bytes serial self_id sound t pos h h' accepts =
    let lt = text_length n m bytes (seen-length s src m bytes t) h in
    hand_out-Forwarded others now (web_socket_parser serial) later l s src n m bytes (take n bytes)
      serial serial self_id none (web_socket_parser-Casts src n m serial bytes h h') sound t
      (omega (arith, lt)) accepts

-- A packet of the UDP server, of at most 1024 bytes, that is the JSON text of a package, where every
-- server can take data at once and the pool is sound: the round returns; every server that is not nil
-- has one wrapper of the packet at the end of its queue, under the package's serial and with the
-- packet's address; the wrapper's entity holds the packet, byte for byte, and its count is the number
-- of servers, modulo 2^32; the UDP server's own channel and the buffer are as they were, and the pool
-- is sound.
pub udp_hand_out-Forwarded :
    (others : FifoQueue DataWrapper → FifoQueue DataWrapper) (unmarshal : Unmarshal) (now later : ℕ)
    (l : Lines) (s : Store) (src n m : ℕ) (bytes : List ℕ) (pkg : UdpPackage) (own addr : String)
    → IsSound s
    → seen s src ≡ some (bytes, m)
    → 0 < n
    → n ≤ m
    → n ≤ 1024
    → deseries unmarshal empty_package (take n bytes) ≡ (true, pkg)
    → AllAccept l.to_broad_cast pkg.serial
    → (a : Answer) × (l' : Lines) × (s' : Store) × (hand_out others now
          (weixin_parser unmarshal)
          later
          l
          s
          src
          n
          own
          addr
          (some addr)
        ≡ some (a, l', s'))
      × Forwarded others now l l' s' src (bytes, m) pkg.serial (some addr) (take n bytes)
udp_hand_out-Forwarded others unmarshal now later l s src n m bytes pkg own addr sound t pos h h' js
      accepts =
    let lt = text_length n m bytes (seen-length s src m bytes t) h in
    hand_out-Forwarded others now (weixin_parser unmarshal) later l s src n m bytes (take n bytes)
      own pkg.serial addr (some addr) (weixin_parser-Casts unmarshal src n m pkg bytes h h' js)
      sound t (omega (arith, lt)) accepts
