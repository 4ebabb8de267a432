-- ===== src/WebSocket/Handle/Closed.antt =====
-- How a handler ends.
use gitee_fork_gateway.Prelude.{
  ℕ, ◌≡◌, Bool, true, false, Option, some, List, String, if◌then◌else◌, ◌>>=◌, >>=-some, arith,
}
use gitee_fork_gateway.NetConMap
use gitee_fork_gateway.Entities.{Store, acquire, free}
use gitee_fork_gateway.HandOut.{Lines}
use gitee_fork_gateway.WebSocket.{Sockets, Hello, refused, device, close, hello, register}
use gitee_fork_gateway.WebSocket.Handle.{Handler, read_rounds, bow_out, serve, web_sock_handle}

bow_out-closed :
    (t : Handler) (entity : ℕ) (w w' : Sockets)
    → bow_out t entity w ≡ some w'
    → w'.closed t.ws ≡ true
unfolding bow_out close
bow_out-closed t entity w w' e =
    let (s, e1, r1) =
      >>=-some (free w.entities entity) (λ s. some (close (record w { entities = s }) t.ws)) w' e in
    ground arith

-- The end of a served connection.
abbrev over : Handler → ℕ → String → Sockets → Lines → Store → Option (Bool × Sockets × Lines)
over t entity serial w1 l2 s2 = do
  (s3, l3) ← t.s_dis_connect serial entity s2 l2
  w' ←
      bow_out t entity
        (record w1 { entities = s3; map = NetConMap.delete w1.map serial t.req_addr })
  some (true, w', l3)

over-closed :
    (t : Handler) (entity : ℕ) (serial : String) (w1 w' : Sockets) (l2 l' : Lines) (s2 : Store)
    (ended : Bool)
    → over t entity serial w1 l2 s2 ≡ some (ended, w', l')
    → w'.closed t.ws ≡ true
over-closed t entity serial w1 w' l2 l' s2 ended e =
    let ((s3, l3), e1, r1) =
      >>=-some (t.s_dis_connect serial entity s2 l2)
        (λ x. do
          w2 ←
              bow_out t entity
                (record w1 { entities = x.0; map = NetConMap.delete w1.map serial t.req_addr })
          some (true, w2, x.1))
        (ended, w', l') e in
    let (w2, e2, r2) =
      >>=-some
        (bow_out t entity
          (record w1 { entities = s3; map = NetConMap.delete w1.map serial t.req_addr }))
        (λ w2. some (true, w2, l3)) (ended, w', l') r1 in
    let c =
      bow_out-closed t entity
        (record w1 { entities = s3; map = NetConMap.delete w1.map serial t.req_addr }) w2 e2 in
    ground arith

from_rounds-closed :
    (t : Handler) (entity : ℕ) (serial : String) (w1 w' : Sockets) (l2 l' : Lines) (s2 : Store)
    (ended : Bool)
    → (if ended
        then over t entity serial w1 l2 s2
        else some (false, record w1 { entities = s2 }, l2))
      ≡ some (true, w', l')
    → w'.closed t.ws ≡ true
from_rounds-closed t entity serial w1 w' l2 l' s2 true e =
    over-closed t entity serial w1 w' l2 l' s2 true e
from_rounds-closed t entity serial w1 w' l2 l' s2 false e = absurd (ground arith)

abbrev from_rounds :
    Handler → ℕ → String → Sockets → Bool → Lines → Store → Option (Bool × Sockets × Lines)
from_rounds t entity serial w1 ended l2 s2 =
    if ended then over t entity serial w1 l2 s2 else some (false, record w1 { entities = s2 }, l2)

serve-closed :
    (t : Handler) (entity : ℕ) (serial : String) (msgs : List (Option (List ℕ))) (w w' : Sockets)
    (l l' : Lines)
    → serve t entity serial msgs w l ≡ some (true, w', l')
    → w'.closed t.ws ≡ true
unfolding serve
serve-closed t entity serial msgs w w' l l' e =
    let (w1, e1, r1) =
      >>=-some (register t.others_map w serial t.req_addr t.ws)
        (λ w1. do
          (s1, l1) ← t.s_new_connect serial entity w1.entities l
          (ended, l2, s2) ← read_rounds t serial entity msgs l1 s1
          from_rounds t entity serial w1 ended l2 s2)
        (true, w', l') e in
    let ((s1, l1), e2, r2) =
      >>=-some (t.s_new_connect serial entity w1.entities l)
        (λ x. do
          (ended, l2, s2) ← read_rounds t serial entity msgs x.1 x.0
          from_rounds t entity serial w1 ended l2 s2)
        (true, w', l') r1 in
    let ((ended, l2, s2), e3, r3) =
      >>=-some (read_rounds t serial entity msgs l1 s1)
        (λ x. from_rounds t entity serial w1 x.0 x.1 x.2) (true, w', l') r2 in
    from_rounds-closed t entity serial w1 w' l2 l' s2 ended r3

abbrev after_hello :
    Handler → ℕ → List (Option (List ℕ)) → Sockets → Lines → Hello → Option (Bool × Sockets × Lines)
after_hello t entity msgs w1 l answer = elim answer [
  | refused ↦ (do w2 ← bow_out t entity w1; some (true, w2, l))
  | device text ↦ serve t entity (t.to_text text) msgs w1 l
]

after_hello-closed :
    (t : Handler) (entity : ℕ) (msgs : List (Option (List ℕ))) (w1 w' : Sockets) (l l' : Lines)
    (answer : Hello)
    → after_hello t entity msgs w1 l answer ≡ some (true, w', l')
    → w'.closed t.ws ≡ true
after_hello-closed t entity msgs w1 w' l l' refused e =
    let (w2, e1, r1) = >>=-some (bow_out t entity w1) (λ w2. some (true, w2, l)) (true, w', l') e in
    let c = bow_out-closed t entity w1 w2 e1 in ground arith
after_hello-closed t entity msgs w1 w' l l' (device text) e =
    serve-closed t entity (t.to_text text) msgs w1 w' l l' e

-- Whatever a connection sends, and however its handler ends, the connection is closed then.
pub web_sock_handle-closed :
    (t : Handler) (first : Option (List ℕ)) (msgs : List (Option (List ℕ))) (w w' : Sockets)
    (l l' : Lines)
    → web_sock_handle t first msgs w l ≡ some (true, w', l')
    → w'.closed t.ws ≡ true
unfolding web_sock_handle
web_sock_handle-closed t first msgs w w' l l' e =
    let ((entity, s0), e1, r1) =
      >>=-some (acquire w.entities 1 1024 t.now t.later)
        (λ x. do
          (answer, w1) ← hello (record w { entities = x.1 }) t.ws x.0 first
          after_hello t x.0 msgs w1 l answer)
        (true, w', l') e in
    let ((answer, w1), e2, r2) =
      >>=-some (hello (record w { entities = s0 }) t.ws entity first)
        (λ x. after_hello t entity msgs x.1 l x.0) (true, w', l') r1 in
    after_hello-closed t entity msgs w1 w' l l' answer r2
