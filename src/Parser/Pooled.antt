-- ===== src/Parser/Pooled.antt =====
-- new/main.go: the three parsers with the entities that they work on. A parser leaves its answer, and
-- the store with what it wrote to the entities; the entities that it acquires for itself are freed.
pub mod Takes
use gitee_fork_gateway.Prelude.{
  ℕ, Bool, true, false, Option, none, some, List, String, ◌==◌, if◌then◌else◌, ◌>>=◌,
}
use gitee_fork_gateway.Bytes.{prefix, copy_loop}
use gitee_fork_gateway.Entities.{Store, acquire, slice, put_slice, free}
use gitee_fork_gateway.HandOut.{Answer, Parser}
use gitee_fork_gateway.Parser.{CryptImpl, Parsed, Worked, parse, web_socket_parse}

-- `s_size` is 0 in all of them.
abbrev pub answer : String → Parsed → Answer
answer serial p = record {
  s_size = 0;
  c_size = p.ca_size;
  serial = serial;
  beat = p.beat;
  src_len = p.src_len;
}

-- From the acquisition of the two buffers on; they are freed in the reverse order.
unfoldable pub tcp_parse_body :
    List ℕ → Option CryptImpl → String → ℕ → ℕ → Store → ℕ → ℕ → ℕ → Option (Answer × Store)
tcp_parse_body alive v tcp_serial now later s src tocast src_len = do
  (bytes, piece) ← slice s src
  (entity0, s1) ← acquire s 1 piece now later
  (entity1, s2) ← acquire s1 1 piece now later
  (cwp, size0) ← slice s2 entity0
  (cdt, size1) ← slice s2 entity1
  (tbyte, size2) ← slice s2 tocast
  w ← parse alive v piece bytes cwp cdt tbyte src_len
  s3 ← put_slice s2 src (w.parsed).bytes
  s4 ← put_slice s3 tocast (w.parsed).tbyte
  s5 ← put_slice s4 entity0 w.cwp
  s6 ← put_slice s5 entity1 w.cdt
  s7 ← free s6 entity1
  s8 ← free s7 entity0
  some (answer tcp_serial w.parsed, s8)

-- `TcpPackageParseEntity.Parser`.
unfoldable pub tcp_parser : List ℕ → Option CryptImpl → String → ℕ → ℕ → Parser
unfolding tcp_parse_body
tcp_parser alive v tcp_serial now later s src toself tocast src_len =
    let nothing : Answer = record {
      s_size = 0;
      c_size = 0;
      serial = tcp_serial;
      beat = false;
      src_len = src_len;
    } in
    let body = tcp_parse_body alive v tcp_serial now later s src tocast src_len in
    if src_len == 0 then some (nothing, s) else body

-- `WebSocketParse.Parser`.
unfoldable pub web_socket_parser : String → Parser
web_socket_parser cur_con_serial s src toself tocast src_len = do
  (bytes, piece) ← slice s src
  (cbytes, size) ← slice s tocast
  p ← web_socket_parse bytes cbytes src_len
  s' ← put_slice s tocast p.tbyte
  some (answer cur_con_serial p, s')

abbrev pub weixin_answer : String → ℕ → ℕ → Answer
weixin_answer serial c_size src_len = record {
  s_size = 0;
  c_size = c_size;
  serial = serial;
  beat = false;
  src_len = src_len;
}

-- The `UdpPackage` of a JSON text.
pub record UdpPackage : Type 0 where
  pub message : String
  pub type : String
  pub serial : String
  pub from : String

-- `p := UdpPackage{}`.
abbrev pub empty_package : UdpPackage
empty_package = record { message = ""; type = ""; serial = ""; from = "" }

-- `json.Unmarshal`: is the error nil, and what it leaves in the record.
abbrev pub Unmarshal : Type 0
Unmarshal = List ℕ → UdpPackage → Bool × UdpPackage

unfoldable pub deseries : Unmarshal → UdpPackage → List ℕ → Bool × UdpPackage
deseries unmarshal u js = unmarshal js u

-- From the answer of `Deseries` on: nothing is cast when the text is refused.
unfoldable pub weixin_cast : Store → ℕ → List ℕ → ℕ → Bool × UdpPackage → Option (Answer × Store)
weixin_cast s tocast bytes src_len (false, p) = some (weixin_answer "" 0 src_len, s)
weixin_cast s tocast bytes src_len (true, p) = do
  (tc, size) ← slice s tocast
  tc' ← copy_loop src_len 0 bytes tc
  s' ← put_slice s tocast tc'
  some (weixin_answer p.serial src_len src_len, s')

-- `WEIXINPackageParseEntity.Parser`.
unfoldable pub weixin_parser : Unmarshal → Parser
unfolding deseries
weixin_parser unmarshal s src toself tocast src_len = do
  (bytes, piece) ← slice s src
  js ← prefix bytes src_len
  weixin_cast s tocast bytes src_len (deseries unmarshal empty_package js)
