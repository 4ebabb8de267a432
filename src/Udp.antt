-- ===== src/Udp.antt =====
-- new/server_udp.go: the UDP server. What `ReadFromUDP` gives is an argument; what was handed to
-- `WriteToUDP` is kept in `sent`, by the address. `none` is a panic or a call that waits for ever.
pub mod Addresses
mod Tests
use Prim.Native.String.{len}
use gitee_fork_gateway.Prelude.{
  ℕ, zero, suc, ◌+◌, Bool, true, false, Option, none, some, List, [], ◌∷◌, ◌++◌, String, length,
  take, drop, min, ltb, if◌then◌else◌, ◌>>=◌,
}
use gitee_fork_gateway.NetConMap.{NetConMap, Value, conn, table}
use gitee_fork_gateway.NetConMap
use gitee_fork_gateway.Bytes.{prefix}
use gitee_fork_gateway.FifoQueue.{FifoQueue}
use gitee_fork_gateway.Entities.{Store, DataWrapper, slice, put_slice, release}
use gitee_fork_gateway.HandOut.{Lines, Parser, hand_out}

pub record UdpServer : Type 0 where
  pub udp_map : NetConMap String
  pub entities : Store
  pub sent : List (String × List ℕ)

-- `if len(serial) > 1`, with `Store`.
unfoldable pub remember :
    (NetConMap String → NetConMap String)
    → NetConMap String
    → String
    → String
    → Option (NetConMap String)
remember others_map m serial addr =
    let stored = NetConMap.store others_map m serial addr addr in
    if ltb 1 (len serial) then stored else some m

-- One round of `readUdpData`. `serial` is the variable of the loop, which no statement assigns.
-- `ReadFromUDP` writes the packet to the front of the slice and drops what does not fit.
unfoldable pub read_round :
    (FifoQueue DataWrapper → FifoQueue DataWrapper)
    → (NetConMap String → NetConMap String)
    → Parser
    → ℕ
    → ℕ
    → ℕ
    → String
    → Option (List ℕ × String)
    → UdpServer
    → Lines
    → Option (UdpServer × Lines)
unfolding remember hand_out
read_round others others_map parser now later src serial none u l = some (u, l)
read_round others others_map parser now later src serial (some (packet, addr)) u l = do
  (bytes, piece) ← slice u.entities src
  let n = min (length packet) (length bytes)
  s1 ← put_slice u.entities src (take n packet ++ drop n bytes)
  (a, l', s2) ← hand_out others now parser later l s1 src n serial addr (some addr)
  map' ← remember others_map u.udp_map serial addr
  some (record u { udp_map = map'; entities = s2 }, l')

-- `serial := ""`, and the rounds, one for each answer of `ReadFromUDP`.
unfoldable pub read_rounds :
    (FifoQueue DataWrapper → FifoQueue DataWrapper)
    → (NetConMap String → NetConMap String)
    → Parser
    → ℕ
    → ℕ
    → ℕ
    → String
    → List (Option (List ℕ × String))
    → UdpServer
    → Lines
    → Option (UdpServer × Lines)
unfolding read_round
read_rounds others others_map parser now later src serial [] u l = some (u, l)
read_rounds others others_map parser now later src serial (msg ∷ msgs) u l = do
  (u', l') ← read_round others others_map parser now later src serial msg u l
  read_rounds others others_map parser now later src serial msgs u' l'

unfoldable pub read_udp_data :
    (FifoQueue DataWrapper → FifoQueue DataWrapper)
    → (NetConMap String → NetConMap String)
    → Parser
    → ℕ
    → ℕ
    → ℕ
    → List (Option (List ℕ × String))
    → UdpServer
    → Lines
    → Option (UdpServer × Lines)
unfolding read_rounds
read_udp_data others others_map parser now later src msgs u l =
    read_rounds others others_map parser now later src "" msgs u l

-- The visitor of `writeUdpData`; an inner map is no address, and `WriteToUDP` panics on its nil.
unfoldable pub visit_addr :
    List ℕ
    → String
    → Value String
    → Option (List (String × List ℕ))
    → Option (List (String × List ℕ)) × Bool
visit_addr text key (conn addr) sent = ((sent >>= λ out. some (out ++ ((addr, text) ∷ []))), true)
visit_addr text key (table mp) sent = (none, false)

-- One round of `writeUdpData` with the wrapper that it took from the channel.
unfoldable pub write_udp_data : UdpServer → DataWrapper → Option UdpServer
unfolding visit_addr
write_udp_data u d = do
  (bytes, piece) ← slice u.entities d.data_store
  text ← prefix bytes d.data_length
  sent' ← (elim d.udp_addr [
    | some addr ↦ some (u.sent ++ ((addr, text) ∷ []))
    | none ↦ NetConMap.range u.udp_map d.target_con_serial (visit_addr text) (some u.sent)
  ])
  s ← release u.entities d.data_store
  some (record u { entities = s; sent = sent' })
