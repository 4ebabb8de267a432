-- ===== src/Udp/Addresses.antt =====
-- The addresses that the UDP server keeps: none, since its loop never learns a serial.
use gitee_fork_gateway.Prelude.{
  ℕ, ◌≡◌, refl, ◌∙◌, ◌⊎◌, inl, inr, Option-cases, false, Option, none, some, List, [], ◌∷◌, ◌++◌,
  String, >>=-some, arith,
}
use gitee_fork_gateway.SyncMap
use gitee_fork_gateway.NetConMap.{NetConMap, conn}
use gitee_fork_gateway.NetConMap
use gitee_fork_gateway.Bytes.{prefix}
use gitee_fork_gateway.FifoQueue.{FifoQueue}
use gitee_fork_gateway.Entities.{Store, DataWrapper, slice, release}
use gitee_fork_gateway.HandOut.{Lines, Parser}
use gitee_fork_gateway.Udp.{
  UdpServer, remember, read_round, read_rounds, read_udp_data, write_udp_data,
}

module _ (others : FifoQueue DataWrapper → FifoQueue DataWrapper)
    (others_map : NetConMap String → NetConMap String) (parser : Parser) (now later src : ℕ) where
  remember_nothing : (m : NetConMap String) (addr : String) → remember others_map m "" addr ≡ some m
  unfolding remember
  remember_nothing m addr = refl

  read_round_map :
      (msg : Option (List ℕ × String)) (u u' : UdpServer) (l l' : Lines)
      → read_round others others_map parser now later src "" msg u l ≡ some (u', l')
      → u'.udp_map ≡ u.udp_map
  unfolding read_round
  read_round_map none u u' l l' e = ground arith
  read_round_map (some (packet, addr)) u u' l l' e = ground (arith, remember_nothing u.udp_map addr)

  read_rounds_map :
      (msgs : List (Option (List ℕ × String))) (u u' : UdpServer) (l l' : Lines)
      → read_rounds others others_map parser now later src "" msgs u l ≡ some (u', l')
      → u'.udp_map ≡ u.udp_map
  unfolding read_rounds
  read_rounds_map [] u u' l l' e = ground arith
  read_rounds_map (msg ∷ msgs) u u' l l' e =
      let ((u1, l1), e1, e2) =
        >>=-some (read_round others others_map parser now later src "" msg u l)
          (λ t. read_rounds others others_map parser now later src "" msgs t.0 t.1) (u', l') e in
      read_rounds_map msgs u1 u' l1 l' e2 ∙ read_round_map msg u u1 l l1 e1

-- The loop of the UDP server never stores an address: after any number of packets the map is the one
-- that it began with.
pub read_udp_data_map :
    (others : FifoQueue DataWrapper → FifoQueue DataWrapper)
    (others_map : NetConMap String → NetConMap String) (parser : Parser) (now later src : ℕ)
    (msgs : List (Option (List ℕ × String))) (u u' : UdpServer) (l l' : Lines)
    → read_udp_data others others_map parser now later src msgs u l ≡ some (u', l')
    → u'.udp_map ≡ u.udp_map
unfolding read_udp_data
read_udp_data_map others others_map parser now later src msgs u u' l l' e =
    read_rounds_map others others_map parser now later src msgs u u' l l' e

-- The text of a wrapper goes to its own address where it has one. Where it has none and the map,
-- which keeps one address for a serial, has nothing for its serial, it goes nowhere. In both cases the entity is released once.
pub write_udp_data_lem :
    (u : UdpServer) (d : DataWrapper) (bytes text : List ℕ) (piece : ℕ) (s : Store)
    → slice u.entities d.data_store ≡ some (bytes, piece)
    → prefix bytes d.data_length ≡ some text
    → release u.entities d.data_store ≡ some s
    → (u.udp_map).allow_dup ≡ false
    → SyncMap.load d.target_con_serial (u.udp_map).deque ≡ none
    → ((addr : String) × (d.udp_addr ≡ some addr)
        × (write_udp_data u d
            ≡ some (record u { entities = s; sent = u.sent ++ ((addr, text) ∷ []) })))
      ⊎ ((d.udp_addr ≡ none) × (write_udp_data u d ≡ some (record u { entities = s })))
unfolding write_udp_data NetConMap.range
write_udp_data_lem u d bytes text piece s eb et es ea el = elim (Option-cases d.udp_addr) [
  | inl e ↦ inr (e, (rw (eb, et, e, ea, el, es) refl))
  | inr (addr, e) ↦ inl (addr, e, (rw (eb, et, e, es) refl))
]
