-- ===== src/HandOut.antt =====
-- What each read loop does with a packet once it is parsed: new/server_tcp.go, `createReadroutine`,
-- new/server_udp.go, `readUdpData`, and new/server_websocket.go, `WebSockHandle`. The answer for the
-- sender goes to the server's own queue and the message for the others to theirs; an entity that
-- carries nothing is freed. `none` is a panic or a call that waits for ever.
pub mod Forward
pub mod Kept
use gitee_fork_gateway.Prelude.{
  ℕ, Bool, Option, none, some, List, String, length, ltb, if◌then◌else◌, ◌>>=◌,
}
use gitee_fork_gateway.FifoQueue.{FifoQueue}
use gitee_fork_gateway.Entities.{Store, DataWrapper, acquire, free}
use gitee_fork_gateway.Dispatch.{Inbox, Server, add_data_for_write, broad_cast_data}

-- The server's own queue, and the servers that it broadcasts to.
pub record Lines : Type 0 where
  pub inbox : Inbox DataWrapper
  pub to_broad_cast : List (Option (Server DataWrapper))

-- What `Parser` answers: `s_size`, `c_size`, the serial and whether there was a heartbeat; and the
-- length that is left in the source buffer.
pub record Answer : Type 0 where
  pub s_size : ℕ
  pub c_size : ℕ
  pub serial : String
  pub beat : Bool
  pub src_len : ℕ

-- The interface `PackageParseImpl`: the source buffer, the two entities to fill, and the length.
abbrev pub Parser : Type 0
Parser = Store → ℕ → ℕ → ℕ → ℕ → Option (Answer × Store)

-- `others`, `now` and the fuel are those of `AddDataForWrite`.
module _ (others : FifoQueue DataWrapper → FifoQueue DataWrapper) (now : ℕ) where
  -- `s_size > 0`.
  unfoldable pub hand_self :
      Lines → Store → ℕ → ℕ → String → String → Option String → Option (Lines × Store)
  hand_self l s toself s_size serial self_id udp_addr =
      let wrapper : DataWrapper = record {
        data_store = toself;
        data_length = s_size;
        target_con_serial = serial;
        udp_addr = udp_addr;
        self_id = self_id;
        create_unix_sec = now;
      } in
      let queued = (do
        inbox' ← add_data_for_write 2 others now l.inbox serial wrapper
        some (record l { inbox = inbox' }, s)) in
      let freed = (do s' ← free s toself; some (l, s')) in if ltb 0 s_size then queued else freed

  -- `c_size > 0`.
  unfoldable pub hand_others :
      Lines → Store → ℕ → ℕ → String → Option String → Option (Lines × Store)
  hand_others l s tocast c_size serial0 udp_addr =
      let wrapper : DataWrapper = record {
        data_store = tocast;
        data_length = c_size;
        target_con_serial = serial0;
        udp_addr = udp_addr;
        self_id = "";
        create_unix_sec = now;
      } in
      let queued = (do
        objs ← broad_cast_data 2 others now l.to_broad_cast serial0 wrapper
        some (record l { to_broad_cast = objs }, s)) in
      let freed = (do s' ← free s tocast; some (l, s')) in if ltb 0 c_size then queued else freed

  -- From the acquisition of the two entities to the end of the round. `serial` is the connection's;
  -- `later` is a second reading of the clock.
  unfoldable pub hand_out :
      Parser
      → ℕ
      → Lines
      → Store
      → ℕ
      → ℕ
      → String
      → String
      → Option String
      → Option (Answer × Lines × Store)
  unfolding hand_self hand_others
  hand_out parser later l s src src_len serial self_id udp_addr = do
    (toself, s1) ← acquire s 1 1024 now later
    (tocast, s2) ← acquire s1 (length l.to_broad_cast) 1024 now later
    (a, s3) ← parser s2 src toself tocast src_len
    (l1, s4) ← hand_self l s3 toself a.s_size serial self_id udp_addr
    (l2, s5) ← hand_others l1 s4 tocast a.c_size a.serial udp_addr
    some (a, l2, s5)
