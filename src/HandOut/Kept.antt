-- ===== src/HandOut/Kept.antt =====
-- Where the two entities of a packet go.
use gitee_fork_gateway.Prelude.{
  ℕ, zero, suc, ◌<◌, ◌≡◌, refl, ◌⊎◌, inl, inr, true, Option, some, String, ltb, arith,
}
use gitee_fork_gateway.FifoQueue.{FifoQueue}
use gitee_fork_gateway.Entities.{Store, DataWrapper, free}
use gitee_fork_gateway.Dispatch.Broadcast.{AllAccept, AllReceived, broad_cast_data-AllReceived}
use gitee_fork_gateway.HandOut.{Lines, hand_others}

abbrev pub message : ℕ → ℕ → ℕ → String → Option String → DataWrapper
message now tocast c_size serial0 udp_addr = record {
  data_store = tocast;
  data_length = c_size;
  target_con_serial = serial0;
  udp_addr = udp_addr;
  self_id = "";
  create_unix_sec = now;
}

-- Where the servers can take data at once, the message for the others is handed out: without bytes
-- its entity is freed and no queue changes; with bytes the entity is left alone, and every server that
-- is there has one wrapper of it at the end of its queue.
pub hand_others_lem :
    (others : FifoQueue DataWrapper → FifoQueue DataWrapper) (now : ℕ) (l : Lines) (s s' : Store)
    (tocast c_size : ℕ) (serial0 : String) (udp_addr : Option String)
    → AllAccept l.to_broad_cast serial0
    → free s tocast ≡ some s'
    → ((c_size ≡ 0) × (hand_others others now l s tocast c_size serial0 udp_addr ≡ some (l, s')))
      ⊎ ((0 < c_size)
          × (l' : Lines) × (hand_others others now l s tocast c_size serial0 udp_addr
              ≡ some (l', s))
          × (l'.inbox ≡ l.inbox)
          × AllReceived serial0
              (message now tocast c_size serial0 udp_addr)
              l.to_broad_cast
              l'.to_broad_cast)
unfolding hand_others
hand_others_lem others now l s s' tocast zero serial0 udp_addr a f = inl (refl, (rw f refl))
hand_others_lem others now l s s' tocast (suc n) serial0 udp_addr a f =
    let (objs, e, r) =
      broad_cast_data-AllReceived 1 others now l.to_broad_cast serial0
        (message now tocast (suc n) serial0 udp_addr) a in
    let t : ltb 0 (suc n) ≡ true = ground arith in
    inr (omega arith, record l { to_broad_cast = objs }, (rw (t, e) refl), refl, r)
