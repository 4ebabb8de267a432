-- ===== src/Tcp/Beat/Due.antt =====
-- Which connections get a heartbeat, and when the next one is due.
use gitee_fork_gateway.Prelude.{
  ℕ, ◌+◌, ◌<◌, ◌≡◌, refl, sym, false, Option, none, some, List, [], ◌∷◌, ◌++◌, String, str_eq, leb,
  if◌then◌else◌, ◌>>=◌, arith, Bool-cases, inl, inr, append-nil, append_assoc,
}
use gitee_fork_gateway.SyncMap.{SyncMap}
use gitee_fork_gateway.SyncMap
use gitee_fork_gateway.NetConMap.{NetConMap, Value, conn, table}
use gitee_fork_gateway.NetConMap
use gitee_fork_gateway.Tcp.{Conns}
use gitee_fork_gateway.Tcp.Beat.{send_beat, beat_loop, beat_round}

-- The time of a serial after a round.
abbrev pub renewed : ℕ → ℕ → ℕ → ℕ
renewed freq now v = if leb (v + freq) now then now else v

-- The connection that a serial has, as a list.
abbrev pub con_of : Option (Value ℕ) → List ℕ → List (ℕ × List ℕ)
con_of none beat = []
con_of (some (conn c)) beat = (c, beat) ∷ []
con_of (some (table mp)) beat = []

-- A heartbeat for the connection of every serial whose last one is `freq` seconds old.
unfoldable pub beats : SyncMap (Value ℕ) → List ℕ → ℕ → ℕ → SyncMap ℕ → List (ℕ × List ℕ)
beats cons beat freq now [] = []
beats cons beat freq now ((k, v) ∷ times) =
    (if leb (v + freq) now then con_of (SyncMap.load k cons) beat else [])
    ++ beats cons beat freq now times

module _ (cons : NetConMap ℕ) (beat : List ℕ) (freq now : ℕ) where
  beat_loop-load :
      (times : SyncMap ℕ) (sent : List (ℕ × List ℕ)) (s : String)
      → SyncMap.load s (beat_loop cons beat freq now times sent).0
        ≡ (do v ← SyncMap.load s times; some (renewed freq now v))
  unfolding beat_loop SyncMap.load
  beat_loop-load [] sent s = refl
  beat_loop-load ((k, v) ∷ times) sent s = elim (Bool-cases (str_eq k s)) [
    | inl e ↦ (rw e refl)
    | inr e ↦
        (rw e (
          beat_loop-load times
            (if leb (v + freq) now then NetConMap.range cons k (send_beat beat) sent else sent) s))
  ]

  send_beat-con_of :
      (k : String) (sent : List (ℕ × List ℕ)) (o : Option (Value ℕ))
      → (elim o [ none ↦ sent | some v ↦ (send_beat beat k v sent).0 ]) ≡ sent ++ con_of o beat
  unfolding send_beat
  send_beat-con_of k sent none = sym (append-nil sent)
  send_beat-con_of k sent (some (conn c)) = refl
  send_beat-con_of k sent (some (table mp)) = sym (append-nil sent)

  range-con_of :
      (k : String) (sent : List (ℕ × List ℕ))
      → cons.allow_dup ≡ false
      → NetConMap.range cons k (send_beat beat) sent
        ≡ sent ++ con_of (SyncMap.load k cons.deque) beat
  unfolding NetConMap.range send_beat
  range-con_of k sent single = rw single (send_beat-con_of k sent (SyncMap.load k cons.deque))

  beat_loop-beats :
      (times : SyncMap ℕ) (sent : List (ℕ × List ℕ))
      → cons.allow_dup ≡ false
      → (beat_loop cons beat freq now times sent).1 ≡ sent ++ beats cons.deque beat freq now times
  unfolding beat_loop beats
  beat_loop-beats [] sent single = sym (append-nil sent)
  beat_loop-beats ((k, v) ∷ times) sent single = elim (Bool-cases (leb (v + freq) now)) [
    | inl e ↦
        (rw
          (
            e,
            range-con_of k sent single,
            beat_loop-beats times (sent ++ con_of (SyncMap.load k cons.deque) beat) single,
            append_assoc sent (con_of (SyncMap.load k cons.deque) beat)
                (beats cons.deque beat freq now times),
          )
          refl)
    | inr e ↦ (rw (e, beat_loop-beats times sent single) refl)
  ]

  -- After a round nothing is due.
  beat_loop-again :
      (times : SyncMap ℕ) (sent sent' : List (ℕ × List ℕ))
      → 0 < freq
      → beat_loop cons beat freq now (beat_loop cons beat freq now times sent).0 sent'
        ≡ ((beat_loop cons beat freq now times sent).0, sent')
  unfolding beat_loop
  beat_loop-again [] sent sent' pos = refl
  beat_loop-again ((k, v) ∷ times) sent sent' pos = elim (Bool-cases (leb (v + freq) now)) [
    | inl e ↦
        let fresh : leb (now + freq) now ≡ false = ground arith in
        let ih = beat_loop-again times (NetConMap.range cons k (send_beat beat) sent) sent' pos in
        (rw (e, fresh, ih) refl)
    | inr e ↦ (rw (e, e, beat_loop-again times sent sent' pos) refl)
  ]

-- In a server where a serial has one connection, a round of the heartbeat's sender hands one heartbeat
-- to the connection of every serial whose last one is `freq` seconds old or older, in the order of the
-- table, and to no other; it renews the time of those serials and of no other, and leaves the
-- connections as they are.
pub beat_round_lem :
    (beat : List ℕ) (freq now : ℕ) (t : Conns) (sent : List (ℕ × List ℕ))
    → t.tcp_client_cons.allow_dup ≡ false
    → (t' : Conns) × (beat_round beat freq now t sent
        ≡ (t', sent ++ beats t.tcp_client_cons.deque beat freq now t.last_beat_send))
      × ((s : String)
          → SyncMap.load s t'.last_beat_send
            ≡ (do v ← SyncMap.load s t.last_beat_send; some (renewed freq now v)))
      × (t'.tcp_client_cons ≡ t.tcp_client_cons)
      × ((c : ℕ) → t'.closed c ≡ t.closed c)
unfolding beat_round
beat_round_lem beat freq now t sent single = (
  record t { last_beat_send = (beat_loop t.tcp_client_cons beat freq now t.last_beat_send sent).0 },
  (rw (beat_loop-beats t.tcp_client_cons beat freq now t.last_beat_send sent single) refl),
  beat_loop-load t.tcp_client_cons beat freq now t.last_beat_send sent,
  refl,
  λ c. refl,
)

-- Where the interval is not zero, a second round within the same second sends nothing and changes
-- nothing.
pub beat_round-again :
    (beat : List ℕ) (freq now : ℕ) (t : Conns) (sent sent' : List (ℕ × List ℕ))
    → 0 < freq
    → beat_round beat freq now (beat_round beat freq now t sent).0 sent'
      ≡ ((beat_round beat freq now t sent).0, sent')
unfolding beat_round
beat_round-again beat freq now t sent sent' pos =
    rw (beat_loop-again t.tcp_client_cons beat freq now t.last_beat_send sent sent' pos) refl
