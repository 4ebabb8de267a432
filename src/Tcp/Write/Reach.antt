-- ===== src/Tcp/Write/Reach.antt =====
-- Whom `writeData` reaches, on a server that does not encrypt and gives a serial one connection.
use gitee_fork_gateway.Prelude.{
  ℕ, ◌≤◌, ◌≡◌, refl, ◌∙◌, Bool, true, false, not, Option, none, some, List, [], ◌∷◌, ◌++◌, length,
  take, if◌then◌else◌, ◌>>=◌, arith, Bool-cases, Option-cases, inl, inr,
}
use gitee_fork_gateway.SyncMap
use gitee_fork_gateway.NetConMap.{Value, conn, table}
use gitee_fork_gateway.NetConMap
use gitee_fork_gateway.Bytes.{prefix}
use gitee_fork_gateway.Entities.{DataWrapper, slice}
use gitee_fork_gateway.Tcp.{close, remove_montitor}
use gitee_fork_gateway.Tcp.Write.{
  Io, Writer, write_con, send_data, send_monitor, timed_out, visit_con, write_data,
}

-- `text` is sent over a connection.
abbrev pub logged : Io → ℕ → List ℕ → Io
logged io con text = record io { sent = io.sent ++ ((con, text) ∷ []) }

-- What happens at the monitor of the serial: there is none, it takes the text, or it is removed.
pub data Watched (w : Writer) (d : DataWrapper) (text : List ℕ) (io : Io) : Io → Type 0 where
  unwatched : SyncMap.load d.target_con_serial io.conns.monitor_cons ≡ none → Watched w d text io io
  copied :
      (m : ℕ)
      → SyncMap.load d.target_con_serial io.conns.monitor_cons ≡ some m
      → w.accepts m text ≡ true
      → Watched w d text io (logged io m text)
  dropped :
      (m : ℕ)
      → SyncMap.load d.target_con_serial io.conns.monitor_cons ≡ some m
      → w.accepts m text ≡ false
      → Watched w d text io (record io { conns = remove_montitor io.conns d.target_con_serial })

-- The ways in which a write ends, with its answer.
pub data Delivery (w : Writer) (d : DataWrapper) (text : List ℕ) (io : Io)
    : Bool → Io → Type 0 where
  late : timed_out w d ≡ true → Delivery w d text io true io
  absent :
      timed_out w d ≡ false
      → SyncMap.load d.target_con_serial io.conns.tcp_client_cons.deque ≡ none
      → Delivery w d text io false io
  no_conn :
      (mp : SyncMap.SyncMap ℕ)
      → timed_out w d ≡ false
      → SyncMap.load d.target_con_serial io.conns.tcp_client_cons.deque ≡ some (table mp)
      → Delivery w d text io false io
  shut :
      (con : ℕ)
      → timed_out w d ≡ false
      → SyncMap.load d.target_con_serial io.conns.tcp_client_cons.deque ≡ some (conn con)
      → io.conns.closed con ≡ true
      → Delivery w d text io false io
  refused :
      (con : ℕ)
      → timed_out w d ≡ false
      → SyncMap.load d.target_con_serial io.conns.tcp_client_cons.deque ≡ some (conn con)
      → io.conns.closed con ≡ false
      → w.accepts con text ≡ false
      → Delivery w d text io false (record io { conns = close io.conns con })
  reached :
      (con : ℕ)
      → timed_out w d ≡ false
      → SyncMap.load d.target_con_serial io.conns.tcp_client_cons.deque ≡ some (conn con)
      → io.conns.closed con ≡ false
      → w.accepts con text ≡ true
      → (io' : Io) → Watched w d text (logged io con text) io'
      → Delivery w d text io true io'

module _ (w : Writer) (d : DataWrapper) (io : Io) (src : List ℕ) (size : ℕ)
    (plain : w.crypt_inf ≡ none) (loaded : slice io.store d.data_store ≡ some (src, size))
    (fits : d.data_length ≤ length src) where
  abbrev text : List ℕ
  text = take d.data_length src

  pub prefix_fits : prefix src d.data_length ≡ some text
  unfolding prefix
  prefix_fits = ground arith

  pub send_data_plain :
      (con : ℕ)
      → send_data w io d con
        ≡ some (
          (w.accepts con text, not (w.accepts con text)),
          if w.accepts con text
              then logged io con text
              else record io { conns = close io.conns con },
        )
  unfolding send_data write_con
  send_data_plain con = elim (Bool-cases (w.accepts con text)) [
    | inl e ↦ (rw (plain, loaded, prefix_fits, e) refl)
    | inr e ↦ (rw (plain, loaded, prefix_fits, e) refl)
  ]

  pub send_monitor-Watched :
      (io1 : Io)
      → slice io1.store d.data_store ≡ some (src, size)
      → (io2 : Io) × (send_monitor w io1 d ≡ some io2) × Watched w d text io1 io2
  unfolding send_monitor
  send_monitor-Watched io1 l =
      elim (Option-cases (SyncMap.load d.target_con_serial io1.conns.monitor_cons)) [
        | inl e ↦ (io1, (rw (e, send_monitor) refl), unwatched e)
        | inr (m, e) ↦ elim (Bool-cases (w.accepts m text)) [
          | inl a ↦
              (logged io1 m text, (rw (e, l, prefix_fits, a, send_monitor) refl), copied m e a)
          | inr a ↦ (
            record io1 { conns = remove_montitor io1.conns d.target_con_serial },
            (rw (e, l, prefix_fits, a, send_monitor) refl),
            dropped m e a,
          )
        ]
      ]

  -- What the visitor makes of the connection of the serial.
  visited : Option (Value ℕ) → Option (Bool × Io)
  visited none = some (false, io)
  visited (some v) = (visit_con w d d.target_con_serial v (some (false, io))).0

  range_single :
      (found : Option (Value ℕ))
      → io.conns.tcp_client_cons.allow_dup ≡ false
      → SyncMap.load d.target_con_serial io.conns.tcp_client_cons.deque ≡ found
      → NetConMap.range io.conns.tcp_client_cons d.target_con_serial
          (visit_con w d)
          (some (false, io))
        ≡ visited found
  unfolding NetConMap.range visited
  range_single none single e = ground arith
  range_single (some v) single e = ground arith

  -- The rest of `writeData`, from the answer of the visitor.
  after_visit :
      (r : Bool) (io1 : Io)
      → timed_out w d ≡ false
      → NetConMap.range io.conns.tcp_client_cons d.target_con_serial
          (visit_con w d)
          (some (false, io))
        ≡ some (r, io1)
      → write_data w io d
        ≡ (if r then (send_monitor w io1 d >>= λ io2. some (true, io2)) else some (false, io1))
  unfolding write_data
  after_visit true io1 t e = rw (t, loaded, prefix_fits, e) refl
  after_visit false io1 t e = rw (t, loaded, prefix_fits, e) refl

  write_data_found :
      (found : Option (Value ℕ))
      → io.conns.tcp_client_cons.allow_dup ≡ false
      → SyncMap.load d.target_con_serial io.conns.tcp_client_cons.deque ≡ found
      → timed_out w d ≡ false
      → (r : Bool) × (io' : Io) × (write_data w io d ≡ some (r, io')) × Delivery w d text io r io'
  unfolding visited visit_con
  write_data_found none single e t =
      (false, io, after_visit false io t (range_single none single e), absent t e)
  write_data_found (some (table mp)) single e t =
      (false, io, after_visit false io t (range_single (some (table mp)) single e), no_conn mp t e)
  write_data_found (some (conn con)) single e t = elim (Bool-cases (io.conns.closed con)) [
    | inl c ↦ (
      false,
      io,
      after_visit false io t (range_single (some (conn con)) single e ∙ (rw c refl)),
      shut con t e c,
    )
    | inr c ↦ elim (Bool-cases (w.accepts con text)) [
      | inl a ↦
          (let l = logged io con text in
            let (io2, m, watched) = send_monitor-Watched l loaded in
            (
              true,
              io2,
              after_visit true l t (
                    range_single (some (conn con)) single e ∙ (rw (c, send_data_plain con, a) refl))
                  ∙ (rw m refl),
              reached con t e c a io2 watched,
            ))
      | inr a ↦
          (let l : Io = record io { conns = close io.conns con } in
            (
              false,
              l,
              after_visit false l t
                  (range_single (some (conn con)) single e ∙ (rw (c, send_data_plain con, a) refl)),
              refused con t e c a,
            ))
    ]
  ]

-- Without encryption and duplicates, a write of a wrapper whose bytes there are returns, and ends in
-- one of these ways: it is late, and counts as done; the serial has no connection, or a closed one;
-- the connection refuses the bytes, and is closed; or it takes them, and the monitor of the serial
-- gets a copy, or is removed if it refuses it.
pub write_data-Delivery :
    (w : Writer) (d : DataWrapper) (io : Io) (src : List ℕ) (size : ℕ)
    → w.crypt_inf ≡ none
    → io.conns.tcp_client_cons.allow_dup ≡ false
    → slice io.store d.data_store ≡ some (src, size)
    → d.data_length ≤ length src
    → (r : Bool) × (io' : Io) × (write_data w io d ≡ some (r, io'))
      × Delivery w d (take d.data_length src) io r io'
unfolding write_data
write_data-Delivery w d io src size plain single loaded fits = elim (Bool-cases (timed_out w d)) [
  | inl t ↦ (true, io, (rw t refl), late t)
  | inr t ↦
      write_data_found w d io src size plain loaded fits
        (SyncMap.load d.target_con_serial io.conns.tcp_client_cons.deque) single refl t
]
