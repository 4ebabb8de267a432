-- ===== src/Tcp/Write/Sent.antt =====
-- A round of `writeDataEachConRoutine` whose connection takes the bytes, on a server that does not
-- encrypt.
use gitee_fork_gateway.Prelude.{
  ℕ, ◌≤◌, ◌<◌, ◌≡◌, refl, ap, ◌∙◌, true, false, none, some, List, String, length, take, ltb, arith,
}
use gitee_fork_gateway.FifoQueue.{FifoQueue, get}
use gitee_fork_gateway.Entities.{Store, DataWrapper, slice, release}
use gitee_fork_gateway.Tcp.Write.{
  Io, Writer, timed_out, settle, send_data, write_datato_con, write_data_each_con_routine,
}
use gitee_fork_gateway.Tcp.Write.Reach.{
  logged, Watched, prefix_fits, send_data_plain, send_monitor-Watched,
}
use gitee_fork_gateway.Tcp.Write.Claims.{Watched-store}

settle-released :
    (others : FifoQueue DataWrapper → FifoQueue DataWrapper) (w : Writer) (d : DataWrapper)
    (io : Io) (q : FifoQueue DataWrapper) (s' : Store)
    → release io.store d.data_store ≡ some s'
    → settle others w d true io q ≡ some (record io { store = s' }, q)
unfolding settle
settle-released others w d io q s' r = rw r refl

module _ (w : Writer) (d : DataWrapper) (io : Io) (src : List ℕ) (size con : ℕ)
    (plain : w.crypt_inf ≡ none) (loaded : slice io.store d.data_store ≡ some (src, size))
    (fits : d.data_length ≤ length src) (in_time : timed_out w d ≡ false)
    (takes : w.accepts con (take d.data_length src) ≡ true) where
  send_data-Sent :
      send_data w io d con ≡ some ((true, false), logged io con (take d.data_length src))
  send_data-Sent = send_data_plain w d io src size plain loaded fits con ∙ (rw takes refl)

  write_datato_con-Sent :
      (io2 : Io) × (write_datato_con w io d con ≡ some ((true, false), io2))
      × Watched w d (take d.data_length src) (logged io con (take d.data_length src)) io2
  unfolding write_datato_con
  write_datato_con-Sent =
      let (io2, m, watched) =
        send_monitor-Watched w d io src size plain loaded fits
          (logged io con (take d.data_length src)) loaded in
      (
        io2,
        (rw (in_time, loaded, prefix_fits w d io src size plain loaded fits, send_data-Sent, m)
            refl),
        watched,
      )

  -- The connection has the bytes, the monitor has been served, and the entity is released once.
  pub each_con_round-Sent :
      (others : FifoQueue DataWrapper → FifoQueue DataWrapper) (serial : String)
      (q q1 : FifoQueue DataWrapper) (s' : Store)
      → io.conns.closed con ≡ false
      → get w.now q serial ≡ some (some d, q1)
      → 0 < d.data_length
      → release io.store d.data_store ≡ some s'
      → (io2 : Io) × (write_data_each_con_routine others w serial con io q
          ≡ some (true, record io2 { store = s' }, q1))
        × Watched w d (take d.data_length src) (logged io con (take d.data_length src)) io2
  unfolding write_data_each_con_routine
  each_con_round-Sent others serial q q1 s' c g pos r =
      let (io2, e, watched) = write_datato_con-Sent in
      let same =
        Watched-store w d (take d.data_length src) (logged io con (take d.data_length src)) io2
          watched in
      let r' : release io2.store d.data_store ≡ some s' =
        ap (λ s. release s d.data_store) same ∙ r in
      let t : ltb d.data_length 1 ≡ false = ground arith in
      (io2, (rw (c, g, t, e, settle-released others w d io2 q1 s' r') refl), watched)
