-- ===== src/Tcp/Write/Claims.antt =====
-- A wrapper leaves the shared queue just when its entity is released.
use gitee_fork_gateway.Prelude.{
  ℕ, ◌≤◌, ◌<◌, ◌≡◌, refl, ap, ◌∙◌, ◌⊎◌, Bool, true, false, none, some, List, [], ◌∷◌, ◌++◌, length,
  take, ltb, arith, Bool-cases, inl, inr,
}
use gitee_fork_gateway.QueueHandle.{QueueHandle}
use gitee_fork_gateway.QueueHandle.Order.{IsOpen, add_data-open, pop_data-open}
use gitee_fork_gateway.FifoQueue.{FifoQueue, single_handle, singel_put, single_get}
use gitee_fork_gateway.Entities.{Store, DataWrapper, slice, release}
use gitee_fork_gateway.Dispatch.{add_to_queue}
use gitee_fork_gateway.Tcp.Write.{Io, Writer, timed_out, settle, write_data_share_pool}
use gitee_fork_gateway.Tcp.Write.Reach.{
  Watched, unwatched, copied, dropped, Delivery, late, absent, no_conn, shut, refused, reached,
  write_data-Delivery,
}

-- No write touches the entities.
pub Watched-store :
    (w : Writer) (d : DataWrapper) (text : List ℕ) (io io' : Io)
    → Watched w d text io io'
    → io'.store ≡ io.store
Watched-store w d text io io' (unwatched e) = refl
Watched-store w d text io io' (copied m e a) = refl
Watched-store w d text io io' (dropped m e a) = refl

pub Delivery-store :
    (w : Writer) (d : DataWrapper) (text : List ℕ) (io io' : Io) (r : Bool)
    → Delivery w d text io r io'
    → io'.store ≡ io.store
Delivery-store w d text io io' r (late t) = refl
Delivery-store w d text io io' r (absent t e) = refl
Delivery-store w d text io io' r (no_conn mp t e) = refl
Delivery-store w d text io io' r (shut con t e c) = refl
Delivery-store w d text io io' r (refused con t e c a) = refl
Delivery-store w d text io io' r (reached con t e c a io2 x) = Watched-store w d text _ io' x

-- A wrapper that is late is done.
Delivery-done :
    (w : Writer) (d : DataWrapper) (text : List ℕ) (io io' : Io) (r : Bool)
    → Delivery w d text io r io'
    → r ≡ false
    → timed_out w d ≡ false
Delivery-done w d text io io' r (late t) e = absurd (ground arith)
Delivery-done w d text io io' r (absent t x) e = t
Delivery-done w d text io io' r (no_conn mp t x) e = t
Delivery-done w d text io io' r (shut con t x c) e = t
Delivery-done w d text io io' r (refused con t x c a) e = t
Delivery-done w d text io io' r (reached con t x c a io2 y) e = t

-- The wrappers in the queue of the shared writers.
abbrev pub shared : FifoQueue DataWrapper → List DataWrapper
shared q = (single_handle q).de_queue

-- The queue after its front is taken.
abbrev rest_of : Writer → FifoQueue DataWrapper → List DataWrapper → FifoQueue DataWrapper
rest_of w q ds = record q {
  single = some (record (single_handle q) { de_queue = ds; last_active_time = w.now });
}

taken :
    (w : Writer) (q : FifoQueue DataWrapper) (d : DataWrapper) (ds : List DataWrapper)
    → IsOpen (single_handle q)
    → shared q ≡ d ∷ ds
    → single_get w.now q ≡ some (some d, rest_of w q ds)
unfolding single_get
taken w q d ds o e = rw (pop_data-open w.now (single_handle q) d ds o e) refl

put_back :
    (others : FifoQueue DataWrapper → FifoQueue DataWrapper) (w : Writer)
    (q : FifoQueue DataWrapper) (d : DataWrapper) (ds : List DataWrapper)
    → IsOpen (single_handle q)
    → 0 < w.write_conrution_size
    → (q' : FifoQueue DataWrapper) × (add_to_queue 2 others w.now w.write_conrution_size
          (rest_of w q ds)
          d.target_con_serial
          d
        ≡ some q')
      × (shared q' ≡ ds ++ (d ∷ []))
      × IsOpen (single_handle q')
unfolding add_to_queue singel_put single_handle
put_back others w q d ds o r =
    let h : QueueHandle DataWrapper = record (single_handle q) {
      de_queue = ds;
      last_active_time = w.now;
    } in
    let a =
      add_data-open w.now h d (record { unlocked = o.unlocked; ready = o.ready; kept = o.kept }) in
    let t : ltb 0 w.write_conrution_size ≡ true = ground arith in
    let h' : QueueHandle DataWrapper = record h {
      de_queue = ds ++ (d ∷ []);
      noti_fy = true;
      last_active_time = w.now;
    } in
    (
      record (rest_of w q ds) { single = some h' },
      (rw (t, a) refl),
      refl,
      record { unlocked = o.unlocked; ready = o.ready; kept = o.kept },
    )

-- What a round of the shared writers does with the front of their queue: it leaves the queue and its
-- entity is released, or it goes to the end of the queue and the entities are as they were.
abbrev pub Settled :
    Writer → DataWrapper → List DataWrapper → Io → Store → Io → FifoQueue DataWrapper → Type 0
Settled w d ds io s' io' q' =
    ((io'.store ≡ s') × (shared q' ≡ ds))
    ⊎ ((io'.store ≡ io.store)
        × (shared q' ≡ ds ++ (d ∷ []))
        × (timed_out w d ≡ false)
        × (w.need_feed_back ≡ true))

settle-Settled :
    (others : FifoQueue DataWrapper → FifoQueue DataWrapper) (w : Writer) (io io1 : Io)
    (q : FifoQueue DataWrapper) (d : DataWrapper) (ds : List DataWrapper) (s' : Store) (bl : Bool)
    → IsOpen (single_handle q)
    → 0 < w.write_conrution_size
    → io1.store ≡ io.store
    → (bl ≡ false → timed_out w d ≡ false)
    → release io.store d.data_store ≡ some s'
    → (io' : Io) × (q' : FifoQueue DataWrapper) × (settle others w d bl io1 (rest_of w q ds)
        ≡ some (io', q'))
      × Settled w d ds io s' io' q'
      × IsOpen (single_handle q')
unfolding settle single_handle put_back
settle-Settled others w io io1 q d ds s' bl o r same t rel =
    let e : release io1.store d.data_store ≡ some s' =
      ap (λ s. release s d.data_store) same ∙ rel in
    let o' : IsOpen (single_handle (rest_of w q ds)) = record {
      unlocked = o.unlocked;
      ready = o.ready;
      kept = o.kept;
    } in
    let (q2, a, b, c) = put_back others w q d ds o r in
    elim (Bool-cases bl) [
      | inl y ↦ (record io1 { store = s' }, rest_of w q ds, (rw (y, e) refl), inl (refl, refl), o')
      | inr y ↦ elim (Bool-cases w.need_feed_back) [
        | inl f ↦ (io1, q2, (rw (y, f, a) refl), inr (same, b, t y, f), c)
        | inr f ↦
            (record io1 { store = s' }, rest_of w q ds, (rw (y, f, e) refl), inl (refl, refl), o')
      ]
    ]

-- On a server that does not encrypt and gives a serial one connection, a round of the shared writers
-- returns, whatever the connection and the monitor do. The wrapper at the front leaves the queue just
-- when its entity is released once; else it is the last of the queue and no entity has changed, which
-- only happens on a server that needs feedback, and before the wrapper is late.
pub write_data_share_pool-Settled :
    (others : FifoQueue DataWrapper → FifoQueue DataWrapper) (w : Writer) (io : Io)
    (q : FifoQueue DataWrapper) (d : DataWrapper) (ds : List DataWrapper) (src : List ℕ) (size : ℕ)
    (s' : Store)
    → w.crypt_inf ≡ none
    → io.conns.tcp_client_cons.allow_dup ≡ false
    → 0 < w.write_conrution_size
    → IsOpen (single_handle q)
    → shared q ≡ d ∷ ds
    → slice io.store d.data_store ≡ some (src, size)
    → d.data_length ≤ length src
    → release io.store d.data_store ≡ some s'
    → (io' : Io) × (q' : FifoQueue DataWrapper) × (write_data_share_pool others w io q
        ≡ some (io', q'))
      × Settled w d ds io s' io' q'
      × IsOpen (single_handle q')
unfolding write_data_share_pool
write_data_share_pool-Settled others w io q d ds src size s' plain single r o front loaded fits
      rel =
    let (bl, io1, e, x) = write_data-Delivery w d io src size plain single loaded fits in
    let (io', q', f, z, o') =
      settle-Settled others w io io1 q d ds s' bl o r
        (Delivery-store w d (take d.data_length src) io io1 bl x)
        (Delivery-done w d (take d.data_length src) io io1 bl x) rel in
    (io', q', (rw (taken w q d ds o front, e) f), z, o')
