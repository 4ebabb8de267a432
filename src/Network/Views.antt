-- ===== src/Network/Views.antt =====
-- The servers behind their pointers, and the list of servers that Dispatch works on.
use gitee_fork_gateway.Prelude.{
  ℕ, ◌≡◌, refl, sym, ap, ◌∙◌, Bool, Option, some, List, [], ◌∷◌, map, String, ◌>>=◌, >>=-some,
  Option-cases, inl, inr,
}
use gitee_fork_gateway.FifoQueue.{FifoQueue}
use gitee_fork_gateway.Entities.{DataWrapper}
use gitee_fork_gateway.Dispatch.{Server, broad_cast_data, activity_loop, serial_activity_map}
use gitee_fork_gateway.SyncMap.{SyncMap}
use gitee_fork_gateway.SyncMap
use gitee_fork_gateway.Network.{Name, Network, get_serial, to_broad_cast}
use gitee_fork_gateway.Network.Data.{
  inbox_of, add_data, broad_cast_loop, serial_is_activity_of, activity_loop_of,
  serial_activity_map_of,
}
use gitee_fork_gateway.Network.Routes.{NotIn, Distinct}
use gitee_fork_gateway.Network.Only.{Only, same_network, add_data-Inbox, add_data-Only}

module _ (others : FifoQueue DataWrapper → FifoQueue DataWrapper) (now : ℕ) where
  loop-Only :
      (n n' : Network) (p : Name) (ps : List Name) (d : DataWrapper)
      → NotIn p ps
      → broad_cast_loop others now n ps d ≡ some n'
      → (inbox_of n' p ≡ inbox_of n p) × ((q : Name) → get_serial n' q ≡ get_serial n q)
  unfolding broad_cast_loop
  loop-Only n n' p [] d a h =
      let e = same_network n n' h in
      (sym (ap (λ k. inbox_of k p) e), λ q. sym (ap (λ k. get_serial k q) e))
  loop-Only n n' p (r ∷ ps) d (ne, a) h =
      let (n1, e, h1) =
        >>=-some (add_data others now n r d) (λ n1. broad_cast_loop others now n1 ps d) n' h in
      let o = add_data-Only others now n n1 r d e in
      let (i, s) = loop-Only n1 n' p ps d a h1 in
      (i ∙ o.rest p (λ q. ne (sym q)), λ q. s q ∙ o.serials q)

  module _ (active : Name → String → Bool) where
    abbrev pub view : Network → Name → Server DataWrapper
    view n q = record {
      serial = get_serial n q;
      serial_is_activity = active q;
      inbox = inbox_of n q;
    }

    -- The servers behind the pointers.
    abbrev pub views : Network → List Name → List (Option (Server DataWrapper))
    views n ps = map (λ q. some (view n q)) ps

    views-Only :
        (n n1 : Network) (p : Name) (ps : List Name)
        → Only n n1 p
        → NotIn p ps
        → views n1 ps ≡ views n ps
    views-Only n n1 p [] o a = refl
    views-Only n n1 p (q ∷ ps) o (ne, a) = λ i.
        some
          (record { serial = o.serials q i; serial_is_activity = active q; inbox = o.rest q ne i })
        ∷ views-Only n n1 p ps o a i

    -- Where the pointers differ, a broadcast over the pointers is the broadcast over the list of the
    -- servers behind them: both return, or neither does, and then the list is that of the servers
    -- behind the pointers afterwards.
    pub broad_cast_data-loop :
        (n : Network) (ps : List Name) (d : DataWrapper)
        → Distinct ps
        → broad_cast_data 2 others now (views n ps) d.target_con_serial d
          ≡ (broad_cast_loop others now n ps d >>= λ n'. some (views n' ps))
    unfolding broad_cast_data broad_cast_loop
    broad_cast_data-loop n [] d dist = refl
    broad_cast_data-loop n (p ∷ ps) d (np, dist) = elim (Option-cases (add_data others now n p d)) [
      | inl e ↦
          (let a = add_data-Inbox others now n p d ∙ ap (λ m. m >>= λ n1. some (inbox_of n1 p)) e in
            rw (a, e) refl)
      | inr (n1, e) ↦
          (let a = add_data-Inbox others now n p d ∙ ap (λ m. m >>= λ n1. some (inbox_of n1 p)) e in
            let o = add_data-Only others now n n1 p d e in
            let vs = views-Only n n1 p ps o np in
            let b =
              ap (λ l. broad_cast_data 2 others now l d.target_con_serial d) (sym vs)
              ∙ broad_cast_data-loop n1 ps d dist in
            elim (Option-cases (broad_cast_loop others now n1 ps d)) [
              | inl f ↦
                  (let b' = b ∙ ap (λ m. m >>= λ n'. some (views n' ps)) f in rw (a, e, b', f) refl)
              | inr (n2, f) ↦
                  (let b' = b ∙ ap (λ m. m >>= λ n'. some (views n' ps)) f in
                    let (i0, s0) = loop-Only n1 n2 p ps d np f in
                    let ks : get_serial n p ≡ get_serial n2 p = sym (s0 p ∙ o.serials p) in
                    let ki : inbox_of n1 p ≡ inbox_of n2 p = sym i0 in
                    rw (a, e, b', f)
                      (λ i. some (
                        some (record { serial = ks i; serial_is_activity = active p; inbox = ki i })
                        ∷ views n2 ps)))
            ])
    ]

  activity_loop-of :
      (n : Network) (vs : List Name) (serial : String) (ret : SyncMap Bool)
      → activity_loop (views (serial_is_activity_of n) n vs) serial ret
        ≡ some (activity_loop_of n vs serial ret)
  unfolding activity_loop activity_loop_of
  activity_loop-of n [] serial ret = refl
  activity_loop-of n (v ∷ vs) serial ret =
      activity_loop-of n vs serial
        (SyncMap.store (get_serial n v) (serial_is_activity_of n v serial) ret)

  -- A server's `SerialActivityMap` over the pointers is the map over the list of the servers behind
  -- them, and does not panic.
  pub serial_activity_map-of :
      (n : Network) (p : Name) (serial : String)
      → serial_activity_map
          (view (serial_is_activity_of n) n p)
          (views (serial_is_activity_of n) n (to_broad_cast n p))
          serial
        ≡ some (serial_activity_map_of n p serial)
  unfolding serial_activity_map serial_activity_map_of
  serial_activity_map-of n p serial =
      activity_loop-of n (to_broad_cast n p) serial
        (SyncMap.store (get_serial n p) (serial_is_activity_of n p serial) [])
