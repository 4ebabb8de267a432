-- ===== src/Observer/Told.antt =====
-- Which servers get the observer's message.
use gitee_fork_gateway.Prelude.{
  ◌≤◌, ap, ◌∙◌, arith, if◌then◌else◌, ℕ, ◌≡◌, refl, ◌⊎◌, inl, inr, true, false, Option, none, some,
  List, [], ◌∷◌, String, str_eq, Bool-cases,
}
use gitee_fork_gateway.FifoQueue.{FifoQueue}
use gitee_fork_gateway.Entities.{Store, DataWrapper}
use gitee_fork_gateway.Entities.Seen.{IsSound, seen}
use gitee_fork_gateway.Dispatch.{Inbox, Server, Update}
use gitee_fork_gateway.Dispatch.Broadcast.{Accepts, Received, add_data_for_write-Received}
use gitee_fork_gateway.HandOut.{Lines}
use gitee_fork_gateway.Observer.{
  Named, update_bytes, message_for, prepare, notice, tell_gateways, s_new_connect, s_dis_connect,
}
use gitee_fork_gateway.Observer.Laid.{Laid, prepare-Laid}
use gitee_fork_gateway.Observer.Made.{Present, message_for-Present, length-update_bytes}

-- No server is nil, and the gateways can take data at once.
abbrev pub GatewaysAccept : List (Option (Server DataWrapper)) → String → Type 0
GatewaysAccept [] serial = Unit
GatewaysAccept (none ∷ vs) serial = ⊥
GatewaysAccept (some s ∷ vs) serial =
    (str_eq s.serial "GATEWAY" ≡ true → Accepts s.inbox serial) × GatewaysAccept vs serial

GatewaysAccept-Present :
    (vs : List (Option (Server DataWrapper))) (serial : String)
    → GatewaysAccept vs serial
    → Present vs
GatewaysAccept-Present [] serial a = record {}
GatewaysAccept-Present (none ∷ vs) serial a = absurd a
GatewaysAccept-Present (some s ∷ vs) serial (a, rest) = GatewaysAccept-Present vs serial rest

-- Every gateway has received the message once; the others are as they were.
pub data Told (serial : String) (v : DataWrapper)
    : List (Option (Server DataWrapper)) → List (Option (Server DataWrapper)) → Type 0 where
  done : Told serial v [] []
  tells :
      (s : Server DataWrapper) (inbox' : Inbox DataWrapper)
      (vs vs' : List (Option (Server DataWrapper)))
      → str_eq s.serial "GATEWAY" ≡ true
      → Received s.inbox inbox' serial v
      → Told serial v vs vs'
      → Told serial v (some s ∷ vs) (some (record s { inbox = inbox' }) ∷ vs')
  passes :
      (s : Server DataWrapper) (vs vs' : List (Option (Server DataWrapper)))
      → str_eq s.serial "GATEWAY" ≡ false
      → Told serial v vs vs'
      → Told serial v (some s ∷ vs) (some s ∷ vs')

module _ (others : FifoQueue DataWrapper → FifoQueue DataWrapper) (now later : ℕ) where
  tell_gateways-Told :
      (vs : List (Option (Server DataWrapper))) (serial : String) (v : DataWrapper)
      → GatewaysAccept vs serial
      → (vs' : List (Option (Server DataWrapper))) × (tell_gateways others now later vs serial v
          ≡ some vs')
        × Told serial v vs vs'
  unfolding tell_gateways
  tell_gateways-Told [] serial v a = ([], refl, done)
  tell_gateways-Told (none ∷ vs) serial v a = absurd a
  tell_gateways-Told (some s ∷ vs) serial v (a, rest) =
      let (vs', e, t) = tell_gateways-Told vs serial v rest in
      elim (Bool-cases (str_eq s.serial "GATEWAY")) [
        | inl g ↦
            (let (inbox', e0, r) =
                add_data_for_write-Received 1 others now s.inbox serial v (a g) in
              (
                some (record s { inbox = inbox' }) ∷ vs',
                (rw (g, e0, e) refl),
                tells s inbox' vs vs' g r t,
              ))
        | inr g ↦ (some s ∷ vs', (rw (g, e) refl), passes s vs vs' g t)
      ]

  -- What the message has done, from a store and queues: the message is in an entity of its own, all
  -- that was held is as it was, and at the gateway the own queue has the message once and nothing else
  -- has changed, and elsewhere the gateways among the peers have it once.
  abbrev pub Passed : Named → String → ℕ → List ℕ → Lines → Lines → Type 0
  Passed v serial e text l l' =
      ((str_eq v.name "GATEWAY" ≡ true)
        × (inbox' : Inbox DataWrapper) × (l' ≡ record l { inbox = inbox' })
        × Received l.inbox inbox' serial (notice others now later e text serial))
      ⊎ ((str_eq v.name "GATEWAY" ≡ false)
          × (vs : List (Option (Server DataWrapper))) × (l' ≡ record l { to_broad_cast = vs })
          × Told serial (notice others now later e text serial) l.to_broad_cast vs)

  pass_on :
      (tables : String → List (Option (Server DataWrapper))) (v : Named) (serial : String)
      (entity e : ℕ) (s s' : Store) (l : Lines) (text : List ℕ)
      → message_for tables v l serial ≡ some text
      → prepare others now later s entity text ≡ some (e, s')
      → (str_eq v.name "GATEWAY" ≡ true → Accepts l.inbox serial)
      → GatewaysAccept l.to_broad_cast serial
      → (l' : Lines) × (s_new_connect others now later tables v serial entity s l ≡ some (s', l'))
        × Passed v serial e text l l'
  unfolding s_new_connect
  pass_on tables v serial entity e s s' l text em ep accepts gates =
      elim (Bool-cases (str_eq v.name "GATEWAY")) [
        | inl g ↦
            (let (inbox', e0, r) =
                add_data_for_write-Received 1 others now l.inbox serial
                  (notice others now later e text serial) (accepts g) in
              (record l { inbox = inbox' }, (rw (em, ep, g, e0) refl), inl (g, inbox', refl, r)))
        | inr g ↦
            (let (vs, e0, t) =
                tell_gateways-Told l.to_broad_cast serial (notice others now later e text serial)
                  gates in
              (record l { to_broad_cast = vs }, (rw (em, ep, g, e0) refl), inr (g, vs, refl, t)))
      ]

  s_dis_connect_lem :
      (tables : String → List (Option (Server DataWrapper))) (v : Named) (serial : String)
      (entity : ℕ) (s : Store) (l : Lines)
      → s_dis_connect others now later tables v serial entity s l ≡ (
          if str_eq v.name "GATEWAY"
          then some (s, l)
          else s_new_connect others now later tables v serial entity s l)
  unfolding s_dis_connect
  s_dis_connect_lem tables v serial entity s l = ground arith

  -- Where no server is nil, neither among the server's peers nor in a table, the pool is sound, the
  -- connection's entity has a piece of 33 bytes at least, and the gateways, the server itself or its
  -- peers, can take data at once: the observer of a new connection returns, with a message in
  -- an entity of its own, with a count of 1, the pool sound, and all that was held as it was. On the
  -- gateway's server its own queue has the message once, and nothing else has changed. On another
  -- server the gateways among its peers have it once, and no other queue has changed; with no gateway
  -- there, nobody has it. A connection that leaves the gateway's server changes nothing; one that
  -- leaves another server does what one that comes does.
  pub s_new_connect-Told :
      (tables : String → List (Option (Server DataWrapper))) (v : Named) (serial : String)
      (entity piece : ℕ) (s : Store) (l : Lines) (src : List ℕ)
      → ((name : String) → Present (tables name))
      → IsSound s
      → seen s entity ≡ some (src, piece)
      → 33 ≤ piece
      → (str_eq v.name "GATEWAY" ≡ true → Accepts l.inbox serial)
      → GatewaysAccept l.to_broad_cast serial
      → (u : Update) × (e : ℕ) × (s' : Store) × (l' : Lines) × (message_for tables v l serial
          ≡ some (update_bytes u))
        × (s_new_connect others now later tables v serial entity s l ≡ some (s', l'))
        × Laid s s' e (update_bytes u)
        × Passed v serial e (update_bytes u) l l'
        × (s_dis_connect others now later tables v serial entity s l
            ≡ (if str_eq v.name "GATEWAY" then some (s, l) else some (s', l')))
  s_new_connect-Told tables v serial entity piece s l src linked sound there room accepts gates =
      let (u, em) =
        message_for-Present tables linked serial v l
          (GatewaysAccept-Present l.to_broad_cast serial gates) in
      let len = length-update_bytes u in
      let (e, s', ep, laid) =
        prepare-Laid others now later s entity piece src (update_bytes u) sound there
          (omega (arith, len)) in
      let (l', en, passed) =
        pass_on tables v serial entity e s s' l (update_bytes u) em ep accepts gates in
      (
        u,
        e,
        s',
        l',
        em,
        en,
        laid,
        passed,
        s_dis_connect_lem tables v serial entity s l
            ∙ ap (λ x. if str_eq v.name "GATEWAY" then some (s, l) else x) en,
      )
