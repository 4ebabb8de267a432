-- ===== src/Tcp/Come/Routes.antt =====
-- Where a new connection ends up.
use gitee_fork_gateway.Prelude.{
  List, ap, ◌>>=◌, ◌∙◌, ◌≢◌, arith, Option-cases, ℕ, ◌≡◌, refl, ◌⊎◌, inl, inr, Bool, true, false,
  ◌||◌, ◌&&◌, ◌==◌, Option, none, some, [], ◌∷◌, ◌++◌, String, ltb, if◌then◌else◌, Bool-cases,
}
use gitee_fork_gateway.SyncMap
use gitee_fork_gateway.NetConMap.{NetConMap, Value, conn}
use gitee_fork_gateway.NetConMap.View.{alone}
use gitee_fork_gateway.Entities.{Store}
use gitee_fork_gateway.HandOut.{Lines}
use gitee_fork_gateway.Tcp.{Conns, close, add_montitor, add_tcp_conn}
use gitee_fork_gateway.Tcp.Kick.{
  Monitors, add_montitor-Monitors, registered, Became, add_tcp_conn_free, add_tcp_conn_taken,
}
use gitee_fork_gateway.Tcp.Come.{Hall, Doorman, asks, observe, admit, new_come}

-- What the observer of connections makes of the pool and the queues for a serial.
abbrev pub answer_of : Doorman → String → Store → Lines → Option (Store × Lines)
answer_of d serial s l = elim d.observer [
  | none ↦ some (s, l)
  | some s_new_connect ↦ s_new_connect serial s l
]

-- The requests of the HTTP service after those before.
abbrev pub asked_of : Doorman → String → List String → List String
asked_of d serial asked = elim d.observer [
  | none ↦ asked
  | some s_new_connect ↦ asks asked (d.h_new_connect serial)
]

observe_answers :
    (d : Doorman) (serial : String) (h : Hall)
    → observe d serial h ≡ (
        answer_of d serial h.store h.lines >>= λ y.
        some (record h { store = y.0; lines = y.1; asked = asked_of d serial h.asked }))
unfolding observe
observe_answers d serial h = elim (Option-cases d.observer) [
  | inl o ↦ (rw (o, answer_of, asked_of) refl)
  | inr (s_new_connect, o) ↦ (rw (o, answer_of, asked_of) refl)
]

observe-answer :
    (d : Doorman) (serial : String) (h : Hall) (s' : Store) (l' : Lines)
    → answer_of d serial h.store h.lines ≡ some (s', l')
    → observe d serial h
      ≡ some (record h { store = s'; lines = l'; asked = asked_of d serial h.asked })
observe-answer d serial h s' l' e =
    observe_answers d serial h
    ∙ ap
        (λ x. x >>= λ y.
          some (record h { store = y.0; lines = y.1; asked = asked_of d serial h.asked }))
        e

-- What the serial has before and after, by the connection that had it.
unfoldable pub entry_of : Option ℕ → Option (Value ℕ)
entry_of none = none
entry_of (some old) = some (conn old)

unfoldable pub entry_after : Option ℕ → ℕ → Option (Value ℕ)
entry_after none con = some (conn con)
entry_after (some old) con = none

unfoldable pub shut_by : Option ℕ → ℕ → ℕ → Bool
shut_by none con c = false
shut_by (some old) con c = c == con || c == old

added :
    (remote_addr : ℕ → String) (others : NetConMap ℕ → NetConMap ℕ) (now : ℕ) (serial : String)
    (con : ℕ) (t : Conns) (had : Option ℕ)
    → others ≡ alone
    → t.tcp_client_cons.allow_dup ≡ false
    → registered t serial ≡ entry_of had
    → (t' : Conns) × (add_tcp_conn remote_addr others now t serial con ≡ some t')
      × Became t t' serial (entry_after had con) (shut_by had con)
unfolding entry_of entry_after shut_by
added remote_addr others now serial con t none still single e =
    rw still (add_tcp_conn_free remote_addr now t serial con single e)
added remote_addr others now serial con t (some old) still single e =
    rw still (add_tcp_conn_taken remote_addr now t serial con single old e)

-- What a device that is admitted leaves: the tables, the routines that are started, and what the
-- observer has made of the rest.
pub record Admitted (d : Doorman) (serial : String) (con : ℕ) (had : Option ℕ) (s' : Store)
    (l' : Lines) (h h' : Hall) : Type 0 where
  pub tables : Became h.conns h'.conns serial (entry_after had con) (shut_by had con)
  pub store : h'.store ≡ s'
  pub lines : h'.lines ≡ l'
  pub requests : h'.asked ≡ asked_of d serial h.asked
  pub reads : h'.reading ≡ h.reading ++ ((con, serial) ∷ [])
  pub writes :
      h'.writing
      ≡ (if ltb d.write_conrution_size 1 then h.writing ++ ((serial, con) ∷ []) else h.writing)

admit-Admitted :
    (d : Doorman) (serial : String) (con : ℕ) (h : Hall) (had : Option ℕ) (s' : Store) (l' : Lines)
    → d.others_map ≡ alone
    → h.conns.tcp_client_cons.allow_dup ≡ false
    → registered h.conns serial ≡ entry_of had
    → answer_of d serial h.store h.lines ≡ some (s', l')
    → (h' : Hall) × (admit d serial con h ≡ some h') × Admitted d serial con had s' l' h h'
unfolding admit
admit-Admitted d serial con h had s' l' still single e answer =
    let (conns', e1, b) =
      added d.remote_addr d.others_map d.now serial con h.conns had still single e in
    let e2 = observe-answer d serial (record h { conns = conns' }) s' l' answer in
    let reading' = h.reading ++ ((con, serial) ∷ []) in
    elim (Bool-cases (ltb d.write_conrution_size 1)) [
      | inl own ↦ (
        record {
          conns = conns';
          store = s';
          lines = l';
          reading = reading';
          writing = h.writing ++ ((serial, con) ∷ []);
          asked = asked_of d serial h.asked;
        },
        (rw (e1, e2, own) refl),
        record {
          tables = b;
          store = refl;
          lines = refl;
          requests = refl;
          reads = refl;
          writes = rw own refl;
        },
      )
      | inr shared ↦ (
        record {
          conns = conns';
          store = s';
          lines = l';
          reading = reading';
          writing = h.writing;
          asked = asked_of d serial h.asked;
        },
        (rw (e1, e2, shared) refl),
        record {
          tables = b;
          store = refl;
          lines = refl;
          requests = refl;
          reads = refl;
          writes = rw shared refl;
        },
      )
    ]

-- Where a monitor ends up: registered if the serial has none, and closed together with the one it has.
abbrev pub Watched : Conns → Conns → String → ℕ → Type 0
Watched t t' serial con =
    ((SyncMap.load serial t.monitor_cons ≡ none) × Monitors t t' serial (some con) (λ c. false))
    ⊎ ((old : ℕ) × (SyncMap.load serial t.monitor_cons ≡ some old)
        × Monitors t t' serial none (λ c. c == con || c == old))

-- A server where a serial has one connection (`had` before), and where no other goroutine is at its
-- table; the observer, if there is one, answers for this serial with the pool and the queues it
-- leaves. Whatever its kind, a new connection that is refused, or that cannot be greeted, is closed
-- and nothing else changes. A monitor is registered as one, or closed with the serial's earlier
-- monitor, and no routine is started. A device is registered where its serial is free; where another
-- connection has the serial, both are closed and the serial is free. For a device the HTTP service is asked what the
-- observer asks, the pool and the queues are as the observer leaves them, a read routine is started for it, and a write routine where
-- each connection has its own.
pub new_come-Became :
    (d : Doorman) (con : ℕ) (ok greeted : Bool) (serial : String) (tp : ℕ) (h : Hall)
    (had : Option ℕ) (s' : Store) (l' : Lines)
    → d.others_map ≡ alone
    → h.conns.tcp_client_cons.allow_dup ≡ false
    → registered h.conns serial ≡ entry_of had
    → answer_of d serial h.store h.lines ≡ some (s', l')
    → (((ok && greeted) ≡ false)
        × (new_come d con ok serial tp greeted h ≡ some (record h { conns = close h.conns con })))
      ⊎ (((ok && greeted) ≡ true)
          × (tp ≡ 1)
          × (t' : Conns) × (new_come d con ok serial tp greeted h ≡ some (record h { conns = t' }))
          × Watched h.conns t' serial con)
      ⊎ (((ok && greeted) ≡ true)
          × (tp ≢ 1)
          × (h' : Hall) × (new_come d con ok serial tp greeted h ≡ some h')
          × Admitted d serial con had s' l' h h')
unfolding new_come
new_come-Became d con false greeted serial tp h had s' l' still single e answer = inl (refl, refl)
new_come-Became d con true false serial tp h had s' l' still single e answer = inl (refl, refl)
new_come-Became d con true true serial tp h had s' l' still single e answer =
    elim (Bool-cases (tp == 1)) [
      | inl monitor ↦ inr (
          inl (
            refl,
            ground arith,
            add_montitor h.conns serial con,
            (rw monitor refl),
            add_montitor-Monitors h.conns serial con,
          ))
      | inr device ↦
          (let (h', e1, a) = admit-Admitted d serial con h had s' l' still single e answer in
            inr (inr (refl, (λ one. ground arith), h', (rw (device, e1) refl), a)))
    ]
