-- ===== src/Network/Told.antt =====
-- The observer of `main`: what `SNewConnect` does on the servers as they are set up.
use gitee_fork_gateway.Prelude.{
  ℕ, ◌≤◌, ◌≡◌, refl, ◌≢◌, Bool, ◌||◌, some, List, [], ◌∷◌, String, arith,
}
use gitee_fork_gateway.Configure.{Configure}
use gitee_fork_gateway.Parser.Pooled.{Unmarshal}
use gitee_fork_gateway.Entities.{Store, DataWrapper}
use gitee_fork_gateway.Entities.Seen.{IsSound, seen}
use gitee_fork_gateway.Dispatch.{Inbox, add_data_for_write}
use gitee_fork_gateway.Dispatch.Broadcast.{Accepts, Received, add_data_for_write-Received}
use gitee_fork_gateway.HandOut.{Lines}
use gitee_fork_gateway.Observer.{notice, message_for, prepare, tell_gateways, s_new_connect}
use gitee_fork_gateway.Observer.Laid.{Laid, prepare-Laid}
use gitee_fork_gateway.Observer.Made.{length-update_bytes}
use gitee_fork_gateway.Network.Impl.{Surroundings}
use gitee_fork_gateway.Network.{
  Name, Network, weixin, gate_way, web, app, web_socket, main, get_serial, to_broad_cast,
}
use gitee_fork_gateway.Network.Modes.{
  server_at, line_at, named, tables, network, mode, text_for, message_for-mode,
}

module _ (x : Surroundings) (unmarshal : Unmarshal) (alive : List ℕ) (cfg : Configure)
    (active : Name → String → Bool) (inboxes : Name → Inbox DataWrapper) where
  abbrev net : Network
  net = network x unmarshal alive cfg

  -- The queues of a server, with what the gateway's server has.
  abbrev pub with_gateway : Name → Inbox DataWrapper → Lines
  with_gateway gate_way inbox' = record (line_at net active inboxes gate_way) { inbox = inbox' }
  with_gateway p inbox' = record (line_at net active inboxes p) {
    to_broad_cast = some (record (server_at net active inboxes gate_way) { inbox = inbox' }) ∷ [];
  }

  told_from :
      (p : Name) (serial : String) (entity e : ℕ) (s s' : Store) (text : List ℕ)
      (inbox' : Inbox DataWrapper)
      → p ≢ weixin
      → message_for
          (tables net active inboxes)
          (named net active inboxes p)
          (line_at net active inboxes p)
          serial
        ≡ some text
      → prepare x.others x.now x.later s entity text ≡ some (e, s')
      → add_data_for_write 2 x.others x.now
          (inboxes gate_way)
          serial
          (notice x.others x.now x.later e text serial)
        ≡ some inbox'
      → s_new_connect x.others x.now x.later
          (tables net active inboxes)
          (named net active inboxes p)
          serial
          entity
          s
          (line_at net active inboxes p)
        ≡ some (s', with_gateway p inbox')
  unfolding s_new_connect tell_gateways main get_serial to_broad_cast
  told_from weixin serial entity e s s' text inbox' ne m pr a = absurd (ne refl)
  told_from gate_way serial entity e s s' text inbox' ne m pr a = rw (m, pr, a) refl
  told_from web serial entity e s s' text inbox' ne m pr a = rw (m, pr, a) refl
  told_from app serial entity e s s' text inbox' ne m pr a = rw (m, pr, a) refl
  told_from web_socket serial entity e s s' text inbox' ne m pr a = rw (m, pr, a) refl

  -- The text for the device, from the servers' tables.
  abbrev pub said : String → List ℕ
  said = text_for x unmarshal alive cfg active inboxes

  -- A TCP connection that comes to the gateway's, the web's or the app's server, or one that comes to the
  -- WebSocket server, where the gateway's server can take data at
  -- once and the pool is sound, and the entity has at least 33 bytes: the observer returns; whatever
  -- server it was, the gateway's queue has one message more, which says whether the serial is active on
  -- the web or the WebSocket server, and whether on the app's; no other queue has changed; the message
  -- is in an entity of its own with a count of 1, the pool is sound, and all that was held is as it was.
  pub s_new_connect-Mode :
      (p : Name) (serial : String) (entity piece : ℕ) (s : Store) (src : List ℕ)
      → p ≢ weixin
      → IsSound s
      → seen s entity ≡ some (src, piece)
      → 33 ≤ piece
      → Accepts (inboxes gate_way) serial
      → (e : ℕ) × (s' : Store) × (inbox' : Inbox DataWrapper) × (s_new_connect x.others x.now
            x.later
            (tables net active inboxes)
            (named net active inboxes p)
            serial
            entity
            s
            (line_at net active inboxes p)
          ≡ some (s', with_gateway p inbox'))
        × Received
            (inboxes gate_way)
            inbox'
            serial
            (notice x.others x.now x.later e (said serial) serial)
        × Laid s s' e (said serial)
  s_new_connect-Mode p serial entity piece s src ne sound there room accepts =
      let m = message_for-mode x unmarshal alive cfg active inboxes p serial ne in
      let lt =
        length-update_bytes
          (mode (active web serial || active web_socket serial) (active app serial)) in
      let (e, s', pr, laid) =
        prepare-Laid x.others x.now x.later s entity piece src (said serial) sound there
          (omega (arith, lt)) in
      let (inbox', a, r) =
        add_data_for_write-Received 1 x.others x.now (inboxes gate_way) serial
          (notice x.others x.now x.later e (said serial) serial) accepts in
      (e, s', inbox', told_from p serial entity e s s' (said serial) inbox' ne m pr a, r, laid)
