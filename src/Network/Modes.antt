-- ===== src/Network/Modes.antt =====
-- What the gateway is told by the servers that `main` sets up.
use gitee_fork_gateway.Prelude.{
  ℕ, ◌≡◌, refl, ◌≢◌, Bool, true, false, ◌||◌, Option, some, List, map, String, str_eq,
  if◌then◌else◌, arith,
}
use gitee_fork_gateway.SyncMap
use gitee_fork_gateway.Configure.{Configure}
use gitee_fork_gateway.Parser.Pooled.{Unmarshal}
use gitee_fork_gateway.Entities.{DataWrapper}
use gitee_fork_gateway.Dispatch.{
  Inbox, Server, Update, all_update, web_update, app_update, none_update, update_for,
  serial_activity_map,
}
use gitee_fork_gateway.HandOut.{Lines}
use gitee_fork_gateway.Observer.{Named, message_for, update_bytes}
use gitee_fork_gateway.Network.Impl.{Surroundings}
use gitee_fork_gateway.Network.{
  Name, weixin, gate_way, web, app, web_socket, Network, main, get_serial, to_broad_cast,
}

-- The message for a device: can the web, or a WebSocket client, see it, and can an app?
unfoldable pub mode : Bool → Bool → Update
mode true true = all_update
mode true false = web_update
mode false true = app_update
mode false false = none_update

-- The servers of a network with their clients and what is in their queues.
module _ (n : Network) (active : Name → String → Bool) (inboxes : Name → Inbox DataWrapper) where
  abbrev pub server_at : Name → Server DataWrapper
  server_at p = record { serial = get_serial n p; serial_is_activity = active p; inbox = inboxes p }

  abbrev pub peers : Name → List (Option (Server DataWrapper))
  peers p = map (λ q. some (server_at q)) (to_broad_cast n p)

  abbrev pub line_at : Name → Lines
  line_at p = record { inbox = inboxes p; to_broad_cast = peers p }

  abbrev pub named : Name → Named
  named p = record { name = get_serial n p; serial_is_activity = active p }

  -- The server of a name; the names of the five differ.
  abbrev pub name_of : String → Name
  name_of s =
      if str_eq s (get_serial n gate_way)
      then gate_way
      else if str_eq s (get_serial n web)
      then web
      else if str_eq s (get_serial n app)
      then app
      else if str_eq s (get_serial n web_socket)
      then web_socket
      else weixin

  abbrev pub tables : String → List (Option (Server DataWrapper))
  tables s = peers (name_of s)

modes :
    (mp : SyncMap.SyncMap Bool) (w a k : Bool)
    → SyncMap.load "WEB" mp ≡ some w
    → SyncMap.load "APP" mp ≡ some a
    → SyncMap.load "WEBSOCKET" mp ≡ some k
    → some (update_bytes (update_for mp)) ≡ some (update_bytes (mode (w || k) a))
unfolding update_for mode
modes mp w a k ew ea ek = ground arith

-- The network of `main`.
abbrev pub network : Surroundings → Unmarshal → List ℕ → Configure → Network
network x unmarshal alive cfg = (main x unmarshal alive cfg).0

module _ (x : Surroundings) (unmarshal : Unmarshal) (alive : List ℕ) (cfg : Configure)
    (active : Name → String → Bool) (inboxes : Name → Inbox DataWrapper) where
  abbrev net : Network
  net = network x unmarshal alive cfg

  abbrev pub text_for : String → List ℕ
  text_for serial =
      update_bytes (mode (active web serial || active web_socket serial) (active app serial))

  -- Every server but the UDP one, and so whatever connection has come or gone, gets at one message: it
  -- says whether the serial is active on the web or the WebSocket server, and on the app's.
  pub message_for-mode :
      (p : Name) (serial : String)
      → p ≢ weixin
      → message_for
          (tables net active inboxes)
          (named net active inboxes p)
          (line_at net active inboxes p)
          serial
        ≡ some (text_for serial)
  unfolding main get_serial to_broad_cast message_for SyncMap.store SyncMap.load serial_activity_map
  message_for-mode weixin serial ne = absurd (ne refl)
  message_for-mode gate_way serial ne = modes _ _ _ _ refl refl refl
  message_for-mode web serial ne = modes _ _ _ _ refl refl refl
  message_for-mode app serial ne = modes _ _ _ _ refl refl refl
  message_for-mode web_socket serial ne = modes _ _ _ _ refl refl refl
