-- ===== src/Network/Listen.antt =====
-- `StartListen` of new/server_tcp.go, new/server_udp.go and new/server_websocket.go, the head of
-- `createBeatSendHandle`, and the index page's handler. Opening a listener is an argument; `none` is the
-- end of the program, a panic or a call that waits for ever.
use gitee_fork_gateway.Prelude.{
  ℕ, ◌||◌, Option, none, some, List, [], ◌∷◌, ◌++◌, replicate, length, String, str_eq, str_append,
  ltb, if◌then◌else◌, ◌>>=◌,
}
use gitee_fork_gateway.Configure.{Configure}
use gitee_fork_gateway.Parser.{CryptImpl}
use gitee_fork_gateway.Tcp.{Routines, scale}
use gitee_fork_gateway.Tcp.Beat.{beat_text}
use gitee_fork_gateway.Network.Impl.{BeatPackageImpl}
use gitee_fork_gateway.Network.Servers.{
  Chan, TcpServerEntity, UdpServerEntity, WebSocketServerEntity,
}

-- The routines that a TCP server starts.
pub data Started : Type 0 where
  shares : Started
  admits : Started
  beats : Started

-- A round of the loop: `con` is what `Accept` gives, if there is no error. A full channel waits.
unfoldable pub accept_round : Option ℕ → ℕ → ℕ → Chan ℕ → Routines → Option (Chan ℕ × Routines)
unfolding scale
accept_round none now later q r = some (q, r)
accept_round (some con) now later q r =
    let q' : Chan ℕ = record q { waiting = q.waiting ++ (con ∷ []) } in
    if ltb (length q.waiting) q.capacity
    then some (q', scale (length q'.waiting) now later r)
    else none

module _ {S L : Type 0} where
  unfoldable pub start_tcp : (String → Option L) → TcpServerEntity S → Option (L × List Started)
  start_tcp listen t = do
    listener ← listen (str_append ":" t.tcpport)
    some (listener, replicate t.write_conrution_size shares ++ (replicate 5 admits ++ (beats ∷ [])))

  -- The writers that are started before `readUdpData` runs: 4.
  unfoldable pub start_udp :
      {A : Type 0} → (String → Option A) → (A → Option L) → UdpServerEntity S → Option (L × ℕ)
  start_udp resolve listen u = do
    udp_addr ← resolve (str_append ":" u.udpport)
    listener ← listen udp_addr
    some (listener, 4)

-- What `createBeatSendHandle` sends, and how often; the inner `none` where it ends at once.
unfoldable pub beat_to_send :
    Option BeatPackageImpl → Option CryptImpl → Option (Option (ℕ × List ℕ))
beat_to_send none v = some none
beat_to_send (some b) v =
    let sending = (do text ← beat_text v b.beat_bytes; some (some (b.beat_inteval, text))) in
    if ltb b.beat_inteval 1 then some none else sending

-- How the WebSocket server is served: by HTTP, or by HTTPS with a certificate and a key.
pub data Served : Type 0 where
  http : String → Served
  https : String → String → String → Served

unfoldable pub start_web_socket : {S : Type 0} → Configure → WebSocketServerEntity S → Served
start_web_socket cfg w =
    if str_eq cfg.https.crt "" || str_eq cfg.https.key ""
    then http (str_append ":" w.port)
    else https (str_append ":" w.port) cfg.https.crt cfg.https.key

-- What the handler of `/` writes, if anything; `page` is `IndexPageBuff`.
unfoldable pub index : List ℕ → String → Option (List ℕ)
index page method = if str_eq method "GET" then some page else none
