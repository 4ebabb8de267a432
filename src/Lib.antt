-- ===== src/Lib.antt =====
-- Verification library of the gateway forwarding server (new/*.go): TCP, UDP and WebSocket servers
-- that forward their clients' messages to a gateway connection and back, over a shared memory pool,
-- queues by serial, and tables of the connections that are registered.
--
-- Which file models which part:
--   Brick, Pool        new/simple_pool.go. `Brick` is MemBrick, `Pool` is MemEntity and MemPool. The
--                      linked chain of bricks is a list with the bricks' addresses. Brick/Pieces
--                      and Brick/Memory prove what a brick promises, Pool/Hold, Pool/Gets and
--                      Pool/Counts who holds a piece and when it comes free, Pool/Fit the sizes.
--                      Brick/Rows, Pool/Slices and Pool/Writes are about the bytes of taken pieces.
--   SyncMap            the string-keyed sync.Map of the Go library, as the servers use it.
--   NetConMap          new/thread_safe_map.go: SetAllowDup, Delete, Load, LoadOrStore, Range, Store,
--                      IsKeyExist, RemoveEmptyKeys. NetConMap/View, Entry, Sweep and Exists compare
--                      them with one map from a serial and an address, NetConMap/Lock is about the
--                      mutex.
--   QueueHandle        new/fifo_queue.go, LazyInit to SetFree: QueueHandle/Order has the order of the
--                      values, QueueHandle/Wakeup the steps of several goroutines, QueueHandle/Gc the
--                      test for collection.
--   FifoQueue          new/fifo_queue.go, Put to SingleGet: FifoQueue/Puts and FifoQueue/Sweep.
--                      FifoQueue/Fresh has what a reader finds right behind a Put.
--   Tcp                new/server_tcp.go: the tables of connections and monitors (Tcp/Kick) and the
--                      number of authenticating routines (Tcp/Scale). Tcp/Come is newComeConHandle,
--                      Tcp/Read createReadroutine, Tcp/Write writeData to writeDataEachConRoutine, and
--                      Tcp/Beat createBeatSendHandle. Tcp/Write/Reach is about one write of the shared
--                      writers, Tcp/Write/Sent about one of a connection's own, Tcp/Write/Sealed
--                      about an encrypted one. They use NetConMap, FifoQueue and Entities.
--   WebSocket          new/server_websocket.go: wread, wwrite and createWriteConroutine
--                      (WebSocket/Receive), and the stages of WebSockHandle (WebSocket/Register), which
--                      WebSocket/Handle puts together.
--   Udp                new/server_udp.go: readUdpData and writeUdpData (Udp/Addresses).
--   HandOut            what the read loops of the three servers share: the entities for the answer and
--                      for the others, the parser's call, and where the two entities go (HandOut/Kept).
--                      HandOut/Forward follows a message from the sender's buffer to the queues.
--                      PackageParseImpl of new/serverimpl.go is an argument. It uses Dispatch.
--   Entities           the pool's entities behind their pointers, and DataWrapper of new/serverimpl.go;
--                      Entities/Acks is about the counts, Entities/Seen, Entities/Fresh and
--                      Entities/Last about what the holders of pointers see, Entities/Life and
--                      Entities/Runs about releases among what the others do. It uses Pool.
--   Observer           new/main.go: SNewConnect and SDisConnect (Observer/Told), with the message
--                      (Observer/Made) and the entity that carries it (Observer/Laid).
--   Network            new/main.go, main: the five servers, connected. Network/Impl has the interfaces of
--                      new/serverimpl.go and what main gives for them, with HNewConnect and HDisConnect,
--                      Network/Servers the Init functions and AddToDistributeEntity, Network/Listen the
--                      StartListen functions, Network/Data the rest of ServerImpl. Network/Sent,
--                      Network/Only and Network/Routes are about whose data goes where, Network/Views compares the
--                      pointers with the list of servers of Dispatch, Network/Modes and Network/Told
--                      are about the observer on these servers; Network/Tests has also the accepting
--                      routine of new/server_tcp.go with this observer. It uses Observer, Parser and Ack.
--   Relay              the way of a message through two servers, over HandOut and Tcp.
--   Configure          new/configure.go.   Logging  new/logging.go, with Text for strings.Trim.
--   Redis              new/redis.go.       HttpTool new/httptool.go.
--   Bytes              new/main.go: contains (Bytes/Search), removeBytes and trimLeft (Bytes/Remove),
--                      checkMayJson (Bytes/Json), and the copying loop over byte slices (Bytes/Copy).
--   Parser             new/main.go: the Parser of TcpPackageParseEntity and of WebSocketParse
--                      (Parser/Cast), on the slices of the entities that they acquire, with
--                      CryptImpl of new/serverimpl.go as an argument; Parser/Beats is about the
--                      first one's loop over heartbeats, and Parser/Shrink about the length that it
--                      leaves. Parser/Pooled has the three parsers with the entities that they acquire
--                      and free; json.Unmarshal is an argument of that of the UDP server.
--   Ack                new/main.go: AckSerial (Ack/Serial), with what the connection's Read leaves as
--                      an argument, and AckConnect (Ack/Connect); Ack/Pooled has AckSerial with its
--                      entities.
--   Dispatch           new/server_tcp.go: AddDataForWrite, BroadCastData and SerialActivityMap
--                      (Dispatch/Activity), which the WebSocket and UDP servers share but for their
--                      channels, and the choice of the message of SNewConnect in new/main.go. It uses
--                      FifoQueue. Dispatch/Broadcast says who has the data after a broadcast.
--   Codec              new/mix_base64.go: MixFour and DeMixFour (Codec/Mix), EncryPt and DeCrypt, with
--                      the padded base64 of RFC 4648 as a definition of its own (Codec/Base64).
--   Crypt              new/main.go: CryptEntity, over Codec (Crypt/RoundTrip, Crypt/Cut).
--   Prelude            names, tests, lists and options that the others share.
--   A Tests module below a part runs it at concrete inputs.
--
-- How the code is read: an operation is a function from a state to the new state and the result.
-- `Option` stands for nil, for -1, for a panic, or for a call that waits for ever, as each function
-- says. Readings of the clock are arguments. An operation runs to its end before the next one starts,
-- except where a function of the other goroutines is an argument (Store, LoadOrStore, Put), or a step
-- relation is given (QueueHandle/Wakeup). Counters of type uint64 and int32 wrap; lengths and sizes
-- are plain numbers, below 2^62.
--
-- Bounds: `findBestFix` doubles its result; as many rounds as the size asked for are enough
-- (Pool/Fit). `Put` calls itself after a sleep; its fuel bounds the depth of these calls, and 1 is
-- enough where the handle is absent or open, 2 where the handle that it met is deleted meanwhile.
--
-- `contains` and the other byte loops run for as many rounds as their bounds say. The parser's loop
-- over heartbeats has one round more than the text has bytes (Parser/Beats); MixFour has its length,
-- and a round goes on by four. The read routine's loop over the messages of a packet has fuel, and its
-- result tells a loop that reaches the bound from one that panics; without encryption one round more
-- than the buffer has bytes is enough (Tcp/Read/Rounds, Tcp/Read/Ends).
--
-- A loop that a server runs for ever is given by one round of it, with the message or the wrapper that
-- the round begins with. What a socket takes, gives or refuses is an argument, and what was handed to it
-- is kept in the order of the calls. Text is a list of bytes within an entity; a serial or an address is
-- a string, and the conversion between them is not modelled. A slice has no capacity beyond its length:
-- where Go lets `src[0:n]` reach into the capacity, the model has a panic. The requests of the
-- HTTP service that the TCP servers' routines wait for when a connection comes or goes (HNewConnect,
-- HDisConnect) are kept in their order, and taken to come back; in WebSockHandle the observer's calls
-- are an argument, and these requests, which touch none of its state, are left out.
--
-- Not modelled: what the libraries do below the program (sockets, the HTTP server, redis, XML and JSON),
-- whose answers are arguments; the interleaving of the goroutines within a call, beyond the functions of
-- the other goroutines named above; the log lines; the index page, which is a constant; and the test
-- client, a program of its own whose codec is a copy of new/mix_base64.go.
pub mod Prelude
pub mod Bytes
pub mod Codec
pub mod HandOut
pub mod HttpTool
pub mod Logging
pub mod Redis
pub mod Relay
pub mod Text
pub mod Network
pub mod Observer
pub mod WebSocket
pub mod Udp
pub mod Entities
pub mod Configure
pub mod Crypt
pub mod Dispatch
pub mod Ack
pub mod Parser
pub mod Brick
pub mod Pool
pub mod SyncMap
pub mod NetConMap
pub mod QueueHandle
pub mod FifoQueue
pub mod Tcp
