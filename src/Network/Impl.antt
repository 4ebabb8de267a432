-- ===== src/Network/Impl.antt =====
-- The interfaces of new/serverimpl.go that a server is given in `Init`, and what new/main.go gives for
-- them.
use gitee_fork_gateway.Prelude.{
  ℕ, Bool, Option, none, some, List, String, str_eq, str_append, if◌then◌else◌,
}
use gitee_fork_gateway.FifoQueue.{FifoQueue}
use gitee_fork_gateway.Entities.{Store, DataWrapper}
use gitee_fork_gateway.Parser.{CryptImpl}
use gitee_fork_gateway.Parser.Pooled.{tcp_parser, web_socket_parser, weixin_parser, Unmarshal}
use gitee_fork_gateway.HandOut.{Lines, Parser}
use gitee_fork_gateway.Ack.Connect.{ack_connect}
use gitee_fork_gateway.Ack.Pooled.{ack_serial_read}
use gitee_fork_gateway.Dispatch.{Server}
use gitee_fork_gateway.Observer.{Named, s_new_connect, s_dis_connect}
use gitee_fork_gateway.Configure.{Configure}

-- The heartbeat: its bytes, those of the answer, and the seconds between two.
pub record BeatPackageImpl : Type 0 where
  pub beat_bytes : List ℕ
  pub beat_ack_bytes : List ℕ
  pub beat_inteval : ℕ

pub record BeatPackageEntity : Type 0 where
  pub beat : List ℕ
  pub ack_beat : List ℕ
  pub interval : ℕ

abbrev pub beat_package_impl : BeatPackageEntity → BeatPackageImpl
beat_package_impl b = record {
  beat_bytes = b.beat;
  beat_ack_bytes = b.ack_beat;
  beat_inteval = b.interval;
}

-- The reports to the HTTP service are the URLs that are asked for, if any.
pub record ConChangeObserverImpl : Type 0 where
  pub s_new_connect : Named → String → ℕ → Store → Lines → Option (Store × Lines)
  pub s_dis_connect : Named → String → ℕ → Store → Lines → Option (Store × Lines)
  pub h_new_connect : String → Named → Option String
  pub h_dis_connect : String → Named → Option String

-- `fmt.Sprintf("%s?serial=%s&gateway_status=%i", ...)` with a number: `%i` is no verb, and the library
-- writes that, with the argument's type and its value.
abbrev pub status_url : Configure → String → String → String
status_url cfg serial status = str_append cfg.other.status_url (
    str_append "?serial="
      (str_append serial (str_append "&gateway_status=%!i(int=" (str_append status ")"))))

-- 1 is GATEWAY_CONNECT.
unfoldable pub h_new_connect : Configure → String → Named → Option String
h_new_connect cfg serial v =
    if str_eq v.name "GATEWAY" then some (status_url cfg serial "1") else none

-- -1 is GATEWAY_DISCONNECT.
unfoldable pub h_dis_connect : Configure → String → Named → Option String
h_dis_connect cfg serial v =
    if str_eq v.name "GATEWAY" then some (status_url cfg serial "-1") else none

-- What other goroutines do to a queue in between, two readings of the clock, and the `ToBroadCast` of
-- the server of each name.
pub record Surroundings : Type 0 where
  pub others : FifoQueue DataWrapper → FifoQueue DataWrapper
  pub now : ℕ
  pub later : ℕ
  pub tables : String → List (Option (Server DataWrapper))

abbrev pub con_change_observer : Surroundings → Configure → ConChangeObserverImpl
con_change_observer x cfg = record {
  s_new_connect = s_new_connect x.others x.now x.later x.tables;
  s_dis_connect = s_dis_connect x.others x.now x.later x.tables;
  h_new_connect = h_new_connect cfg;
  h_dis_connect = h_dis_connect cfg;
}

pub record AckImpl : Type 0 where
  pub ack_serial :
      Option CryptImpl
      → Option (List ℕ × ℕ)
      → ℕ
      → ℕ
      → Store
      → ℕ
      → Option ((Bool × List ℕ × ℕ) × Store)
  pub ack_connect :
      Option CryptImpl
      → (List ℕ → Bool)
      → ℕ
      → ℕ
      → Store
      → ℕ
      → Option ((Bool × Option (List ℕ)) × Store)

abbrev pub ack_entity : AckImpl
ack_entity = record { ack_serial = ack_serial_read; ack_connect = ack_connect }

-- The parser for a server, by its name, and a connection, by its serial.
pub record PackageParseImpl : Type 0 where
  pub parser : String → String → Option CryptImpl → Parser

abbrev pub tcp_package_parse : Surroundings → List ℕ → PackageParseImpl
tcp_package_parse x alive = record {
  parser = λ server_serial tcp_serial v. tcp_parser alive v tcp_serial x.now x.later;
}

abbrev pub web_socket_parse_impl : PackageParseImpl
web_socket_parse_impl = record {
  parser = λ server_serial cur_con_serial v. web_socket_parser cur_con_serial;
}

abbrev pub weixin_package_parse : Unmarshal → PackageParseImpl
weixin_package_parse unmarshal = record {
  parser = λ server_serial udp_serial v. weixin_parser unmarshal;
}
