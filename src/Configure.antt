-- ===== src/Configure.antt =====
-- new/configure.go: the settings that conf.xml gives, and `load_config`. What opening and reading the
-- file answers, and `xml.Unmarshal`, are arguments. `none` is a panic.
use gitee_fork_gateway.Prelude.{
  ℕ, Bool, false, Option, some, List, String, str_eq, if◌then◌else◌, ◌>>=◌,
}

-- A number that may be negative.
pub data ℤ : Type 0 where
  pos : ℕ → ℤ
  negsuc : ℕ → ℤ

pub record TtgTcpPorts : Type 0 where
  pub web_client : String
  pub gate_way : String
  pub control : String
  pub udp_port : String
  pub ws_port : String

pub record TtgBeatPackages : Type 0 where
  pub web_client : String
  pub gate_way : String
  pub control : String

pub record TtgRedisCfg : Type 0 where
  pub redis_url : String
  pub pass_word : String
  pub max_idle : ℤ
  pub timeout_sec : ℤ
  pub max_active : ℤ
  pub wait : Bool

pub record TtgOtherCfg : Type 0 where
  pub time_out : ℤ
  pub confirm_size : ℤ
  pub status_url : String
  pub pro_url : String

pub record TtgEncrypt : Type 0 where
  pub gate_way : Bool
  pub gate_way_pubkey : String

pub record HttpsConf : Type 0 where
  pub crt : String
  pub key : String

pub record Configure : Type 0 where
  pub https : HttpsConf
  pub ports : TtgTcpPorts
  pub beat_packages : TtgBeatPackages
  pub redis_cfg : TtgRedisCfg
  pub other : TtgOtherCfg
  pub need_encrypt : TtgEncrypt
  pub log_file_path : String
  pub p_prof_debuger : Bool
  pub host : String

-- `Configure{}`.
abbrev pub empty_configure : Configure
empty_configure = record {
  https = record { crt = ""; key = "" };
  ports = record { web_client = ""; gate_way = ""; control = ""; udp_port = ""; ws_port = "" };
  beat_packages = record { web_client = ""; gate_way = ""; control = "" };
  redis_cfg = record {
    redis_url = "";
    pass_word = "";
    max_idle = pos 0;
    timeout_sec = pos 0;
    max_active = pos 0;
    wait = false;
  };
  other = record { time_out = pos 0; confirm_size = pos 0; status_url = ""; pro_url = "" };
  need_encrypt = record { gate_way = false; gate_way_pubkey = "" };
  log_file_path = "";
  p_prof_debuger = false;
  host = "";
}

-- `if cfg.Host == ""`.
unfoldable pub default_host : Configure → Configure
default_host cfg = if str_eq cfg.host "" then record cfg { host = "127.0.0.1" } else cfg

-- `file` is what `os.Open` leaves to read, if it succeeds, and `read` the bytes of it, if `ReadAll`
-- does. `unmarshal` is what `xml.Unmarshal` leaves in the record, also where it fails: its error is
-- not looked at.
unfoldable pub load_config :
    {F : Type 0}
    → Option F
    → (F → Option (List ℕ))
    → (List ℕ → Configure → Configure)
    → Option Configure
unfolding default_host
load_config file read unmarshal = do
  f ← file
  xml_bytes ← read f
  some (default_host (unmarshal xml_bytes empty_configure))
