-- ===== src/Logging.antt =====
-- new/logging.go: the logger. Opening the file is an argument: its handle, or `none` where it fails,
-- and the program ends.
use gitee_fork_gateway.Prelude.{Option, some, List, String, str_eq, if◌then◌else◌, ◌>>=◌}
use gitee_fork_gateway.Text.{trim}
use gitee_fork_gateway.Configure.{Configure}

-- The logger writes to the open file.
pub record PrivateLogHandle (F : Type 0) : Type 0 where
  pub file : String
  pub loger : F

abbrev pub log_name : Configure → String
log_name cfg =
    let name = trim cfg.log_file_path in if str_eq name "" then "server_log.log" else name

unfoldable pub singleton_log :
    {F : Type 0} → (String → Option F) → Configure → Option (PrivateLogHandle F)
singleton_log open_file cfg = do
  loger ← open_file (log_name cfg)
  some (record { file = log_name cfg; loger = loger })

-- `println` is `Println` of the log library: the file after a line.
unfoldable pub write_log :
    {F : Type 0} → (F → List String → F) → PrivateLogHandle F → List String → PrivateLogHandle F
write_log println p v = record p { loger = println p.loger v }
