-- ===== src/Redis.antt =====
-- new/redis.go: the pool of redis connections, and HSET and HGET over it. The redis library is an
-- argument: a connection's `Do`, and `DialURL`.
use gitee_fork_gateway.Prelude.{
  Bool, true, false, Option, none, some, List, [], ◌∷◌, String, str_eq, if◌then◌else◌, ◌>>=◌,
}
use gitee_fork_gateway.Text.{trim}
use gitee_fork_gateway.Configure.{ℤ, TtgRedisCfg}

-- The answer of a command.
pub data Reply : Type 0 where
  failed : Reply
  text_reply : String → Reply
  other : Reply

-- `Do`, and what it leaves of the connection; `Close`.
pub record RedisConn (C : Type 0) : Type 0 where
  pub run : C → List String → Reply × C
  pub close : C → C

-- The settings of the pool; the idle time is in seconds.
pub record RedisPool : Type 0 where
  pub max_idle : ℤ
  pub max_active : ℤ
  pub idle_timeout : ℤ
  pub wait : Bool

unfoldable pub build_redis_client : TtgRedisCfg → RedisPool
build_redis_client cfg = record {
  max_idle = cfg.max_idle;
  max_active = cfg.max_active;
  idle_timeout = cfg.timeout_sec;
  wait = cfg.wait;
}

abbrev pub is_failed : Reply → Bool
is_failed failed = true
is_failed (text_reply s) = false
is_failed other = false

module _ {C : Type 0} (conn : RedisConn C) where
  -- `Dial`: `none` is an error.
  unfoldable pub dial : (String → Option C) → TtgRedisCfg → Option C
  dial dial_url cfg = do
    c ← dial_url cfg.redis_url
    let passwd = trim cfg.pass_word
    let (reply, c') = conn.run c ("AUTH" ∷ passwd ∷ [])
    (if str_eq passwd "" then some c else if is_failed reply then none else some c')

  -- `TestOnBorrow`: is the error nil?
  unfoldable pub test_on_borrow : C → Bool × C
  test_on_borrow c =
      let (reply, c') = conn.run c ("PING" ∷ []) in
      if is_failed reply then (false, c') else (true, c')

  -- On a connection that the pool gives: is the error nil, and the connection afterwards.
  unfoldable pub h_set : C → String → String → String → Bool × C
  h_set con name key value =
      let (reply, con') = conn.run con ("HSET" ∷ name ∷ key ∷ value ∷ []) in
      if is_failed reply then (false, conn.close con') else (true, conn.close con')

  -- `redis.String`: a reply that is no text is an error.
  abbrev pub string_of : Reply → Option String
  string_of failed = none
  string_of (text_reply s) = some s
  string_of other = none

  unfoldable pub h_get : C → String → String → Option String × C
  h_get con name key =
      let (reply, con') = conn.run con ("HGET" ∷ name ∷ key ∷ []) in
      (string_of reply, conn.close con')
