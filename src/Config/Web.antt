-- ===== src/Config/Web.antt =====
-- server-web/config/config.go. Floating-point numbers are a parameter: how a text is read, a test for
-- less, 0 and 1. Durations are in nanoseconds.
pub mod Checked
use Prim.Native.Char.{Char, code}
use server_monitor.Base.{
  ℕ, String, len, Bool, true, false, not, ◌&&◌, Option, none, some, List, [], ◌∷◌, ◌==◌, eqb, ltb,
  if◌then◌else◌,
}
use server_monitor.Base.Int.{ℤ, pos, leb_ℤ}
use server_monitor.Base.Text.{trim_space, append}
use server_monitor.Errors.{GoError, message}
use server_monitor.Config.Env.{
  Env, string, non_empty_string, non_negative_int, positive_int, duration_seconds,
  duration_milliseconds, bool, list, float_range,
}
use server_monitor.Config.Addresses.{
  Addresses, validate_host_port, validate_http_url, validate_port, validate_brokers, first_error,
  refuse_if, when,
}

pub record RateLimitConfig : Type 0 where
  pub enabled : Bool
  pub requests : ℤ
  pub window : ℤ
  pub operation_timeout : ℤ

pub record Config (Float : Type 0) : Type 0 where
  pub listen_addr : String
  pub prometheus_url : String
  pub prometheus_reload_url : String
  pub alert_rules_file_path : String
  pub alert_rule_sync_enabled : Bool
  pub promtool_path : String
  pub alert_rule_sync_timeout : ℤ
  pub request_timeout : ℤ
  pub ready_timeout : ℤ
  pub http_read_header_timeout : ℤ
  pub http_read_timeout : ℤ
  pub http_write_timeout : ℤ
  pub http_idle_timeout : ℤ
  pub shutdown_timeout : ℤ
  pub hosts_broadcast_interval : ℤ
  pub hosts_cache_ttl : ℤ
  pub dashboard_overview_ttl : ℤ
  pub alert_event_dedupe_ttl : ℤ
  pub alertmanager_webhook_max_body_bytes : ℤ
  pub cache_write_timeout : ℤ
  pub gin_mode : String
  pub trusted_proxies : List String
  pub cors_origins : List String
  pub rate_limit : RateLimitConfig
  pub redis_addr : String
  pub redis_password : String
  pub redis_db : ℤ
  pub redis_startup_timeout : ℤ
  pub redis_dial_timeout : ℤ
  pub redis_read_timeout : ℤ
  pub redis_write_timeout : ℤ
  pub redis_conn_max_lifetime : ℤ
  pub redis_conn_max_idle_time : ℤ
  pub mysql_host : String
  pub mysql_port : String
  pub mysql_user : String
  pub mysql_password : String
  pub mysql_database : String
  pub mysql_startup_timeout : ℤ
  pub mysql_ping_timeout : ℤ
  pub jwt_secret : String
  pub jwt_expire_hours : ℤ
  pub auth_enabled : Bool
  pub admin_password : String
  pub static_dir : String
  pub trace_otlp_endpoint : String
  pub trace_sample_rate : Float
  pub kafka_brokers : List String
  pub ws_max_connections : ℤ

-- strings.TrimRight of slashes
keep_unless_slash : Char → String → String
keep_unless_slash c String.[] = if eqb (code c) b'/' then String.[] else String.◌∷◌ c String.[]
keep_unless_slash c (String.◌∷◌ d s) = String.◌∷◌ c (String.◌∷◌ d s)

trim_right_slash : String → String
unfolding keep_unless_slash
trim_right_slash String.[] = String.[]
trim_right_slash (String.◌∷◌ c s) = keep_unless_slash c (trim_right_slash s)

module _ {Float : Type 0} where
  unfoldable pub load :
      (String → Option Float) → (Float → Float → Bool) → Float → Float → Env → Config Float
  unfolding trim_right_slash
  load parse_float less zero one env =
      let prometheus_url = string env "PROMETHEUS_URL" "http://prometheus:9090" in
      record {
        listen_addr = string env "LISTEN_ADDR" ":8080";
        prometheus_url = prometheus_url;
        prometheus_reload_url =
            non_empty_string env "PROMETHEUS_RELOAD_URL"
              (append (trim_right_slash prometheus_url) "/-/reload");
        alert_rules_file_path = string env "ALERT_RULES_FILE_PATH" "";
        alert_rule_sync_enabled = bool env "ALERT_RULE_SYNC_ENABLED" true;
        promtool_path = string env "PROMTOOL_PATH" "promtool";
        alert_rule_sync_timeout = duration_seconds env "ALERT_RULE_SYNC_TIMEOUT_SECONDS" (pos 10);
        request_timeout = duration_seconds env "REQUEST_TIMEOUT_SECONDS" (pos 5);
        ready_timeout = duration_seconds env "READY_TIMEOUT_SECONDS" (pos 3);
        http_read_header_timeout = duration_seconds env "HTTP_READ_HEADER_TIMEOUT_SECONDS" (pos 5);
        http_read_timeout = duration_seconds env "HTTP_READ_TIMEOUT_SECONDS" (pos 15);
        http_write_timeout = duration_seconds env "HTTP_WRITE_TIMEOUT_SECONDS" (pos 30);
        http_idle_timeout = duration_seconds env "HTTP_IDLE_TIMEOUT_SECONDS" (pos 120);
        shutdown_timeout = duration_seconds env "SHUTDOWN_TIMEOUT_SECONDS" (pos 5);
        hosts_broadcast_interval = duration_seconds env "HOSTS_BROADCAST_INTERVAL_SECONDS" (pos 5);
        hosts_cache_ttl = duration_seconds env "HOSTS_CACHE_TTL_SECONDS" (pos 30);
        dashboard_overview_ttl = duration_seconds env "DASHBOARD_OVERVIEW_TTL_SECONDS" (pos 10);
        alert_event_dedupe_ttl = duration_seconds env "ALERT_EVENT_DEDUPE_TTL_SECONDS" (pos 86400);
        alertmanager_webhook_max_body_bytes =
            positive_int env "ALERTMANAGER_WEBHOOK_MAX_BODY_BYTES" (pos 1048576);
        cache_write_timeout = duration_seconds env "CACHE_WRITE_TIMEOUT_SECONDS" (pos 3);
        gin_mode = string env "GIN_MODE" "debug";
        trusted_proxies = list env "TRUSTED_PROXIES";
        cors_origins = list env "CORS_ALLOWED_ORIGINS";
        rate_limit = record {
          enabled = bool env "RATE_LIMIT_ENABLED" false;
          requests = positive_int env "RATE_LIMIT_REQUESTS" (pos 120);
          window = duration_seconds env "RATE_LIMIT_WINDOW_SECONDS" (pos 60);
          operation_timeout =
              duration_milliseconds env "RATE_LIMIT_OPERATION_TIMEOUT_MILLISECONDS" (pos 500);
        };
        redis_addr = string env "REDIS_ADDR" "";
        redis_password = string env "REDIS_PASSWORD" "";
        redis_db = non_negative_int env "REDIS_DB" (pos 0);
        redis_startup_timeout = duration_seconds env "REDIS_STARTUP_TIMEOUT_SECONDS" (pos 5);
        redis_dial_timeout = duration_seconds env "REDIS_DIAL_TIMEOUT_SECONDS" (pos 5);
        redis_read_timeout = duration_seconds env "REDIS_READ_TIMEOUT_SECONDS" (pos 3);
        redis_write_timeout = duration_seconds env "REDIS_WRITE_TIMEOUT_SECONDS" (pos 3);
        redis_conn_max_lifetime = duration_seconds env "REDIS_CONN_MAX_LIFETIME_SECONDS" (pos 1800);
        redis_conn_max_idle_time =
            duration_seconds env "REDIS_CONN_MAX_IDLE_TIME_SECONDS" (pos 300);
        mysql_host = string env "MYSQL_HOST" "";
        mysql_port = string env "MYSQL_PORT" "3306";
        mysql_user = string env "MYSQL_USER" "";
        mysql_password = string env "MYSQL_PASSWORD" "";
        mysql_database = string env "MYSQL_DATABASE" "";
        mysql_startup_timeout = duration_seconds env "MYSQL_STARTUP_TIMEOUT_SECONDS" (pos 5);
        mysql_ping_timeout = duration_seconds env "MYSQL_PING_TIMEOUT_SECONDS" (pos 3);
        jwt_secret = string env "JWT_SECRET" "";
        jwt_expire_hours = positive_int env "JWT_EXPIRE_HOURS" (pos 24);
        auth_enabled = bool env "AUTH_ENABLED" true;
        admin_password = string env "ADMIN_PASSWORD" "";
        static_dir = string env "STATIC_DIR" "";
        trace_otlp_endpoint = non_empty_string env "TRACE_OTLP_ENDPOINT" "";
        trace_sample_rate = float_range parse_float less env "TRACE_SAMPLE_RATE" one zero one;
        kafka_brokers = list env "KAFKA_BROKERS";
        ws_max_connections = positive_int env "WS_MAX_CONNECTIONS" (pos 1000);
      }

  -- The checks of Validate, in order: it ends at the first that fails.
  unfoldable pub checks : Addresses → Config Float → List (Option GoError)
  unfolding refuse_if when
  checks A c =
      refuse_if (c.auth_enabled && ltb (len (trim_space c.jwt_secret)) 32)
        "JWT_SECRET must be at least 32 bytes when auth is enabled"
      ∷ refuse_if (c.listen_addr == "") "LISTEN_ADDR is required"
      ∷ validate_host_port A "LISTEN_ADDR" c.listen_addr
      ∷ refuse_if (c.prometheus_url == "") "PROMETHEUS_URL is required"
      ∷ validate_http_url A "PROMETHEUS_URL" c.prometheus_url
      ∷ when (not (c.prometheus_reload_url == ""))
          (validate_http_url A "PROMETHEUS_RELOAD_URL" c.prometheus_reload_url)
      ∷ when (not (c.redis_addr == "")) (validate_host_port A "REDIS_ADDR" c.redis_addr)
      ∷ validate_port "MYSQL_PORT" c.mysql_port
      ∷ when (not (c.trace_otlp_endpoint == ""))
          (validate_host_port A "TRACE_OTLP_ENDPOINT" c.trace_otlp_endpoint)
      ∷ validate_brokers A c.kafka_brokers
      ∷ refuse_if (leb_ℤ c.shutdown_timeout (pos 0)) "SHUTDOWN_TIMEOUT_SECONDS must be positive"
      ∷ refuse_if (leb_ℤ c.request_timeout (pos 0)) "REQUEST_TIMEOUT_SECONDS must be positive"
      ∷ refuse_if (leb_ℤ c.jwt_expire_hours (pos 0)) "JWT_EXPIRE_HOURS must be positive"
      ∷ when c.rate_limit.enabled (
          refuse_if (leb_ℤ c.rate_limit.requests (pos 0))
            "RATE_LIMIT_REQUESTS must be positive when rate limit is enabled")
      ∷ when c.rate_limit.enabled (
          refuse_if (leb_ℤ c.rate_limit.window (pos 0))
            "RATE_LIMIT_WINDOW_SECONDS must be positive when rate limit is enabled")
      ∷ []

  unfoldable pub validate : Addresses → Config Float → Option GoError
  unfolding first_error checks
  validate A c = first_error (checks A c)
