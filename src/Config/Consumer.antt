-- ===== src/Config/Consumer.antt =====
-- alert-service/config/config.go.
use server_monitor.Base.{String, Bool, not, Option, List, [], ◌∷◌, ◌==◌, true, false}
use server_monitor.Base.Int.{ℤ, pos, leb_ℤ}
use server_monitor.Errors.{GoError}
use server_monitor.Config.Env.{
  Env, string, non_empty_string, duration_seconds, list_with_fallback, float_range,
}
use server_monitor.Config.Addresses.{
  Addresses, validate_host_port, validate_brokers, first_error, refuse_if, when,
}

pub record Config (Float : Type 0) : Type 0 where
  pub listen_addr : String
  pub http_read_header_timeout : ℤ
  pub http_read_timeout : ℤ
  pub http_write_timeout : ℤ
  pub http_idle_timeout : ℤ
  pub shutdown_timeout : ℤ
  pub kafka_brokers : List String
  pub kafka_group_id : String
  pub redis_addr : String
  pub redis_password : String
  pub trace_otlp_endpoint : String
  pub trace_sample_rate : Float

unfoldable pub is_empty : List String → Bool
is_empty [] = true
is_empty (broker ∷ brokers) = false

module _ {Float : Type 0} where
  unfoldable pub load :
      (String → Option Float) → (Float → Float → Bool) → Float → Float → Env → Config Float
  load parse_float less zero one env = record {
    listen_addr = string env "LISTEN_ADDR" ":8081";
    http_read_header_timeout = duration_seconds env "HTTP_READ_HEADER_TIMEOUT_SECONDS" (pos 5);
    http_read_timeout = duration_seconds env "HTTP_READ_TIMEOUT_SECONDS" (pos 15);
    http_write_timeout = duration_seconds env "HTTP_WRITE_TIMEOUT_SECONDS" (pos 30);
    http_idle_timeout = duration_seconds env "HTTP_IDLE_TIMEOUT_SECONDS" (pos 120);
    shutdown_timeout = duration_seconds env "SHUTDOWN_TIMEOUT_SECONDS" (pos 10);
    kafka_brokers = list_with_fallback env "KAFKA_BROKERS" ("kafka:9092" ∷ []);
    kafka_group_id = non_empty_string env "KAFKA_GROUP_ID" "alert-service";
    redis_addr = non_empty_string env "REDIS_ADDR" "redis:6379";
    redis_password = string env "REDIS_PASSWORD" "";
    trace_otlp_endpoint = non_empty_string env "TRACE_OTLP_ENDPOINT" "jaeger:4317";
    trace_sample_rate = float_range parse_float less env "TRACE_SAMPLE_RATE" one zero one;
  }

  unfoldable pub checks : Addresses → Config Float → List (Option GoError)
  unfolding refuse_if when is_empty
  checks A c =
      refuse_if (c.listen_addr == "") "LISTEN_ADDR is required"
      ∷ validate_host_port A "LISTEN_ADDR" c.listen_addr
      ∷ refuse_if (is_empty c.kafka_brokers) "KAFKA_BROKERS is required"
      ∷ validate_brokers A c.kafka_brokers
      ∷ refuse_if (c.kafka_group_id == "") "KAFKA_GROUP_ID is required"
      ∷ refuse_if (c.redis_addr == "") "REDIS_ADDR is required"
      ∷ validate_host_port A "REDIS_ADDR" c.redis_addr
      ∷ when (not (c.trace_otlp_endpoint == ""))
          (validate_host_port A "TRACE_OTLP_ENDPOINT" c.trace_otlp_endpoint)
      ∷ refuse_if (leb_ℤ c.shutdown_timeout (pos 0)) "SHUTDOWN_TIMEOUT_SECONDS must be positive"
      ∷ []

  unfoldable pub validate : Addresses → Config Float → Option GoError
  unfolding first_error checks
  validate A c = first_error (checks A c)
