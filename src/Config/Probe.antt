-- ===== src/Config/Probe.antt =====
-- server-probe/config/config.go. The name of the host is a parameter, as os.Hostname gives it.
use server_monitor.Base.{String, Bool, not, Option, List, [], ◌∷◌, ◌==◌, if◌then◌else◌}
use server_monitor.Base.Int.{ℤ, pos, leb_ℤ}
use server_monitor.Base.Text.{has_prefix}
use server_monitor.Errors.{GoError, Result, ok, err}
use server_monitor.Config.Env.{
  Env, string, non_empty_string, positive_int, duration_seconds, float_range,
}
use server_monitor.Config.Addresses.{Addresses, validate_host_port, first_error, refuse_if, when}

pub record Config (Float : Type 0) : Type 0 where
  pub listen_addr : String
  pub metrics_path : String
  pub scrape_interval : ℤ
  pub prom_http_max_requests_in_flight : ℤ
  pub prom_http_timeout : ℤ
  pub http_read_timeout : ℤ
  pub http_write_timeout : ℤ
  pub http_idle_timeout : ℤ
  pub shutdown_timeout : ℤ
  pub hostname : String
  pub host_proc : String
  pub host_sys : String
  pub trace_otlp_endpoint : String
  pub trace_sample_rate : Float

unfoldable pub get_hostname : Result String → String
get_hostname (err e) = "unknown"
get_hostname (ok h) = if not (h == "") then h else "unknown"

unfoldable pub get_env_path : Env → String → String → String
unfolding has_prefix non_empty_string
get_env_path env key fallback =
    let value = non_empty_string env key fallback in
    if not (has_prefix value "/") then fallback else value

module _ {Float : Type 0} where
  unfoldable pub load :
      (String → Option Float)
      → (Float → Float → Bool)
      → Float
      → Float
      → Result String
      → Env
      → Config Float
  unfolding get_hostname get_env_path
  load parse_float less zero one os_hostname env = record {
    listen_addr = non_empty_string env "LISTEN_ADDR" ":9090";
    metrics_path = get_env_path env "METRICS_PATH" "/metrics";
    scrape_interval = duration_seconds env "SCRAPE_INTERVAL" (pos 5);
    prom_http_max_requests_in_flight = positive_int env "PROMHTTP_MAX_REQUESTS_IN_FLIGHT" (pos 5);
    prom_http_timeout = duration_seconds env "PROMHTTP_TIMEOUT" (pos 5);
    http_read_timeout = duration_seconds env "HTTP_READ_TIMEOUT" (pos 10);
    http_write_timeout = duration_seconds env "HTTP_WRITE_TIMEOUT" (pos 10);
    http_idle_timeout = duration_seconds env "HTTP_IDLE_TIMEOUT" (pos 60);
    shutdown_timeout = duration_seconds env "SHUTDOWN_TIMEOUT" (pos 5);
    hostname = string env "HOSTNAME" (get_hostname os_hostname);
    host_proc = string env "HOST_PROC" "";
    host_sys = string env "HOST_SYS" "";
    trace_otlp_endpoint = non_empty_string env "TRACE_OTLP_ENDPOINT" "";
    trace_sample_rate = float_range parse_float less env "TRACE_SAMPLE_RATE" one zero one;
  }

  unfoldable pub checks : Addresses → Config Float → List (Option GoError)
  unfolding refuse_if when has_prefix
  checks A c =
      refuse_if (c.listen_addr == "") "LISTEN_ADDR is required"
      ∷ validate_host_port A "LISTEN_ADDR" c.listen_addr
      ∷ refuse_if (c.metrics_path == "") "METRICS_PATH is required"
      ∷ refuse_if (not (has_prefix c.metrics_path "/")) "METRICS_PATH must start with /"
      ∷ when (not (c.trace_otlp_endpoint == ""))
          (validate_host_port A "TRACE_OTLP_ENDPOINT" c.trace_otlp_endpoint)
      ∷ refuse_if (leb_ℤ c.scrape_interval (pos 0)) "SCRAPE_INTERVAL must be positive"
      ∷ refuse_if (leb_ℤ c.shutdown_timeout (pos 0)) "SHUTDOWN_TIMEOUT must be positive"
      ∷ []

  unfoldable pub validate : Addresses → Config Float → Option GoError
  unfolding first_error checks
  validate A c = first_error (checks A c)
