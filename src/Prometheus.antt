-- ===== src/Prometheus.antt =====
-- server-web/prometheus/client.go: what the client makes of Prometheus' answers. The exchange of a
-- request over HTTP with the decoding of its body is a parameter.
pub mod HostList
pub mod Merged
pub mod Listed
pub mod Queries
pub mod Range
mod Tests
use server_monitor.Base.{
  ℕ, String, Bool, true, false, not, List, [], ◌∷◌, ◌==◌, eqb, if◌then◌else◌, Option, none, some,
}
use server_monitor.Base.Int.{ℤ}
use server_monitor.Base.Text.{append}
use server_monitor.Base.Numbers.{format_uint}
use server_monitor.Base.Keyed.{Keyed, label}
use server_monitor.Errors.{GoError, message, wrapped, Result, ok, err, ◌>>=◌}
use server_monitor.Hosts.{Floats}

-- The instants of the package time and what the code asks of float64.
pub record Readings (F : Floats) : Type 1 where
  pub Moment : Type 0
  pub parse_float_text : String → Result F.Float
  pub to_int64 : F.Float → ℤ
  pub of_int64 : ℤ → F.Float
  pub minus : F.Float → F.Float → F.Float
  pub times : F.Float → F.Float → F.Float
  -- time.Unix of seconds and nanoseconds
  pub unix : ℤ → ℤ → Moment
  pub after : Moment → Moment → Bool
  pub rfc3339 : Moment → String
  pub parse_rfc3339 : String → Option Moment
  pub is_zero : Moment → Bool
  -- the number of seconds of an instant and of a duration, by strconv.FormatFloat
  pub format_prometheus_time : Moment → String
  pub format_prometheus_step : ℤ → String

module _ (F : Floats) where
  -- A value of JSON in an `interface{}`.
  pub data Raw : Type 0 where
    raw_number : F.Float → Raw
    raw_text : String → Raw
    raw_other : Raw

  pub record VectorResult : Type 0 where
    pub metric : Keyed String
    pub value : List Raw
    pub values : List (List Raw)

  pub record ApiResponse : Type 0 where
    pub status : String
    pub error : String
    pub result : List VectorResult

  -- A request may not be built or not be answered. An answer has a status code, and a body that may
  -- not be decoded.
  pub data Fetched : Type 0 where
    not_built not_sent : GoError → Fetched
    answered : ℕ → Result ApiResponse → Fetched

  module _ (M : Readings F) where
    pub record MetricValue : Type 0 where
      pub metric_instance : String
      pub value : F.Float
      pub timestamp : M.Moment

    unfoldable pub parse_float : Raw → Result F.Float
    parse_float (raw_number f) = ok f
    parse_float (raw_text text) = elim (M.parse_float_text text) [
      | ok f ↦ ok f
      | err e ↦ err (wrapped "parse float value" e)
    ]
    parse_float raw_other = err (message "unexpected value type")

    moment_of : F.Float → M.Moment
    moment_of f =
        let sec = M.to_int64 f in
        M.unix sec (M.to_int64 (M.times (M.minus f (M.of_int64 sec)) (F.of_nat 1000000000)))

    unfoldable pub parse_timestamp : Raw → Result M.Moment
    unfolding parse_float moment_of
    parse_timestamp raw = parse_float raw >>= (λ f. ok (moment_of f))

    instance_of : Keyed String → String
    unfolding label
    instance_of metric =
        if label "instance" metric == "" then label "job" metric else label "instance" metric

    parse_pair : String → List Raw → Result MetricValue
    unfolding parse_timestamp parse_float
    parse_pair name [] = err (message "unexpected prometheus value format")
    parse_pair name (a ∷ []) = err (message "unexpected prometheus value format")
    parse_pair name (a ∷ b ∷ []) = parse_timestamp a >>= (λ at.
        parse_float b >>= (λ f. ok (record { metric_instance = name; value = f; timestamp = at })))
    parse_pair name (a ∷ b ∷ c ∷ more) = err (message "unexpected prometheus value format")

    unfoldable pub parse_vector_result : VectorResult → Result MetricValue
    unfolding parse_pair instance_of
    parse_vector_result item = parse_pair (instance_of item.metric) item.value

    parse_results : List VectorResult → Result (List MetricValue)
    unfolding parse_vector_result
    parse_results [] = ok []
    parse_results (item ∷ items) =
        let rest = parse_results items in
        parse_vector_result item >>= (λ metric. rest >>= (λ metrics. ok (metric ∷ metrics)))

    payload_values : ApiResponse → Result (List MetricValue)
    unfolding parse_results
    payload_values payload =
        if not (payload.status == "success")
        then err (
            message (
              if not (payload.error == "")
              then append "prometheus query error: " payload.error
              else append "prometheus query failed with status " payload.status))
        else parse_results payload.result

    decoded_values : Result ApiResponse → Result (List MetricValue)
    unfolding payload_values
    decoded_values (err e) = err (wrapped "decode prometheus response" e)
    decoded_values (ok payload) = payload_values payload

    unfoldable pub query_instant_vector : Fetched → Result (List MetricValue)
    unfolding decoded_values format_uint
    query_instant_vector (not_built e) = err (wrapped "build prometheus query request" e)
    query_instant_vector (not_sent e) = err (wrapped "query prometheus failed" e)
    query_instant_vector (answered code body) =
        if not (eqb code 200)
        then err (message (append "query prometheus returned status " (format_uint code)))
        else decoded_values body

  -- Ready; the body is not read.
  unfoldable pub ready : Fetched → Option GoError
  unfolding format_uint
  ready (not_built e) = some (wrapped "build prometheus readiness request" e)
  ready (not_sent e) = some (wrapped "prometheus readiness check failed" e)
  ready (answered code body) =
      if not (eqb code 200)
      then some (message (append "prometheus readiness check returned status " (format_uint code)))
      else none
