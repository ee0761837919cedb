-- ===== src/Prometheus/Range.antt =====
-- The range queries of server-web/prometheus/client.go.
use server_monitor.Base.{String, not, ◌||◌, List, [], ◌∷◌, ◌==◌, eqb, if◌then◌else◌}
use server_monitor.Base.Int.{ℤ, pos, leb_ℤ}
use server_monitor.Base.Text.{append}
use server_monitor.Base.Numbers.{format_uint}
use server_monitor.Base.Keyed.{Keyed}
use server_monitor.Errors.{message, wrapped, Result, ok, err, ◌>>=◌}
use server_monitor.Hosts.{Floats}
use server_monitor.Prometheus.{
  Readings, Raw, VectorResult, ApiResponse, Fetched, not_built, not_sent, answered, parse_float,
  parse_timestamp,
}
use server_monitor.Prometheus.Queries.{build_query}

module _ (F : Floats) (M : Readings F) where
  pub record RangePoint : Type 0 where
    pub timestamp : M.Moment
    pub value : F.Float

  pub record RangeSeries : Type 0 where
    pub metric : Keyed String
    pub values : List RangePoint

  parse_point : List (Raw F) → Result RangePoint
  unfolding parse_timestamp parse_float
  parse_point [] = err (message "unexpected prometheus range value format")
  parse_point (a ∷ []) = err (message "unexpected prometheus range value format")
  parse_point (a ∷ b ∷ []) =
      parse_timestamp F M a
      >>= (λ at. parse_float F M b >>= (λ f. ok (record { timestamp = at; value = f })))
  parse_point (a ∷ b ∷ c ∷ more) = err (message "unexpected prometheus range value format")

  parse_points : List (List (Raw F)) → Result (List RangePoint)
  unfolding parse_point
  parse_points [] = ok []
  parse_points (raw ∷ raws) =
      let rest = parse_points raws in
      parse_point raw >>= (λ point. rest >>= (λ points. ok (point ∷ points)))

  unfoldable pub parse_range_result : VectorResult F → Result RangeSeries
  unfolding parse_points
  parse_range_result item =
      parse_points item.values >>= (λ points. ok (record { metric = item.metric; values = points }))

  parse_series : List (VectorResult F) → Result (List RangeSeries)
  unfolding parse_range_result
  parse_series [] = ok []
  parse_series (item ∷ items) =
      let rest = parse_series items in
      parse_range_result item >>= (λ series. rest >>= (λ more. ok (series ∷ more)))

  payload_series : ApiResponse F → Result (List RangeSeries)
  unfolding parse_series
  payload_series payload =
      if not (payload.status == "success")
      then err (
          message (
            if not (payload.error == "")
            then append "prometheus range query error: " payload.error
            else append "prometheus range query failed with status " payload.status))
      else parse_series payload.result

  decoded_series : Result (ApiResponse F) → Result (List RangeSeries)
  unfolding payload_series
  decoded_series (err e) = err (wrapped "decode prometheus range response" e)
  decoded_series (ok payload) = payload_series payload

  fetched_series : Fetched F → Result (List RangeSeries)
  unfolding decoded_series format_uint
  fetched_series (not_built e) = err (wrapped "build prometheus range query request" e)
  fetched_series (not_sent e) = err (wrapped "range query prometheus failed" e)
  fetched_series (answered code body) =
      if not (eqb code 200)
      then err (message (append "range query prometheus returned status " (format_uint code)))
      else decoded_series body

  -- The request has a query, a start, an end and a step.
  unfoldable pub query_range_of :
      (String → String → String → String → Fetched F)
      → String
      → M.Moment
      → M.Moment
      → ℤ
      → Result (List RangeSeries)
  unfolding fetched_series
  query_range_of fetch query start end step =
      if M.is_zero start || M.is_zero end
      then err (message "range query start and end are required")
      else if not (M.after end start)
      then err (message "range query end must be after start")
      else if leb_ℤ step (pos 0)
      then err (message "range query step must be positive")
      else fetched_series (
          fetch query (M.format_prometheus_time start) (M.format_prometheus_time end)
            (M.format_prometheus_step step))

  unfoldable pub query_range :
      (String → String)
      → (String → String → String → String → Fetched F)
      → String
      → String
      → Keyed String
      → M.Moment
      → M.Moment
      → ℤ
      → Result (List RangeSeries)
  unfolding query_range_of build_query
  query_range quote fetch metric name params start end step =
      build_query quote metric name params >>= (λ query. query_range_of fetch query start end step)
