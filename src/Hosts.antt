-- ===== src/Hosts.antt =====
-- server-web/host/service.go and the hosts of server-web/cache/service.go: the list of hosts with its
-- filters and orders, the metrics page and the dashboard.
pub mod Listing
pub mod Order
mod Tests
use server_monitor.Base.{
  ℕ, ◌+◌, ◌*◌, ◌/◌, String, Bool, true, false, not, ◌&&◌, ◌||◌, Option, none, some, List, [], ◌∷◌,
  length, ◌==◌, ltb, if◌then◌else◌,
}
use server_monitor.Base.Text.{trim_space, to_lower, contains, text_less}
use server_monitor.Base.Sort.{sort_stable}
use server_monitor.Base.Keyed.{Keyed, lookup, insert, member}
use server_monitor.Errors.{GoError, wrapped, Result, ok, err}
use server_monitor.Times.{Time}

-- float64 without NaN: what the code asks of it.
pub record Floats : Type 1 where
  pub Float : Type 0
  pub of_nat : ℕ → Float
  pub at_least : Float → Float → Bool
  pub same : Float → Float → Bool
  pub above : Float → Float → Bool
  pub plus : Float → Float → Float
  pub divided : Float → Float → Float

abbrev pub valid_statuses : List String
valid_statuses = "up" ∷ "down" ∷ []

abbrev pub valid_sorts : List String
valid_sorts = "instance" ∷ "cpu_desc" ∷ "memory_desc" ∷ []

abbrev pub valid_risks : List String
valid_risks = "high_cpu" ∷ "high_memory" ∷ []

unfoldable pub parse_status : String → String
unfolding member
parse_status raw = if not (member raw valid_statuses) then "" else raw

unfoldable pub normalize_query : String → String
normalize_query raw = to_lower (trim_space raw)

unfoldable pub parse_sort : String → String
unfolding member
parse_sort raw = if not (member raw valid_sorts) then "instance" else raw

unfoldable pub parse_risk : String → String
unfolding member
parse_risk raw = if not (member raw valid_risks) then "" else raw

-- in seconds
pub record MetricsRange : Type 0 where
  pub duration : ℕ
  pub step : ℕ

abbrev pub valid_metrics_ranges : Keyed MetricsRange
valid_metrics_ranges =
    ("15m", record { duration = 900; step = 15 })
    ∷ ("1h", record { duration = 3600; step = 60 })
    ∷ ("6h", record { duration = 21600; step = 300 })
    ∷ ("24h", record { duration = 86400; step = 900 })
    ∷ []

-- The name, and the range if the name is one of the four.
unfoldable pub parse_metrics_range : String → String × Option MetricsRange
unfolding lookup
parse_metrics_range raw =
    let name = if raw == "" then "1h" else raw in (name, lookup name valid_metrics_ranges)

pub record MetricQuery : Type 0 where
  pub name : String
  pub metric : String
  pub params : Keyed String

abbrev plain_query : String → String → MetricQuery
plain_query name metric = record { name = name; metric = metric; params = [] }

unfoldable pub build_metric_queries : String → List MetricQuery
build_metric_queries mountpoint =
    let trimmed = trim_space mountpoint in
    plain_query "cpu" "cpu_usage"
    ∷ plain_query "memory" "memory_usage"
    ∷ record {
      name = "disk";
      metric = "disk_usage";
      params = if not (trimmed == "") then ("mountpoint", trimmed) ∷ [] else [];
    }
    ∷ plain_query "network_recv" "network_recv"
    ∷ plain_query "network_sent" "network_sent"
    ∷ plain_query "load1" "load1"
    ∷ plain_query "process_count" "process_count"
    ∷ plain_query "uptime" "uptime"
    ∷ []

-- QueryMetrics runs a goroutine for each query. In the order in which they take the lock, each adds
-- its series, or keeps the first error; the answers may depend on an earlier error's cancellation.
unfoldable pub query_metrics {ℓ} :
    {S : Type ℓ} → List (String × Result S) → Option GoError → Keyed S → Option GoError × Keyed S
unfolding insert
query_metrics [] first_err metrics = (first_err, metrics)
query_metrics ((name, ok series) ∷ answers) first_err metrics =
    query_metrics answers first_err (insert name series metrics)
query_metrics ((name, err e) ∷ answers) first_err metrics =
    query_metrics answers
      (elim first_err [ none ↦ some (wrapped "query host metric failed" e) | some f ↦ some f ])
      metrics

module _ (F : Floats) where
  pub record Host : Type 0 where
    pub host_instance : String
    pub cpu : F.Float
    pub memory : F.Float
    pub status : String
    pub last_scrape : String

  pub record ListOptions : Type 0 where
    pub status : String
    pub query : String
    pub sort : String
    pub risk : String
    pub group_filtered : Bool
    pub group_instances : List String

  instances_loop : List Host → List String → List Host
  unfolding member
  instances_loop [] instances = []
  instances_loop (host ∷ hosts) instances =
      let rest = instances_loop hosts instances in
      if member host.host_instance instances then host ∷ rest else rest

  unfoldable pub filter_by_instances : List Host → List String → List Host
  unfolding instances_loop
  filter_by_instances hosts [] = []
  filter_by_instances hosts (i ∷ is) = instances_loop hosts (i ∷ is)

  status_loop : List Host → String → List Host
  status_loop [] status_filter = []
  status_loop (host ∷ hosts) status_filter =
      let rest = status_loop hosts status_filter in
      let is_up = host.status == "up" in
      if (status_filter == "up") && is_up
      then host ∷ rest
      else if (status_filter == "down") && not is_up
      then host ∷ rest
      else rest

  unfoldable pub filter_by_status : List Host → String → List Host
  unfolding status_loop
  filter_by_status hosts status_filter =
      if status_filter == "" then hosts else status_loop hosts status_filter

  query_loop : List Host → String → List Host
  query_loop [] query_filter = []
  query_loop (host ∷ hosts) query_filter =
      let rest = query_loop hosts query_filter in
      if contains (to_lower host.host_instance) query_filter then host ∷ rest else rest

  unfoldable pub filter_by_query : List Host → String → List Host
  unfolding query_loop
  filter_by_query hosts query_filter =
      if query_filter == "" then hosts else query_loop hosts query_filter

  risk_loop : List Host → String → List Host
  risk_loop [] risk_filter = []
  risk_loop (host ∷ hosts) risk_filter =
      let rest = risk_loop hosts risk_filter in
      if risk_filter == "high_cpu"
      then (if F.at_least host.cpu (F.of_nat 80) then host ∷ rest else rest)
      else if risk_filter == "high_memory"
      then (if F.at_least host.memory (F.of_nat 85) then host ∷ rest else rest)
      else rest

  unfoldable pub filter_by_risk : List Host → String → List Host
  unfolding risk_loop
  filter_by_risk hosts risk_filter =
      if risk_filter == "" then hosts else risk_loop hosts risk_filter

  unfoldable pub filter : List Host → String → String → String → List Host
  filter hosts status_filter query_filter risk_filter =
      filter_by_risk (filter_by_query (filter_by_status hosts status_filter) query_filter)
        risk_filter

  -- The tests of the three closures.
  abbrev pub less_by_instance : Host → Host → Bool
  less_by_instance a b = text_less a.host_instance b.host_instance

  abbrev pub less_by_cpu : Host → Host → Bool
  less_by_cpu a b =
      if F.same a.cpu b.cpu then text_less a.host_instance b.host_instance else F.above a.cpu b.cpu

  abbrev pub less_by_memory : Host → Host → Bool
  less_by_memory a b =
      if F.same a.memory b.memory
      then text_less a.host_instance b.host_instance
      else F.above a.memory b.memory

  abbrev pub less_by : String → Host → Host → Bool
  less_by sort_by =
      if sort_by == "cpu_desc"
      then less_by_cpu
      else if sort_by == "memory_desc"
      then less_by_memory
      else less_by_instance

  unfoldable pub sort_hosts : List Host → String → List Host
  sort_hosts hosts sort_by = sort_stable (less_by sort_by) hosts

  module _ {S : Type 0} (get_hosts : S → Option (List Host)) (cache_hosts : List Host → S → S) where
    -- What is listed of the hosts that are known.
    list_of : ListOptions → List Host → List Host
    unfolding filter sort_hosts
    list_of options hosts =
        let grouped =
          if options.group_filtered
          then filter_by_instances hosts options.group_instances
          else hosts in
        sort_hosts (filter grouped options.status options.query options.risk) options.sort

    fetched_hosts : Bool → ListOptions → Result (List Host) → S → Result (List Host) × S
    unfolding list_of
    fetched_hosts has_cache options (err e) s = (err e, s)
    fetched_hosts has_cache options (ok hosts) s =
        (ok (list_of options hosts), (if has_cache then cache_hosts hosts s else s))

    cached_or_fetched :
        Bool → Option (List Host) → ListOptions → Result (List Host) → S → Result (List Host) × S
    unfolding fetched_hosts list_of
    cached_or_fetched has_cache (some cached) options fetched s = (ok (list_of options cached), s)
    cached_or_fetched has_cache none options fetched s = fetched_hosts has_cache options fetched s

    is_empty : List String → Bool
    is_empty [] = true
    is_empty (i ∷ is) = false

    -- Hosts; `fetched` is what the Prometheus client would answer
    unfoldable pub hosts : Bool → ListOptions → Result (List Host) → S → Result (List Host) × S
    unfolding cached_or_fetched is_empty
    hosts has_cache options fetched s =
        if options.group_filtered && is_empty options.group_instances
        then (ok [], s)
        else cached_or_fetched has_cache (if has_cache then get_hosts s else none) options fetched s

  pub record DashboardOverview : Type 0 where
    pub total_hosts : ℕ
    pub healthy_hosts : ℕ
    pub down_hosts : ℕ
    pub avg_cpu : F.Float
    pub avg_memory : F.Float

  -- The loop's variables.
  pub record Totals : Type 0 where
    pub healthy : ℕ
    pub down : ℕ
    pub total_cpu : F.Float
    pub total_memory : F.Float

  abbrev add_host : Host → Totals → Totals
  add_host host t =
      let is_up = host.status == "up" in
      record {
        healthy = if is_up then t.healthy + 1 else t.healthy;
        down = if is_up then t.down else t.down + 1;
        total_cpu = if is_up then F.plus t.total_cpu host.cpu else t.total_cpu;
        total_memory = if is_up then F.plus t.total_memory host.memory else t.total_memory;
      }

  unfoldable pub add_hosts : List Host → Totals → Totals
  add_hosts [] t = t
  add_hosts (host ∷ hosts) t = add_hosts hosts (add_host host t)

  -- With no host, or no healthy one, the averages are 0.
  unfoldable pub build_dashboard_overview : List Host → DashboardOverview
  unfolding add_hosts
  build_dashboard_overview hosts =
      let t =
        add_hosts hosts
          (record { healthy = 0; down = 0; total_cpu = F.of_nat 0; total_memory = F.of_nat 0 }) in
      record {
        total_hosts = length hosts;
        healthy_hosts = t.healthy;
        down_hosts = t.down;
        avg_cpu =
            if ltb 0 t.healthy then F.divided t.total_cpu (F.of_nat t.healthy) else F.of_nat 0;
        avg_memory =
            if ltb 0 t.healthy then F.divided t.total_memory (F.of_nat t.healthy) else F.of_nat 0;
      }
