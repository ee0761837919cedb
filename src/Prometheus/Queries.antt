-- ===== src/Prometheus/Queries.antt =====
-- server-web/prometheus/queries.go. strconv.Quote is a parameter.
use server_monitor.Base.{
  String, ◌≡◌, refl, Bool, true, false, not, ◌&&◌, Option, none, some, [], ◌∷◌, ◌==◌, if◌then◌else◌,
  All, Bool-cases, inl, inr,
}
use server_monitor.Base.Text.{append, trim_space}
use server_monitor.Base.Keyed.{Keyed, lookup, label}
use server_monitor.Errors.{message, Result, ok, err, is_ok}
use server_monitor.Hosts.{build_metric_queries}
use server_monitor.Prometheus.HostList.{query_host_up}

pub record QueryTemplate : Type 0 where
  pub requires_instance : Bool
  pub build : String → Keyed String → Result String

module _ (quote : String → String) where
  unfoldable pub with_instance : String → String → String
  with_instance metric_name name =
      append metric_name (append "{instance=" (append (quote name) "}"))

  of_instance_metric : String → QueryTemplate
  unfolding with_instance
  of_instance_metric metric_name = record {
    requires_instance = true;
    build = λ name params. ok (with_instance metric_name name);
  }

  disk_query : String → Keyed String → Result String
  unfolding label
  disk_query name params =
      let mountpoint = label "mountpoint" params in
      if mountpoint == ""
      then ok (
          append "max by (instance) (server_monitor_disk_usage_percent{instance="
            (append (quote name) "})"))
      else ok (
          append "server_monitor_disk_usage_percent{instance="
            (append (quote name) (append ",mountpoint=" (append (quote mountpoint) "}"))))

  rate_of : String → QueryTemplate
  rate_of metric_name = record {
    requires_instance = true;
    build = λ name params.
        ok (
          append "rate(" (append metric_name (append "{instance=" (append (quote name) "}[5m])"))));
  }

  constant_query : String → QueryTemplate
  constant_query query = record { requires_instance = false; build = λ name params. ok query }

  unfoldable pub query_templates : Keyed QueryTemplate
  unfolding of_instance_metric disk_query rate_of constant_query
  query_templates =
      ("cpu_usage", of_instance_metric "server_monitor_cpu_usage_percent")
      ∷ ("memory_usage", of_instance_metric "server_monitor_memory_usage_percent")
      ∷ ("memory_total", of_instance_metric "server_monitor_memory_total_bytes")
      ∷ ("memory_available", of_instance_metric "server_monitor_memory_available_bytes")
      ∷ ("disk_usage", record { requires_instance = true; build = disk_query })
      ∷ ("network_recv", rate_of "server_monitor_network_recv_bytes_total")
      ∷ ("network_sent", rate_of "server_monitor_network_sent_bytes_total")
      ∷ ("load1", of_instance_metric "server_monitor_load1")
      ∷ ("load5", of_instance_metric "server_monitor_load5")
      ∷ ("load15", of_instance_metric "server_monitor_load15")
      ∷ ("process_count", of_instance_metric "server_monitor_process_count")
      ∷ ("uptime", of_instance_metric "server_monitor_uptime_seconds")
      ∷ ("host_list", constant_query query_host_up)
      ∷ ("active_alerts", constant_query "ALERTS{alertstate=\"firing\"}")
      ∷ []

  built : String → Option QueryTemplate → String → Keyed String → Result String
  built metric none name params = err (message (append "unknown metric: " metric))
  built metric (some template) name params =
      if template.requires_instance && (name == "")
      then err (message (append "instance is required for metric " metric))
      else template.build name params

  -- A nil map of parameters reads like an empty one.
  unfoldable pub build_query : String → String → Keyed String → Result String
  unfolding built query_templates lookup
  build_query metric name params = built metric (lookup metric query_templates) name params

  disk_query_ok : (name : String) (params : Keyed String) → is_ok (disk_query name params) ≡ true
  unfolding disk_query
  disk_query_ok name params = elim (Bool-cases (label "mountpoint" params == "")) [
    | inl y ↦ rw y refl
    | inr n ↦ rw n refl
  ]

  -- The page of a host asks for eight metrics. For a host that has a name, each of them has a query,
  -- whatever mountpoint is asked for.
  build_metric_queries-build_query :
      (mountpoint name : String)
      → (name == "") ≡ false
      → All
          (λ q. is_ok (build_query q.metric name q.params) ≡ true)
          (build_metric_queries mountpoint)
  unfolding build_metric_queries build_query
  build_metric_queries-build_query mountpoint name h =
      let trimmed = trim_space mountpoint in
      let params = if not (trimmed == "") then ("mountpoint", trimmed) ∷ [] else [] in
      rw h (refl, (refl, (disk_query_ok name params, (refl, (refl, (refl, (refl, (refl, tt))))))))
