-- ===== src/Prometheus/HostList.antt =====
-- GetHosts of server-web/prometheus/client.go: three queries, and the hosts that their samples tell of.
use server_monitor.Base.{String, Bool, true, Option, none, some, List, [], ◌∷◌, ◌==◌, if◌then◌else◌}
use server_monitor.Base.Keyed.{Keyed, lookup, insert}
use server_monitor.Base.Sort.{sort_stable}
use server_monitor.Errors.{Result, ok, ◌>>=◌}
use server_monitor.Hosts.{Floats, Host, less_by_instance}
use server_monitor.Prometheus.{Readings, MetricValue, Fetched, query_instant_vector}

abbrev pub query_host_up : String
query_host_up = "up{job=\"server-probe\"}"

abbrev pub query_cpu_usage : String
query_cpu_usage = "server_monitor_cpu_usage_percent"

abbrev pub query_memory_usage : String
query_memory_usage = "server_monitor_memory_usage_percent"

module _ (F : Floats) (M : Readings F) where
  abbrev pub new_host : String → Host F
  new_host name = record {
    host_instance = name;
    cpu = F.of_nat 0;
    memory = F.of_nat 0;
    status = "unknown";
    last_scrape = "";
  }

  -- getOrCreateHost: the host that is held, or a new one.
  abbrev pub held_or_new : String → Option (Host F) → Host F
  held_or_new name none = new_host name
  held_or_new name (some host) = host

  unfoldable pub newer_scrape : String → M.Moment → Bool
  newer_scrape last at =
      if last == ""
      then true
      else elim (M.parse_rfc3339 last) [ none ↦ true | some t ↦ M.after at t ]

  -- updateLastScrape
  unfoldable pub update_last_scrape : String → M.Moment → String
  unfolding newer_scrape
  update_last_scrape last at = if newer_scrape last at then M.rfc3339 at else last

  -- What the three loops do to the host of a sample.
  unfoldable pub set_up : MetricValue F M → Host F → Host F
  set_up item host = record host {
    status = if F.at_least item.value (F.of_nat 1) then "up" else "down";
    last_scrape = M.rfc3339 item.timestamp;
  }

  unfoldable pub set_cpu : MetricValue F M → Host F → Host F
  unfolding update_last_scrape
  set_cpu item host = record host {
    cpu = item.value;
    last_scrape = update_last_scrape host.last_scrape item.timestamp;
  }

  unfoldable pub set_memory : MetricValue F M → Host F → Host F
  unfolding update_last_scrape
  set_memory item host = record host {
    memory = item.value;
    last_scrape = update_last_scrape host.last_scrape item.timestamp;
  }

  -- A loop over samples: the host of each is changed in the map.
  unfoldable pub merge_samples :
      (MetricValue F M → Host F → Host F) → List (MetricValue F M) → Keyed (Host F) → Keyed (Host F)
  unfolding lookup insert
  merge_samples change [] hosts = hosts
  merge_samples change (item ∷ items) hosts = merge_samples change items (
      insert item.metric_instance
        (change item (held_or_new item.metric_instance (lookup item.metric_instance hosts))) hosts)

  unfoldable pub finished : Keyed (Host F) → List (Host F)
  finished [] = []
  finished ((name, host) ∷ hosts) =
      (if host.status == "" then record host { status = "unknown" } else host) ∷ finished hosts

  unfoldable pub merged_hosts :
      List (MetricValue F M) → List (MetricValue F M) → List (MetricValue F M) → List (Host F)
  unfolding merge_samples finished set_up set_cpu set_memory
  merged_hosts up_values cpu_values memory_values = sort_stable (less_by_instance F) (
      finished (
        merge_samples set_memory memory_values
          (merge_samples set_cpu cpu_values (merge_samples set_up up_values []))))

  unfoldable pub get_hosts : (String → Fetched F) → Result (List (Host F))
  unfolding merged_hosts query_instant_vector
  get_hosts fetch = query_instant_vector F M (fetch query_host_up) >>= (λ up_values.
      query_instant_vector F M (fetch query_cpu_usage) >>= (λ cpu_values.
        query_instant_vector F M (fetch query_memory_usage)
        >>= (λ memory_values. ok (merged_hosts up_values cpu_values memory_values))))
