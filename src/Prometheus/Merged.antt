-- ===== src/Prometheus/Merged.antt =====
-- The map of hosts that GetHosts fills, seen from one instance.
use server_monitor.Base.{
  String, ◌≡◌, refl, ◌∙◌, ap, Option, none, some, List, [], ◌∷◌, ◌==◌, eq_iff, eq_refl, filter_by,
  if◌then◌else◌, Bool-cases, inl, inr,
}
use server_monitor.Base.Keyed.{Keyed, lookup, lookup-insert}
use server_monitor.Hosts.{Floats, Host}
use server_monitor.Prometheus.{Readings, MetricValue}
use server_monitor.Prometheus.HostList.{
  new_host, held_or_new, update_last_scrape, set_up, set_cpu, set_memory, merge_samples,
}

module _ (F : Floats) (M : Readings F) where
  -- The samples of one instance.
  abbrev pub of_instance : String → List (MetricValue F M) → List (MetricValue F M)
  of_instance name items = filter_by (λ item. item.metric_instance == name) items

  -- A host that samples change in turn.
  abbrev pub in_turn :
      (MetricValue F M → Host F → Host F) → List (MetricValue F M) → Host F → Host F
  in_turn change [] host = host
  in_turn change (item ∷ items) host = in_turn change items (change item host)

  -- What samples of an instance make of the host that is held, if any is.
  abbrev pub grown :
      (MetricValue F M → Host F → Host F)
      → String
      → List (MetricValue F M)
      → Option (Host F)
      → Option (Host F)
  grown change name [] held = held
  grown change name (item ∷ items) held =
      some (in_turn change (item ∷ items) (held_or_new F M name held))

  grown-held :
      (change : MetricValue F M → Host F → Host F) (name : String) (items : List (MetricValue F M))
      (host : Host F)
      → grown change name items (some host) ≡ some (in_turn change items host)
  grown-held change name [] host = refl
  grown-held change name (item ∷ items) host = refl

  lookup-merge_samples :
      (change : MetricValue F M → Host F → Host F) (name : String) (items : List (MetricValue F M))
      (hosts : Keyed (Host F))
      → lookup name (merge_samples F M change items hosts)
        ≡ grown change name (of_instance name items) (lookup name hosts)
  unfolding merge_samples filter_by
  lookup-merge_samples change name [] hosts = refl
  lookup-merge_samples change name (item ∷ items) hosts =
      lookup-merge_samples change name items _ ∙ elim (Bool-cases (item.metric_instance == name)) [
        | inl same ↦
            rw (lookup-insert, (eq_iff item.metric_instance name).0 same, eq_refl name)
              (grown-held change name (of_instance name items) _)
        | inr other ↦ rw (lookup-insert, other) refl
      ]

  -- The last sample's value, or one that stood there.
  abbrev pub last_value : F.Float → List (MetricValue F M) → F.Float
  last_value held [] = held
  last_value held (item ∷ items) = last_value item.value items

  abbrev pub last_status : String → List (MetricValue F M) → String
  last_status held [] = held
  last_status held (item ∷ items) =
      last_status (if F.at_least item.value (F.of_nat 1) then "up" else "down") items

  abbrev pub last_time : String → List (MetricValue F M) → String
  last_time held [] = held
  last_time held (item ∷ items) = last_time (M.rfc3339 item.timestamp) items

  -- The time of the last scrape after samples that set it only if they are newer.
  abbrev pub newest_time : String → List (MetricValue F M) → String
  newest_time held [] = held
  newest_time held (item ∷ items) = newest_time (update_last_scrape F M held item.timestamp) items

  in_turn-set_up :
      (items : List (MetricValue F M)) (host : Host F)
      → in_turn (set_up F M) items host ≡ record host {
        status = last_status host.status items;
        last_scrape = last_time host.last_scrape items;
      }
  unfolding set_up
  in_turn-set_up [] host = refl
  in_turn-set_up (item ∷ items) host = in_turn-set_up items (set_up F M item host)

  in_turn-set_cpu :
      (items : List (MetricValue F M)) (host : Host F)
      → in_turn (set_cpu F M) items host ≡ record host {
        cpu = last_value host.cpu items;
        last_scrape = newest_time host.last_scrape items;
      }
  unfolding set_cpu
  in_turn-set_cpu [] host = refl
  in_turn-set_cpu (item ∷ items) host = in_turn-set_cpu items (set_cpu F M item host)

  in_turn-set_memory :
      (items : List (MetricValue F M)) (host : Host F)
      → in_turn (set_memory F M) items host ≡ record host {
        memory = last_value host.memory items;
        last_scrape = newest_time host.last_scrape items;
      }
  unfolding set_memory
  in_turn-set_memory [] host = refl
  in_turn-set_memory (item ∷ items) host = in_turn-set_memory items (set_memory F M item host)

  -- The host that the samples of an instance tell of.
  abbrev pub told_host :
      String → List (MetricValue F M) → List (MetricValue F M) → List (MetricValue F M) → Host F
  told_host name ups cpus memories = record {
    host_instance = name;
    cpu = last_value (F.of_nat 0) cpus;
    memory = last_value (F.of_nat 0) memories;
    status = last_status "unknown" ups;
    last_scrape = newest_time (newest_time (last_time "" ups) cpus) memories;
  }

  -- There is no host without samples.
  abbrev pub told :
      String
      → List (MetricValue F M)
      → List (MetricValue F M)
      → List (MetricValue F M)
      → Option (Host F)
  told name [] [] [] = none
  told name (item ∷ ups) cpus memories = some (told_host name (item ∷ ups) cpus memories)
  told name [] (item ∷ cpus) memories = some (told_host name [] (item ∷ cpus) memories)
  told name [] [] (item ∷ memories) = some (told_host name [] [] (item ∷ memories))

  grown-told :
      (name : String) (ups cpus memories : List (MetricValue F M))
      → grown
          (set_memory F M)
          name
          memories
          (grown (set_cpu F M) name cpus (grown (set_up F M) name ups none))
        ≡ told name ups cpus memories
  grown-told name [] [] [] = refl
  grown-told name [] [] (m ∷ ms) = ap some (in_turn-set_memory (m ∷ ms) (new_host F M name))
  grown-told name [] (c ∷ cs) ms =
      grown-held (set_memory F M) name ms _
      ∙ ap some (
          ap (in_turn (set_memory F M) ms) (in_turn-set_cpu (c ∷ cs) (new_host F M name))
          ∙ in_turn-set_memory ms _)
  grown-told name (u ∷ us) cs ms =
      ap (grown (set_memory F M) name ms) (grown-held (set_cpu F M) name cs _)
      ∙ grown-held (set_memory F M) name ms _
      ∙ ap some (
          ap (λ host. in_turn (set_memory F M) ms (in_turn (set_cpu F M) cs host))
            (in_turn-set_up (u ∷ us) (new_host F M name))
          ∙ ap (in_turn (set_memory F M) ms) (in_turn-set_cpu cs _)
          ∙ in_turn-set_memory ms _)

  -- The map: the host under a name, from the samples.
  pub lookup-merged :
      (name : String) (ups cpus memories : List (MetricValue F M))
      → lookup name (
          merge_samples F M
            (set_memory F M)
            memories
            (merge_samples F M (set_cpu F M) cpus (merge_samples F M (set_up F M) ups [])))
        ≡ told name (of_instance name ups) (of_instance name cpus) (of_instance name memories)
  unfolding lookup
  lookup-merged name ups cpus memories =
      lookup-merge_samples (set_memory F M) name memories _
      ∙ ap (grown (set_memory F M) name (of_instance name memories)) (
          lookup-merge_samples (set_cpu F M) name cpus _
          ∙ ap (grown (set_cpu F M) name (of_instance name cpus))
              (lookup-merge_samples (set_up F M) name ups []))
      ∙ grown-told name (of_instance name ups) (of_instance name cpus) (of_instance name memories)
