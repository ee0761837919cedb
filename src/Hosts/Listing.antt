-- ===== src/Hosts/Listing.antt =====
-- Which hosts the list of hosts holds.
use server_monitor.Base.{String, Bool, not, ◌&&◌, ◌||◌, ◌==◌}
use server_monitor.Base.Text.{to_lower, contains}
use server_monitor.Base.Keyed.{member}
use server_monitor.Hosts.{Floats, Host, ListOptions}

module _ (F : Floats) where
  -- What each filter asks of a host; an empty text asks for nothing.
  abbrev pub in_group : ListOptions F → Host F → Bool
  in_group options host =
      not options.group_filtered || member host.host_instance options.group_instances

  abbrev pub has_status : String → Host F → Bool
  has_status status host =
      (status == "")
      || (((status == "up") && (host.status == "up"))
          || ((status == "down") && not (host.status == "up")))

  abbrev pub has_query : String → Host F → Bool
  has_query query host = (query == "") || contains (to_lower host.host_instance) query

  abbrev pub has_risk : String → Host F → Bool
  has_risk risk host =
      (risk == "")
      || (((risk == "high_cpu") && F.at_least host.cpu (F.of_nat 80))
          || ((risk == "high_memory") && F.at_least host.memory (F.of_nat 85)))

  abbrev pub matches : ListOptions F → Host F → Bool
  matches options host =
      in_group options host
      && (has_status options.status host
          && (has_query options.query host && has_risk options.risk host))
