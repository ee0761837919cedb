-- ===== src/WebRedis/Implements.antt =====
-- The client implements the interface CacheClient of the alert service, laws included.
use server_monitor.Base.{Bool}
use server_monitor.WebAlerts.Cache.{Cache}
use server_monitor.WebRedis.{
  Server, client_h_set, client_h_del, client_h_get_all, client_publish, client_add_alert_event_once,
  client_x_rev_range_n,
}
use server_monitor.WebRedis.Script.{ServerLaws}

module _ (R : Server) (L : ServerLaws R) (enabled : Bool) where
  -- The client as the cache of the alert service.
  abbrev pub client_cache : Cache
  client_cache = record {
    State = R.State;
    h_set = client_h_set R enabled;
    h_del = client_h_del R enabled;
    h_get_all = client_h_get_all R enabled;
    add_alert_event_once = client_add_alert_event_once R enabled;
    x_rev_range_n = client_x_rev_range_n R enabled;
    publish = client_publish R enabled;
    field = R.field;
    exists = R.exists;
    entries = R.entries;
  }
