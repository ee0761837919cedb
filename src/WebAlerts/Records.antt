-- ===== src/WebAlerts/Records.antt =====
-- server-web/webhook/alertmanager.go, the keys of server-web/redis/cache.go, and what
-- server-web/alert/service.go reads off an alert.
use server_monitor.Base.{String, Bool, List, [], ◌∷◌}
use server_monitor.Base.Text.{append}
use server_monitor.Base.Int.{ℤ, pos}
use server_monitor.Base.Keyed.{Keyed, member}
use server_monitor.Times.{Time, TimeFormat}
use server_monitor.AlertService.Event.{AlertEvent}

pub record AlertRecord : Type 0 where
  pub status : String
  pub fingerprint : String
  pub labels : Keyed String
  pub annotations : Keyed String
  pub starts_at : Time
  pub ends_at : Time
  pub generator_url : String

-- The alerts of the payload; the service reads no other field of it.
pub record AlertmanagerWebhookRequest : Type 0 where
  pub alerts : List AlertRecord

-- The webhook's event, and the event that goes to Kafka, have the fields of alert-service's event.
unfoldable pub new_alert_event : AlertRecord → Time → AlertEvent
new_alert_event alert received_at = record {
  type = "alert";
  fingerprint = alert.fingerprint;
  status = alert.status;
  labels = alert.labels;
  annotations = alert.annotations;
  starts_at = alert.starts_at;
  ends_at = alert.ends_at;
  generator_url = alert.generator_url;
  received_at = received_at;
}

abbrev pub active_alerts_key : String
active_alerts_key = "alert:active"

abbrev pub alert_events_key : String
alert_events_key = "alert:events"

abbrev pub alert_event_dedupe_key : String
alert_event_dedupe_key = "alert:event:dedupe"

abbrev pub alert_channel : String
alert_channel = "alert:channel"

abbrev pub alert_events_max : ℤ
alert_events_max = pos 200

abbrev pub valid_event_statuses : List String
valid_event_statuses = "firing" ∷ "resolved" ∷ []

unfoldable pub is_status_supported : String → Bool
unfolding member
is_status_supported status = member status valid_event_statuses

-- The four parts after the prefix, each after a colon.
unfoldable pub event_dedupe_key : TimeFormat → AlertRecord → String
event_dedupe_key fmt alert = append alert_event_dedupe_key (
    append ":" (
      append alert.fingerprint (
        append ":" (
          append alert.status (
            append ":" (
              append (fmt.rfc3339_nano alert.starts_at)
                (append ":" (fmt.rfc3339_nano alert.ends_at))))))))
