-- ===== src/WebAlerts/Tests.antt =====
-- Runs of the webhook over a cache and a history table in memory.
use server_monitor.Base.{String, ◌≡◌, refl, true, none, some, List, [], ◌∷◌, All, filter_by}
use server_monitor.Base.Text.{trim_space}
use server_monitor.Base.Int.{pos}
use server_monitor.Base.Keyed.{label, member}
use server_monitor.Times.Unary.{unary, unary_format}
use server_monitor.AlertService.Event.{AlertEvent}
use server_monitor.WebAlerts.Records.{
  AlertRecord, AlertmanagerWebhookRequest, new_alert_event, event_dedupe_key,
}
use server_monitor.WebAlerts.History.{build_history}
use server_monitor.WebAlerts.Webhook.{Service, Codec, World, handle_webhook, first_unsupported}
use server_monitor.WebAlerts.Webhook.Redelivery.{SameOutside, redelivered_quiet}
use server_monitor.WebAlerts.Webhook.Active.{active, handle_webhook-active}
use server_monitor.WebAlerts.Webhook.Sent.{Valid, handle_webhook-sent}
use server_monitor.WebAlerts.Queries.{matches, filter_alert_events, filter_alert_events_lem}
use server_monitor.WebAlerts.Memory.{empty, memory, memory-CacheLaws, one_row}

abbrev alert_with : String → String → AlertRecord
alert_with fingerprint status = record {
  status = status;
  fingerprint = fingerprint;
  labels = ("alertname", "HighCPU ") ∷ ("severity", "critical") ∷ [];
  annotations = [];
  starts_at = 1;
  ends_at = 2;
  generator_url = "";
}

abbrev cpu_fires : AlertRecord
cpu_fires = alert_with "f1" "firing"

abbrev cpu_recovers : AlertRecord
cpu_recovers = alert_with "f1" "resolved"

abbrev codec : Codec
codec = record {
  marshal_alert = λ a. some a.status;
  marshal_event = λ e. some e.fingerprint;
  marshal_labels = λ l. some "{}";
}

abbrev service : Service
service = record { has_db = true; has_producer = true; dedupe_ttl = pos 3600 }

abbrev start : World memory one_row
start = record { cache = empty; history = none; published = []; sent = [] }

abbrev payload : AlertmanagerWebhookRequest
payload = record { alerts = cpu_fires ∷ alert_with "" "silenced" ∷ cpu_recovers ∷ [] }

abbrev received : World memory one_row
received = (handle_webhook memory one_row unary_format codec service payload 7 start).1

resolved_row :
    build_history codec.marshal_labels cpu_recovers
    ≡ some (record {
      fingerprint = "f1";
      alert_name = "HighCPU";
      instance_name = "";
      severity = "critical";
      status = "resolved";
      summary = "";
      labels_json = "{}";
      fired_at = 1;
      resolved_at = some 2;
    })
unfolding build_history label trim_space
resolved_row = refl

redelivered_quiet_example :
    SameOutside memory memory-CacheLaws one_row unary_format codec service received
      (handle_webhook memory one_row unary_format codec service payload 9 received).1
unfolding handle_webhook first_unsupported member event_dedupe_key unary
redelivered_quiet_example =
    redelivered_quiet memory memory-CacheLaws one_row unary_format codec service payload 7 9 start
      refl

handle_webhook-active_example :
    active memory memory-CacheLaws one_row unary_format codec service received.cache "f1" ≡ none
unfolding handle_webhook first_unsupported member event_dedupe_key unary
handle_webhook-active_example =
    handle_webhook-active memory memory-CacheLaws one_row unary_format codec service payload 7 start
      "f1" refl

handle_webhook-sent_example :
    All (Valid memory memory-CacheLaws one_row unary_format codec service) received.sent
handle_webhook-sent_example =
    handle_webhook-sent memory memory-CacheLaws one_row unary_format codec service payload 7 start
      tt

abbrev events : List AlertEvent
events = new_alert_event cpu_fires 3 ∷ new_alert_event cpu_recovers 4 ∷ []

filter_alert_events_lem_example :
    filter_alert_events events "resolved" "" ≡ filter_by (matches "resolved" "") events
filter_alert_events_lem_example = filter_alert_events_lem events "resolved" ""
