-- ===== src/WebAlerts/Webhook.antt =====
-- HandleWebhook of server-web/alert/service.go. What is published and what is given to the Kafka
-- producer is recorded in the order of the calls; their errors are only logged.
pub mod Steps
pub mod Refusals
pub mod Sent
pub mod Active
pub mod Redelivery
use server_monitor.Base.{
  ℕ, String, ◌≡◌, Bool, true, false, not, Option, none, some, List, [], ◌∷◌, ◌++◌, ◌==◌,
  if◌then◌else◌,
}
use server_monitor.Base.Int.{ℤ}
use server_monitor.Base.Keyed.{Keyed}
use server_monitor.Errors.{GoError, Result, ok, err}
use server_monitor.Times.{Time, TimeFormat}
use server_monitor.AlertService.Event.{AlertEvent}
use server_monitor.WebAlerts.Records.{
  AlertRecord, AlertmanagerWebhookRequest, new_alert_event, active_alerts_key, alert_events_key,
  alert_events_max, alert_channel, is_status_supported, event_dedupe_key,
}
use server_monitor.WebAlerts.Cache.{Cache}
use server_monitor.WebAlerts.History.{HistoryTable, archive_history}

-- ServiceError with its kind, and the status or the error that it carries.
pub data ServiceError : Type 0 where
  unsupported_status : String → ServiceError
  marshal_alert : ServiceError
  store_active_alert delete_active_alert store_alert_event : GoError → ServiceError
  marshal_alert_event : ServiceError
  load_active_alerts load_alert_events : GoError → ServiceError

pub record Service : Type 0 where
  pub has_db : Bool  -- `db != nil`
  pub has_producer : Bool  -- `producer != nil`
  pub dedupe_ttl : ℤ

-- json.Marshal of the three types; `none` is an error
pub record Codec : Type 0 where
  pub marshal_alert : AlertRecord → Option String
  pub marshal_event : AlertEvent → Option String
  pub marshal_labels : Keyed String → Option String

pub record World (C : Cache) (H : HistoryTable) : Type 0 where
  pub cache : C.State
  pub history : H.State
  pub published : List String
  pub sent : List AlertEvent

-- The first loop: the status of the first alert with a fingerprint and an unsupported status.
unfoldable pub first_unsupported : List AlertRecord → Option String
unfolding is_status_supported
first_unsupported [] = none
first_unsupported (alert ∷ alerts) =
    let rest = first_unsupported alerts in
    if alert.fingerprint == ""
    then rest
    else if is_status_supported alert.status
    then rest
    else some alert.status

module _ (C : Cache) (H : HistoryTable) (fmt : TimeFormat) (codec : Codec) where
  abbrev pub Handled : Type 0
  Handled = Option ServiceError × World C H

  unfoldable pub send_event_to_kafka : Service → AlertRecord → Time → World C H → World C H
  unfolding new_alert_event
  send_event_to_kafka s alert received_at w = record w {
    sent = if s.has_producer then w.sent ++ (new_alert_event alert received_at ∷ []) else w.sent;
  }

  unfoldable pub after_add :
      Service → Time → AlertRecord → String → Result Bool × C.State → World C H → Handled
  unfolding send_event_to_kafka
  after_add s received_at alert event (err e, c) w =
      (some (store_alert_event e), record w { cache = c })
  after_add s received_at alert event (ok false, c) w = (none, record w { cache = c })
  after_add s received_at alert event (ok true, c) w =
      let archived = archive_history H codec.marshal_labels s.has_db alert w.history in
      (
        none,
        send_event_to_kafka s alert received_at (record {
          cache = (C.publish alert_channel event c).1;
          history = archived;
          published = w.published ++ (event ∷ []);
          sent = w.sent;
        }),
      )

  add_event : Service → Time → AlertRecord → Option String → World C H → Handled
  unfolding after_add
  add_event s received_at alert none w = (some marshal_alert_event, w)
  add_event s received_at alert (some event) w =
      after_add s received_at alert event
        (C.add_alert_event_once alert_events_key (event_dedupe_key fmt alert) alert_events_max event
          (fmt.rfc3339_nano received_at) s.dedupe_ttl w.cache)
        w

  -- The kind of the error that the switch returns.
  error_kind : AlertRecord → GoError → ServiceError
  error_kind alert e =
      if alert.status == "firing" then store_active_alert e else delete_active_alert e

  after_active : Service → Time → AlertRecord → Option GoError × C.State → World C H → Handled
  unfolding add_event error_kind
  after_active s received_at alert (some e, c) w =
      (some (error_kind alert e), record w { cache = c })
  after_active s received_at alert (none, c) w =
      add_event s received_at alert (codec.marshal_event (new_alert_event alert received_at))
        (record w { cache = c })

  -- The switch on the status.
  unfoldable pub switch_active : AlertRecord → String → C.State → Option GoError × C.State
  switch_active alert message c =
      if alert.status == "firing"
      then C.h_set active_alerts_key alert.fingerprint message c
      else if alert.status == "resolved"
      then C.h_del active_alerts_key alert.fingerprint c
      else (none, c)

  -- The body of the second loop for an alert with a fingerprint.
  handle_marshalled : Service → Time → AlertRecord → Option String → World C H → Handled
  unfolding after_active switch_active
  handle_marshalled s received_at alert none w = (some marshal_alert, w)
  handle_marshalled s received_at alert (some message) w =
      after_active s received_at alert (switch_active alert message w.cache) w

  unfoldable pub handle_alert : Service → Time → AlertRecord → World C H → Handled
  unfolding handle_marshalled
  handle_alert s received_at alert w =
      if alert.fingerprint == ""
      then (none, w)
      else handle_marshalled s received_at alert (codec.marshal_alert alert) w

  -- The second loop returns at the first error.
  unfoldable pub handle_alerts : Service → Time → List AlertRecord → World C H → Handled
  unfolding handle_alert
  handle_alerts s received_at [] w = (none, w)
  handle_alerts s received_at (alert ∷ alerts) w =
      let (error, u) = handle_alert s received_at alert w in
      let rest = handle_alerts s received_at alerts u in
      elim error [ none ↦ rest | some e ↦ (some e, u) ]

  unfoldable pub handle_checked :
      Service → Time → List AlertRecord → Option String → World C H → Handled
  unfolding handle_alerts
  handle_checked s received_at alerts (some status) w = (some (unsupported_status status), w)
  handle_checked s received_at alerts none w = handle_alerts s received_at alerts w

  unfoldable pub handle_webhook : Service → AlertmanagerWebhookRequest → Time → World C H → Handled
  unfolding handle_checked
  handle_webhook s payload received_at w =
      handle_checked s received_at payload.alerts (first_unsupported payload.alerts) w
