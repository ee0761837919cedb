-- ===== src/WebAlerts/Webhook/Sent.antt =====
-- What HandleWebhook gives to the Kafka producer.
use server_monitor.Base.{
  ◌≡◌, Bool, true, false, none, List, [], ◌∷◌, ◌++◌, arith, All, ◌==◌, eq_iff, if◌then◌else◌,
  Option-cases, inl, inr,
}
use server_monitor.Base.Keyed.{member}
use server_monitor.Times.{Time, TimeFormat}
use server_monitor.AlertService.Event.{AlertEvent, validate_event}
use server_monitor.WebAlerts.Records.{
  AlertRecord, AlertmanagerWebhookRequest, is_status_supported, new_alert_event,
}
use server_monitor.WebAlerts.Cache.{Cache, CacheLaws}
use server_monitor.WebAlerts.History.{HistoryTable}
use server_monitor.WebAlerts.Webhook.{
  Service, Codec, World, Handled, after_add, handle_alert, handle_alerts, first_unsupported,
  handle_checked, handle_webhook, send_event_to_kafka,
}
use server_monitor.WebAlerts.Webhook.Steps.{Step, skipped, failed, finished, handle_alert-Step}
use server_monitor.WebAlerts.Webhook.Refusals.{Supported, first_unsupported-All}

module _ (C : Cache) (L : CacheLaws C) (H : HistoryTable) (fmt : TimeFormat) (codec : Codec)
    (s : Service) where
  -- What alert-service would refuse is not sent.
  abbrev pub Valid : AlertEvent → Type 0
  Valid event = validate_event event ≡ none

  All-snoc :
      (events : List AlertEvent) (event : AlertEvent)
      → All Valid events
      → Valid event
      → All Valid (events ++ (event ∷ []))
  All-snoc [] event h v = (v, tt)
  All-snoc (e ∷ events) event h v = (h.0, All-snoc events event h.1 v)

  new_alert_event-Valid :
      (alert : AlertRecord) (t : Time)
      → (alert.fingerprint == "") ≡ false
      → is_status_supported alert.status ≡ true
      → Valid (new_alert_event alert t)
  unfolding new_alert_event validate_event is_status_supported member
  new_alert_event-Valid alert t n h = ground (
    arith,
    eq_iff alert.status "firing",
    eq_iff "firing" alert.status,
    eq_iff "resolved" alert.status,
    eq_iff alert.status "resolved",
  )

  sent-Valid :
      (t : Time) (alert : AlertRecord) (w : World C H) (o : Bool)
      → (alert.fingerprint == "") ≡ false
      → is_status_supported alert.status ≡ true
      → All Valid w.sent
      → All Valid (if o then w.sent ++ (new_alert_event alert t ∷ []) else w.sent)
  sent-Valid t alert w true n h v = All-snoc w.sent _ v (new_alert_event-Valid alert t n h)
  sent-Valid t alert w false n h v = v

  Step-sent :
      (t : Time) (alert : AlertRecord) (w : World C H) (r : Handled C H fmt codec)
      → Step C L H fmt codec s t alert w r
      → Supported alert
      → All Valid w.sent
      → All Valid r.1.sent
  unfolding after_add send_event_to_kafka
  Step-sent t alert w r (skipped e q) h v = rw q v
  Step-sent t alert w r (failed e c k q) h v = rw q v
  Step-sent t alert w r (finished message event a c true n m p k q e) h v =
      rw (e, after_add, send_event_to_kafka) (sent-Valid t alert w s.has_producer n (h n) v)
  Step-sent t alert w r (finished message event a c false n m p k q e) h v = rw (e, after_add) v

  handle_alerts-sent :
      (t : Time) (alerts : List AlertRecord) (w : World C H)
      → All Supported alerts
      → All Valid w.sent
      → All Valid (handle_alerts C H fmt codec s t alerts w).1.sent
  unfolding handle_alerts
  handle_alerts-sent t [] w h v = v
  handle_alerts-sent t (alert ∷ alerts) w h v =
      let u = handle_alert C H fmt codec s t alert w in
      let now = Step-sent t alert w u (handle_alert-Step C L H fmt codec s t alert w) h.0 v in
      elim (Option-cases u.0) [
        | inl y ↦ rw (y, handle_alerts) (handle_alerts-sent t alerts u.1 h.1 now)
        | inr (e, y) ↦ rw (y, handle_alerts) now
      ]

  -- Whatever the payload is and whatever fails, a webhook call gives the Kafka producer only events
  -- that alert-service accepts as valid.
  pub handle_webhook-sent :
      (payload : AlertmanagerWebhookRequest) (t : Time) (w : World C H)
      → All Valid w.sent
      → All Valid (handle_webhook C H fmt codec s payload t w).1.sent
  unfolding handle_webhook handle_checked
  handle_webhook-sent payload t w v = elim (Option-cases (first_unsupported payload.alerts)) [
    | inr (status, bad) ↦ rw (bad, handle_checked) v
    | inl good ↦
        rw (good, handle_checked)
          (handle_alerts-sent t payload.alerts w (first_unsupported-All payload.alerts good) v)
  ]
