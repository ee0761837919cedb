-- ===== src/WebAlerts/Webhook/Active.antt =====
-- The active alerts after HandleWebhook.
use server_monitor.Base.{
  String, ◌≡◌, refl, sym, ◌∙◌, ap, fun_ext, Bool, true, false, Option, none, some, List, [], ◌∷◌,
  arith, All, ◌==◌, eq_iff, if◌then◌else◌, Bool-cases, Option-cases, inl, inr,
}
use server_monitor.Base.Keyed.{member}
use server_monitor.Errors.{Result}
use server_monitor.Times.{Time, TimeFormat}
use server_monitor.WebAlerts.Records.{
  AlertRecord, AlertmanagerWebhookRequest, active_alerts_key, is_status_supported,
}
use server_monitor.WebAlerts.Cache.{Cache, CacheLaws}
use server_monitor.WebAlerts.History.{HistoryTable}
use server_monitor.WebAlerts.Webhook.{
  Service, Codec, World, Handled, after_add, handle_alert, handle_alerts, first_unsupported,
  handle_checked, handle_webhook, switch_active,
}
use server_monitor.WebAlerts.Webhook.Steps.{
  dedupe-ne-active, events-ne-active, add_call, Step, skipped, failed, finished, handle_alert-Step,
}
use server_monitor.WebAlerts.Webhook.Refusals.{Supported, first_unsupported-All}

-- The active alert of each fingerprint after an alert: set by a firing one, removed by another.
abbrev pub apply_alert :
    (AlertRecord → Option String) → AlertRecord → (String → Option String) → String → Option String
apply_alert marshal alert active f =
    if alert.fingerprint == ""
    then active f
    else if alert.fingerprint == f
    then (if alert.status == "firing" then marshal alert else none)
    else active f

abbrev pub apply_alerts :
    (AlertRecord → Option String)
    → List AlertRecord
    → (String → Option String)
    → String
    → Option String
apply_alerts marshal [] active f = active f
apply_alerts marshal (alert ∷ alerts) active f =
    apply_alerts marshal alerts (apply_alert marshal alert active) f

module _ (C : Cache) (L : CacheLaws C) (H : HistoryTable) (fmt : TimeFormat) (codec : Codec)
    (s : Service) where
  abbrev pub active : C.State → String → Option String
  active c f = C.field active_alerts_key f c

  switch_active-apply :
      (alert : AlertRecord) (message : String) (c a : C.State) (f : String)
      → (alert.fingerprint == "") ≡ false
      → is_status_supported alert.status ≡ true
      → codec.marshal_alert alert ≡ some message
      → switch_active C H fmt codec alert message c ≡ (none, a)
      → active a f ≡ apply_alert codec.marshal_alert alert (active c) f
  unfolding switch_active is_status_supported member
  switch_active-apply alert message c a f n sup m q = elim (Bool-cases (alert.status == "firing")) [
    | inl y ↦
        rw
          (
            n,
            y,
            m,
            L.field-h_set active_alerts_key alert.fingerprint message active_alerts_key f c a
                (rw (switch_active, y) at q),
          )
          refl
    | inr y ↦ elim (Bool-cases (alert.status == "resolved")) [
      | inl r ↦
          rw
            (
              n,
              y,
              L.field-h_del active_alerts_key alert.fingerprint active_alerts_key f c a
                  (rw (switch_active, y, r) at q),
            )
            refl
      | inr r ↦ absurd (
          ground (
            arith,
            eq_iff "firing" alert.status,
            eq_iff alert.status "firing",
            eq_iff "resolved" alert.status,
            eq_iff alert.status "resolved",
          ))
    ]
  ]

  add_call-active :
      (t : Time) (alert : AlertRecord) (event : String) (a c : C.State) (r : Result Bool)
      (f : String)
      → add_call C L H fmt codec s t alert event a ≡ (r, c)
      → active c f ≡ active a f
  add_call-active t alert event a c r f q =
      let same : active (add_call C L H fmt codec s t alert event a).1 f ≡ active a f =
        L.field-add_alert_event_once _ _ _ _ _ f _ _ a events-ne-active
          (λ e. dedupe-ne-active fmt alert (sym e)) in
      rw q at same

  Step-active :
      (t : Time) (alert : AlertRecord) (w : World C H) (r : Handled C H fmt codec) (f : String)
      → Step C L H fmt codec s t alert w r
      → r.0 ≡ none
      → Supported alert
      → active r.1.cache f ≡ apply_alert codec.marshal_alert alert (active w.cache) f
  unfolding after_add
  Step-active t alert w r f (skipped e q) z h = rw (q, e) refl
  Step-active t alert w r f (failed e c k q) z h = cc
  Step-active t alert w r f (finished message event a c true n m p k q e) z h =
      rw (e, after_add, L.field-publish)
        (add_call-active t alert event a c _ f q
          ∙ switch_active-apply alert message w.cache a f n (h n) m p)
  Step-active t alert w r f (finished message event a c false n m p k q e) z h =
      rw (e, after_add)
        (add_call-active t alert event a c _ f q
          ∙ switch_active-apply alert message w.cache a f n (h n) m p)

  handle_alerts-active :
      (t : Time) (alerts : List AlertRecord) (w : World C H) (f : String)
      → (handle_alerts C H fmt codec s t alerts w).0 ≡ none
      → All Supported alerts
      → active (handle_alerts C H fmt codec s t alerts w).1.cache f
        ≡ apply_alerts codec.marshal_alert alerts (active w.cache) f
  unfolding handle_alerts
  handle_alerts-active t [] w f z h = refl
  handle_alerts-active t (alert ∷ alerts) w f z h =
      let u = handle_alert C H fmt codec s t alert w in
      let step = handle_alert-Step C L H fmt codec s t alert w in
      elim (Option-cases u.0) [
        | inl y ↦
            rw (y, handle_alerts)
              (handle_alerts-active t alerts u.1 f (rw (y, handle_alerts) at z) h.1
                ∙ ap (λ v. apply_alerts codec.marshal_alert alerts v f)
                    (fun_ext (λ g. Step-active t alert w u g step y h.0)))
        | inr (e, y) ↦ absurd (ground arith)
      ]

  -- A webhook call that returns no error leaves the active alerts as its alerts say, in order: each
  -- firing alert with a fingerprint sets the alert of its fingerprint, each resolved one removes it,
  -- and no other active alert changes.
  pub handle_webhook-active :
      (payload : AlertmanagerWebhookRequest) (t : Time) (w : World C H) (f : String)
      → (handle_webhook C H fmt codec s payload t w).0 ≡ none
      → active (handle_webhook C H fmt codec s payload t w).1.cache f
        ≡ apply_alerts codec.marshal_alert payload.alerts (active w.cache) f
  unfolding handle_webhook handle_checked
  handle_webhook-active payload t w f z = elim (Option-cases (first_unsupported payload.alerts)) [
    | inr (status, bad) ↦ absurd (ground arith)
    | inl good ↦
        rw (good, handle_checked)
          (handle_alerts-active t payload.alerts w f (rw (good, handle_checked) at z)
            (first_unsupported-All payload.alerts good))
  ]
