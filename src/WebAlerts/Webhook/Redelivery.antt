-- ===== src/WebAlerts/Webhook/Redelivery.antt =====
-- HandleWebhook on alerts that it has seen before.
use server_monitor.Base.{
  ◌≡◌, refl, ◌∙◌, subst, true, false, none, List, [], ◌∷◌, arith, All, ◌==◌, Option-cases, inl, inr,
}
use server_monitor.Times.{Time, TimeFormat}
use server_monitor.WebAlerts.Records.{AlertRecord, AlertmanagerWebhookRequest, event_dedupe_key}
use server_monitor.WebAlerts.Cache.{Cache, CacheLaws}
use server_monitor.WebAlerts.History.{HistoryTable}
use server_monitor.WebAlerts.Webhook.{
  Service, Codec, World, Handled, after_add, handle_alert, handle_alerts, first_unsupported,
  handle_checked, handle_webhook,
}
use server_monitor.WebAlerts.Webhook.Steps.{
  add_call-Keeps, add_call-remembers, Keeps, Step, skipped, failed, finished, handle_alert-Step,
}

module _ (C : Cache) (L : CacheLaws C) (H : HistoryTable) (fmt : TimeFormat) (codec : Codec)
    (s : Service) where
  -- The dedupe keys of the alerts that have a fingerprint exist.
  abbrev pub Remembered : List AlertRecord → C.State → Type 0
  Remembered alerts c =
      All (λ a. (a.fingerprint == "") ≡ false → C.exists (event_dedupe_key fmt a) c ≡ true) alerts

  -- What the outside sees: the outbox and the history.
  abbrev pub SameOutside : World C H → World C H → Type 0
  SameOutside w u = (u.published ≡ w.published) × (u.sent ≡ w.sent) × (u.history ≡ w.history)

  Step-Keeps :
      (t : Time) (alert : AlertRecord) (w : World C H) (r : Handled C H fmt codec)
      → Step C L H fmt codec s t alert w r
      → Keeps C fmt w.cache r.1.cache
  unfolding after_add
  Step-Keeps t alert w r (skipped f q) = rw q (λ a h. h)
  Step-Keeps t alert w r (failed e c k q) = rw q k
  Step-Keeps t alert w r (finished message event a c true f m p k q e) = rw e (λ b h.
      rw (L.exists-publish) (add_call-Keeps C L H fmt codec s t alert event a c _ q b (k b h)))
  Step-Keeps t alert w r (finished message event a c false f m p k q e) =
      rw e (λ b h. add_call-Keeps C L H fmt codec s t alert event a c _ q b (k b h))

  Step-remembers :
      (t : Time) (alert : AlertRecord) (w : World C H) (r : Handled C H fmt codec)
      → Step C L H fmt codec s t alert w r
      → r.0 ≡ none
      → (alert.fingerprint == "") ≡ false
      → C.exists (event_dedupe_key fmt alert) r.1.cache ≡ true
  unfolding after_add
  Step-remembers t alert w r (skipped f q) z n = cc
  Step-remembers t alert w r (failed e c k q) z n = cc
  Step-remembers t alert w r (finished message event a c true f m p k q e) z n =
      rw (e, after_add, L.exists-publish)
        (add_call-remembers C L H fmt codec s t alert event a c _ q)
  Step-remembers t alert w r (finished message event a c false f m p k q e) z n =
      rw (e, after_add) (add_call-remembers C L H fmt codec s t alert event a c _ q)

  -- A known alert, whatever the step's result, leaves nothing outside.
  Step-quiet :
      (t : Time) (alert : AlertRecord) (w : World C H) (r : Handled C H fmt codec)
      → Step C L H fmt codec s t alert w r
      → ((alert.fingerprint == "") ≡ false → C.exists (event_dedupe_key fmt alert) w.cache ≡ true)
      → SameOutside w r.1
  unfolding after_add
  Step-quiet t alert w r (skipped f q) h = rw q (refl, refl, refl)
  Step-quiet t alert w r (failed e c k q) h = rw q (refl, refl, refl)
  Step-quiet t alert w r (finished message event a c true f m p k q e) h =
      absurd (cc (k alert (h f), L.stored_new _ _ _ _ _ _ a c q))
  Step-quiet t alert w r (finished message event a c false f m p k q e) h = rw e (refl, refl, refl)

  Remembered-Keeps :
      (alerts : List AlertRecord) (c d : C.State)
      → Keeps C fmt c d
      → Remembered alerts c
      → Remembered alerts d
  Remembered-Keeps [] c d k h = tt
  Remembered-Keeps (a ∷ alerts) c d k h = ((λ n. k a (h.0 n)), Remembered-Keeps alerts c d k h.1)

  handle_alerts-Keeps :
      (t : Time) (alerts : List AlertRecord) (w : World C H)
      → Keeps C fmt w.cache (handle_alerts C H fmt codec s t alerts w).1.cache
  unfolding handle_alerts
  handle_alerts-Keeps t [] w a h = h
  handle_alerts-Keeps t (alert ∷ alerts) w a h =
      let u = handle_alert C H fmt codec s t alert w in
      let now = Step-Keeps t alert w u (handle_alert-Step C L H fmt codec s t alert w) a h in
      elim (Option-cases u.0) [
        | inl z ↦ rw (z, handle_alerts) (handle_alerts-Keeps t alerts u.1 a now)
        | inr (e, z) ↦ rw (z, handle_alerts) now
      ]

  handle_alerts-cons :
      (t : Time) (alert : AlertRecord) (alerts : List AlertRecord) (w : World C H)
      → (handle_alert C H fmt codec s t alert w).0 ≡ none
      → handle_alerts C H fmt codec s t alerts (handle_alert C H fmt codec s t alert w).1
        ≡ handle_alerts C H fmt codec s t (alert ∷ alerts) w
  unfolding handle_alerts
  handle_alerts-cons t alert alerts w z = rw (z, handle_alerts) refl

  handle_alerts-Remembered :
      (t : Time) (alerts : List AlertRecord) (w : World C H)
      → (handle_alerts C H fmt codec s t alerts w).0 ≡ none
      → Remembered alerts (handle_alerts C H fmt codec s t alerts w).1.cache
  unfolding handle_alerts
  handle_alerts-Remembered t [] w z = tt
  handle_alerts-Remembered t (alert ∷ alerts) w z =
      let u = handle_alert C H fmt codec s t alert w in
      let step = handle_alert-Step C L H fmt codec s t alert w in
      elim (Option-cases u.0) [
        | inl y ↦
            subst (λ x. Remembered (alert ∷ alerts) x.1.cache)
              (handle_alerts-cons t alert alerts w y)
              (
                (λ n. handle_alerts-Keeps t alerts u.1 alert (Step-remembers t alert w u step y n)),
                handle_alerts-Remembered t alerts u.1 (rw (y, handle_alerts) at z),
              )
        | inr (e, y) ↦ absurd (ground arith)
      ]

  handle_alerts-quiet :
      (t : Time) (alerts : List AlertRecord) (w : World C H)
      → Remembered alerts w.cache
      → SameOutside w (handle_alerts C H fmt codec s t alerts w).1
  unfolding handle_alerts
  handle_alerts-quiet t [] w h = (refl, refl, refl)
  handle_alerts-quiet t (alert ∷ alerts) w h =
      let u = handle_alert C H fmt codec s t alert w in
      let step = handle_alert-Step C L H fmt codec s t alert w in
      let now = Step-quiet t alert w u step h.0 in
      elim (Option-cases u.0) [
        | inr (e, y) ↦ rw (y, handle_alerts) now
        | inl y ↦
            let later =
              handle_alerts-quiet t alerts u.1
                (Remembered-Keeps alerts w.cache u.1.cache (Step-Keeps t alert w u step) h.1) in
            rw (y, handle_alerts) (later.0 ∙ now.0, later.1 ∙ now.1, later.2 ∙ now.2)
      ]

  -- Alertmanager sends a payload again. As long as no dedupe key has expired, the second call, at
  -- any time and whether or not it fails, publishes nothing, sends nothing to Kafka and leaves the
  -- history alone, if the first call returned no error.
  pub redelivered_quiet :
      (payload : AlertmanagerWebhookRequest) (t t' : Time) (w : World C H)
      → (handle_webhook C H fmt codec s payload t w).0 ≡ none
      → SameOutside
          (handle_webhook C H fmt codec s payload t w).1
          (handle_webhook C H fmt codec s payload t'
            (handle_webhook C H fmt codec s payload t w).1).1
  unfolding handle_webhook handle_checked
  redelivered_quiet payload t t' w z = elim (Option-cases (first_unsupported payload.alerts)) [
    | inr (status, bad) ↦ absurd (ground arith)
    | inl good ↦
        rw (good, handle_checked)
          (handle_alerts-quiet t' payload.alerts _
            (handle_alerts-Remembered t payload.alerts w (rw (good, handle_checked) at z)))
  ]
