-- ===== src/WebAlerts/Webhook/Steps.antt =====
-- The ways in which the loop of HandleWebhook leaves one alert.
use server_monitor.Base.{
  String, ◌≡◌, ◌≢◌, refl, ap, Bool, true, false, Option, none, some, arith, ◌==◌, eq_iff, eq_refl,
  Bool-cases, inl, inr,
}
use server_monitor.Base.Text.{has_prefix}
use server_monitor.Errors.{GoError, Result, ok, err}
use server_monitor.Times.{Time, TimeFormat}
use server_monitor.WebAlerts.Records.{
  AlertRecord, active_alerts_key, alert_events_key, alert_events_max, event_dedupe_key,
}
use server_monitor.WebAlerts.Cache.{Cache, CacheLaws}
use server_monitor.WebAlerts.History.{HistoryTable}
use server_monitor.WebAlerts.Webhook.{
  ServiceError, Service, Codec, World, Handled, after_add, add_event, after_active, switch_active,
  handle_marshalled, handle_alert,
}

pub dedupe-ne-active :
    (fmt : TimeFormat) (alert : AlertRecord) → active_alerts_key ≢ event_dedupe_key fmt alert
unfolding event_dedupe_key has_prefix
dedupe-ne-active fmt alert p = let q : false ≡ true = ap (λ s. has_prefix s "alert:event:d") p in cc

pub dedupe-ne-events :
    (fmt : TimeFormat) (alert : AlertRecord) → alert_events_key ≢ event_dedupe_key fmt alert
unfolding event_dedupe_key has_prefix
dedupe-ne-events fmt alert p = let q : false ≡ true = ap (λ s. has_prefix s "alert:event:d") p in cc

pub events-ne-active : ◌≢◌ {A = String} alert_events_key active_alerts_key
events-ne-active = ground (arith, eq_iff "alert:events" "alert:active")

module _ (C : Cache) (fmt : TimeFormat) where
  -- Dedupe keys that exist stay.
  abbrev pub Keeps : C.State → C.State → Type 0
  Keeps c d =
      (a : AlertRecord)
      → C.exists (event_dedupe_key fmt a) c ≡ true
      → C.exists (event_dedupe_key fmt a) d ≡ true

module _ (C : Cache) (L : CacheLaws C) (H : HistoryTable) (fmt : TimeFormat) (codec : Codec)
    (s : Service) (received_at : Time) where
  -- An alert without a fingerprint is skipped; an error returns, with the outbox and the history
  -- as they were; or the alert is written and its event is added or was known.
  pub data Step (alert : AlertRecord) (w : World C H) (r : Handled C H fmt codec) : Type 0 where
    skipped : (alert.fingerprint == "") ≡ true → r ≡ (none, w) → Step alert w r
    failed :
        (e : ServiceError) (c : C.State)
        → Keeps C fmt w.cache c
        → r ≡ (some e, record w { cache = c })
        → Step alert w r
    finished :
        (message event : String) (a c : C.State) (new : Bool)
        → (alert.fingerprint == "") ≡ false
        → codec.marshal_alert alert ≡ some message
        → switch_active C H fmt codec alert message w.cache ≡ (none, a)
        → Keeps C fmt w.cache a
        → C.add_alert_event_once alert_events_key
            (event_dedupe_key fmt alert)
            alert_events_max
            event
            (fmt.rfc3339_nano received_at)
            s.dedupe_ttl
            a
          ≡ (ok new, c)
        → r ≡ after_add C H fmt codec s received_at alert event (ok new, c) (record w { cache = a })
        → Step alert w r

  -- The call that adds the event of an alert to the stream.
  abbrev pub add_call : AlertRecord → String → C.State → Result Bool × C.State
  add_call alert event a =
      C.add_alert_event_once alert_events_key (event_dedupe_key fmt alert) alert_events_max event
        (fmt.rfc3339_nano received_at) s.dedupe_ttl a

  pub add_call-Keeps :
      (alert : AlertRecord) (event : String) (a c : C.State) (r : Result Bool)
      → add_call alert event a ≡ (r, c)
      → Keeps C fmt a c
  add_call-Keeps alert event a c r q b h =
      let kept : C.exists (event_dedupe_key fmt b) (add_call alert event a).1 ≡ true =
        L.exists-add_alert_event_once alert_events_key (event_dedupe_key fmt alert) event
          (fmt.rfc3339_nano received_at) (event_dedupe_key fmt b) alert_events_max s.dedupe_ttl a
          h in
      rw q at kept

  pub add_call-remembers :
      (alert : AlertRecord) (event : String) (a c : C.State) (new : Bool)
      → add_call alert event a ≡ (ok new, c)
      → C.exists (event_dedupe_key fmt alert) c ≡ true
  add_call-remembers alert event a c true q =
      rw
        (
          L.exists-stored _ (event_dedupe_key fmt alert) _ _ (event_dedupe_key fmt alert) _ _ a c q
              (dedupe-ne-events fmt alert),
          eq_refl (event_dedupe_key fmt alert),
        )
        refl
  add_call-remembers alert event a c false q =
      let seen : (C.exists (event_dedupe_key fmt alert) a ≡ true) × (c ≡ a) =
        L.known _ _ _ _ _ _ a c q in
      rw seen.1 seen.0

  switch-Keeps :
      (alert : AlertRecord) (message : String) (c : C.State)
      → Keeps C fmt c (switch_active C H fmt codec alert message c).1
  unfolding switch_active
  switch-Keeps alert message c = elim (Bool-cases (alert.status == "firing")) [
    | inl f ↦ rw f (λ a h. rw (L.exists-h_set _ _ _ _ c (dedupe-ne-active fmt a)) h)
    | inr f ↦ elim (Bool-cases (alert.status == "resolved")) [
      | inl r ↦ rw (f, r) (λ a h. rw (L.exists-h_del _ _ _ c (dedupe-ne-active fmt a)) h)
      | inr r ↦ rw (f, r) (λ a h. h)
    ]
  ]

  add-Step :
      (alert : AlertRecord) (w : World C H) (message event : String) (a : C.State)
      (r : Result Bool × C.State)
      → (alert.fingerprint == "") ≡ false
      → codec.marshal_alert alert ≡ some message
      → switch_active C H fmt codec alert message w.cache ≡ (none, a)
      → Keeps C fmt w.cache a
      → C.add_alert_event_once alert_events_key
          (event_dedupe_key fmt alert)
          alert_events_max
          event
          (fmt.rfc3339_nano received_at)
          s.dedupe_ttl
          a
        ≡ r
      → Step alert w (after_add C H fmt codec s received_at alert event r (record w { cache = a }))
  unfolding after_add
  add-Step alert w message event a (err e, c) f m p k q =
      failed _ c (λ b h. add_call-Keeps alert event a c (err e) q b (k b h)) refl
  add-Step alert w message event a (ok new, c) f m p k q =
      finished message event a c new f m p k q refl

  event-Step :
      (alert : AlertRecord) (w : World C H) (message : String) (a : C.State) (o : Option String)
      → (alert.fingerprint == "") ≡ false
      → codec.marshal_alert alert ≡ some message
      → switch_active C H fmt codec alert message w.cache ≡ (none, a)
      → Keeps C fmt w.cache a
      → Step alert w (add_event C H fmt codec s received_at alert o (record w { cache = a }))
  unfolding add_event
  event-Step alert w message a none f m p k = failed _ a k refl
  event-Step alert w message a (some event) f m p k =
      add-Step alert w message event a _ f m p k refl

  switched-Step :
      (alert : AlertRecord) (w : World C H) (message : String) (r : Option GoError × C.State)
      → (alert.fingerprint == "") ≡ false
      → codec.marshal_alert alert ≡ some message
      → switch_active C H fmt codec alert message w.cache ≡ r
      → Keeps C fmt w.cache r.1
      → Step alert w (after_active C H fmt codec s received_at alert r w)
  unfolding after_active
  switched-Step alert w message (some e, c) f m p k = failed _ c k refl
  switched-Step alert w message (none, a) f m p k = event-Step alert w message a _ f m p k

  marshalled-Step :
      (alert : AlertRecord) (w : World C H) (o : Option String)
      → (alert.fingerprint == "") ≡ false
      → codec.marshal_alert alert ≡ o
      → Step alert w (handle_marshalled C H fmt codec s received_at alert o w)
  unfolding handle_marshalled
  marshalled-Step alert w none f m = failed _ w.cache (λ a h. h) refl
  marshalled-Step alert w (some message) f m =
      switched-Step alert w message _ f m refl (switch-Keeps alert message w.cache)

  pub handle_alert-Step :
      (alert : AlertRecord) (w : World C H)
      → Step alert w (handle_alert C H fmt codec s received_at alert w)
  unfolding handle_alert
  handle_alert-Step alert w = elim (Bool-cases (alert.fingerprint == "")) [
    | inl e ↦ rw e (skipped e refl)
    | inr n ↦ rw n (marshalled-Step alert w _ n refl)
  ]
