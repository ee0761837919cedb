-- ===== src/WebAlerts/Webhook/Refusals.antt =====
-- The first loop of HandleWebhook: it looks at every status before anything is written.
use server_monitor.Base.{
  String, ◌≡◌, refl, true, false, none, some, List, [], ◌∷◌, ◌++◌, arith, All, ◌==◌, Bool-cases,
  inl, inr,
}
use server_monitor.Times.{Time, TimeFormat}
use server_monitor.WebAlerts.Records.{AlertRecord, AlertmanagerWebhookRequest, is_status_supported}
use server_monitor.WebAlerts.Cache.{Cache}
use server_monitor.WebAlerts.History.{HistoryTable}
use server_monitor.WebAlerts.Webhook.{
  unsupported_status, Service, Codec, World, first_unsupported, handle_checked, handle_webhook,
}

-- Each alert has a supported status, unless it is skipped for want of a fingerprint.
abbrev pub Supported : AlertRecord → Type 0
Supported alert = (alert.fingerprint == "") ≡ false → is_status_supported alert.status ≡ true

Supported-head :
    (alert : AlertRecord) (alerts : List AlertRecord)
    → first_unsupported (alert ∷ alerts) ≡ none
    → Supported alert
unfolding first_unsupported is_status_supported
Supported-head alert alerts h n = ground arith

Supported-tail :
    (alert : AlertRecord) (alerts : List AlertRecord)
    → first_unsupported (alert ∷ alerts) ≡ none
    → first_unsupported alerts ≡ none
unfolding first_unsupported is_status_supported
Supported-tail alert alerts h = ground arith

pub first_unsupported-All :
    (alerts : List AlertRecord) → first_unsupported alerts ≡ none → All Supported alerts
first_unsupported-All [] h = tt
first_unsupported-All (alert ∷ alerts) h =
    (Supported-head alert alerts h, first_unsupported-All alerts (Supported-tail alert alerts h))

first_unsupported-append :
    (before after : List AlertRecord) (alert : AlertRecord)
    → (alert.fingerprint == "") ≡ false
    → is_status_supported alert.status ≡ false
    → (status : String) × (first_unsupported (before ++ (alert ∷ after)) ≡ some status)
unfolding first_unsupported is_status_supported
first_unsupported-append [] after alert f u = (alert.status, rw (f, u) refl)
first_unsupported-append (b ∷ before) after alert f u =
    let (status, rest) = first_unsupported-append before after alert f u in
    elim (Bool-cases (b.fingerprint == "")) [
      | inl e ↦ (status, rw (e, first_unsupported) rest)
      | inr e ↦ elim (Bool-cases (is_status_supported b.status)) [
        | inl o ↦ (status, rw (e, o, first_unsupported) rest)
        | inr o ↦ (b.status, rw (e, o, first_unsupported) refl)
      ]
    ]

module _ (C : Cache) (H : HistoryTable) (fmt : TimeFormat) (codec : Codec) (s : Service) where
  -- One alert with a fingerprint and an unsupported status, wherever it stands, and the whole
  -- payload is refused before anything is written.
  unsupported_refused :
      (payload : AlertmanagerWebhookRequest) (t : Time) (w : World C H)
      (before after : List AlertRecord) (alert : AlertRecord)
      → payload.alerts ≡ before ++ (alert ∷ after)
      → (alert.fingerprint == "") ≡ false
      → is_status_supported alert.status ≡ false
      → (status : String) × (handle_webhook C H fmt codec s payload t w
          ≡ (some (unsupported_status status), w))
  unfolding handle_webhook handle_checked
  unsupported_refused payload t w before after alert e n u =
      let (status, bad) = first_unsupported-append before after alert n u in
      (status, rw (e, bad) refl)
