-- ===== src/WebAlerts/Queries.antt =====
-- The alert pages of server-web/alert/service.go: the parameters of a request, the lists that the
-- cache holds, and their filters.
use server_monitor.Base.{
  String, ◌≡◌, refl, Bool, true, not, ◌&&◌, ◌||◌, Option, none, some, List, [], ◌∷◌, arith,
  filter_by, ◌==◌, ltb, ◌⊎◌, if◌then◌else◌, Bool-cases, inl, inr,
}
use server_monitor.Base.Int.{ℤ, pos, negsuc, leb_ℤ, ltb_ℤ, ◌≤ℤ◌}
use server_monitor.Base.Keyed.{Keyed, label, member}
use server_monitor.Base.Numbers.{parse_int}
use server_monitor.Errors.{Result, ok, err}
use server_monitor.AlertService.Event.{AlertEvent}
use server_monitor.WebAlerts.Records.{
  AlertRecord, active_alerts_key, alert_events_key, alert_events_max, valid_event_statuses,
}
use server_monitor.WebAlerts.Cache.{Cache}
use server_monitor.WebAlerts.Webhook.{ServiceError, load_active_alerts, load_alert_events}

abbrev pub default_events_limit : ℤ
default_events_limit = pos 8

clamp_limit : Option ℤ → ℤ
clamp_limit none = default_events_limit
clamp_limit (some parsed) =
    if leb_ℤ parsed (pos 0)
    then default_events_limit
    else if ltb_ℤ alert_events_max parsed
    then alert_events_max
    else parsed

unfoldable pub parse_events_limit : String → ℤ
unfolding clamp_limit
parse_events_limit raw = if raw == "" then default_events_limit else clamp_limit (parse_int raw)

abbrev pub valid_event_severities : List String
valid_event_severities = "critical" ∷ "warning" ∷ "info" ∷ []

abbrev pub valid_active_severities : List String
valid_active_severities = "critical" ∷ "warning" ∷ "info" ∷ []

unfoldable pub parse_event_filter : String → String
parse_event_filter raw = if not (member raw valid_event_statuses) then "" else raw

unfoldable pub parse_event_severity_filter : String → String
parse_event_severity_filter raw = if not (member raw valid_event_severities) then "" else raw

unfoldable pub parse_active_severity_filter : String → String
parse_active_severity_filter raw = if not (member raw valid_active_severities) then "" else raw

-- The loop of DecodeAlertEvents: values that are no JSON are skipped.
unfoldable pub decode_all {ℓ} : {A : Type ℓ} → (String → Option A) → List String → List A
decode_all unmarshal [] = []
decode_all unmarshal (value ∷ values) =
    let rest = decode_all unmarshal values in
    elim (unmarshal value) [ none ↦ rest | some a ↦ a ∷ rest ]

values_of : Keyed String → List String
values_of [] = []
values_of ((key, value) ∷ entries) = value ∷ values_of entries

-- DecodeActiveAlerts ranges over the values of a map.
unfoldable pub decode_active_alerts :
    (String → Option AlertRecord) → Keyed String → List AlertRecord
unfolding values_of
decode_active_alerts unmarshal values = decode_all unmarshal (values_of values)

filter_events_loop : List AlertEvent → String → String → List AlertEvent
filter_events_loop [] status severity = []
filter_events_loop (event ∷ events) status severity =
    let rest = filter_events_loop events status severity in
    if not (status == "") && not (event.status == status)
    then rest
    else if not (severity == "") && not (label "severity" event.labels == severity)
    then rest
    else event ∷ rest

unfoldable pub filter_alert_events : List AlertEvent → String → String → List AlertEvent
unfolding filter_events_loop
filter_alert_events events status severity =
    if (status == "") && (severity == "") then events else filter_events_loop events status severity

filter_active_loop : List AlertRecord → String → List AlertRecord
filter_active_loop [] severity = []
filter_active_loop (alert ∷ alerts) severity =
    let rest = filter_active_loop alerts severity in
    if not (label "severity" alert.labels == severity) then rest else alert ∷ rest

unfoldable pub filter_active_alerts : List AlertRecord → String → List AlertRecord
unfolding filter_active_loop
filter_active_alerts alerts severity =
    if severity == "" then alerts else filter_active_loop alerts severity

module _ (C : Cache) where
  -- `sort` is sort.Slice, which takes the test of its closure
  active_sorted :
      ((AlertRecord → AlertRecord → Bool) → List AlertRecord → List AlertRecord)
      → (String → Option AlertRecord)
      → String
      → Result (Keyed String)
      → ServiceError ⊎ List AlertRecord
  active_sorted sort unmarshal severity (err e) = inl (load_active_alerts e)
  active_sorted sort unmarshal severity (ok values) = inr (
      sort (λ a b. ltb b.starts_at a.starts_at)
        (filter_active_alerts (decode_active_alerts unmarshal values) severity))

  unfoldable pub active_alerts :
      ((AlertRecord → AlertRecord → Bool) → List AlertRecord → List AlertRecord)
      → (String → Option AlertRecord)
      → String
      → C.State
      → ServiceError ⊎ List AlertRecord
  unfolding active_sorted
  active_alerts sort unmarshal severity c =
      active_sorted sort unmarshal severity (C.h_get_all active_alerts_key c)

  events_filtered :
      (String → Option AlertEvent)
      → String
      → String
      → Result (List String)
      → ServiceError ⊎ List AlertEvent
  events_filtered unmarshal status severity (err e) = inl (load_alert_events e)
  events_filtered unmarshal status severity (ok values) =
      inr (filter_alert_events (decode_all unmarshal values) status severity)

  unfoldable pub alert_events :
      (String → Option AlertEvent) → ℤ → String → String → C.State → ServiceError ⊎ List AlertEvent
  unfolding events_filtered
  alert_events unmarshal limit status severity c =
      events_filtered unmarshal status severity (C.x_rev_range_n alert_events_key limit c)

-- What an event must be for the filters of a request; an empty filter asks for nothing.
abbrev pub matches : String → String → AlertEvent → Bool
matches status severity event =
    ((status == "") || (event.status == status))
    && ((severity == "") || (label "severity" event.labels == severity))

filter_loop_lem :
    (events : List AlertEvent) (status severity : String)
    → filter_events_loop events status severity ≡ filter_by (matches status severity) events
unfolding filter_events_loop filter_by
filter_loop_lem [] status severity = refl
filter_loop_lem (event ∷ events) status severity =
    ground (arith, filter_loop_lem events status severity)

filter_by_all :
    (events : List AlertEvent) (status severity : String)
    → (status == "") ≡ true
    → (severity == "") ≡ true
    → events ≡ filter_by (matches status severity) events
unfolding filter_by
filter_by_all [] status severity p q = refl
filter_by_all (event ∷ events) status severity p q =
    ground (arith, filter_by_all events status severity p q)

-- Filtering events keeps, in order, those that have the status asked for, if one is, and the
-- severity asked for, if one is.
pub filter_alert_events_lem :
    (events : List AlertEvent) (status severity : String)
    → filter_alert_events events status severity ≡ filter_by (matches status severity) events
unfolding filter_alert_events
filter_alert_events_lem events status severity =
    elim (Bool-cases ((status == "") && (severity == ""))) [
      | inl y ↦ rw y (filter_by_all events status severity (ground arith) (ground arith))
      | inr n ↦ rw n (filter_loop_lem events status severity)
    ]

clamp_limit-bounds : (o : Option ℤ) → (pos 1 ≤ℤ clamp_limit o) × (clamp_limit o ≤ℤ alert_events_max)
unfolding clamp_limit
clamp_limit-bounds none = (omega arith, omega arith)
clamp_limit-bounds (some (pos n)) = (ground arith, ground arith)
clamp_limit-bounds (some (negsuc n)) = (ground arith, ground arith)

-- Whatever text the query parameter holds, the number of events asked for is from 1 to 200.
parse_events_limit-bounds :
    (raw : String)
    → (pos 1 ≤ℤ parse_events_limit raw) × (parse_events_limit raw ≤ℤ alert_events_max)
unfolding parse_events_limit
parse_events_limit-bounds raw = elim (Bool-cases (raw == "")) [
  | inl y ↦ rw y (omega arith, omega arith)
  | inr n ↦ rw n (clamp_limit-bounds (parse_int raw))
]
