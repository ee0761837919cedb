-- ===== src/AlertService/Event.antt =====
-- alert-service/kafka/event.go and alert-service/alert/processor.go.
use server_monitor.Base.{String, not, ◌&&◌, Option, none, some, List, [], ◌∷◌, ◌==◌, if◌then◌else◌}
use server_monitor.Base.Text.{append, join, trim_space}
use server_monitor.Base.Keyed.{Keyed, label}
use server_monitor.Errors.{GoError, message}
use server_monitor.Times.{Time, is_zero, TimeFormat}

pub record AlertEvent : Type 0 where
  pub type : String
  pub fingerprint : String
  pub status : String
  pub labels : Keyed String
  pub annotations : Keyed String
  pub starts_at : Time
  pub ends_at : Time
  pub generator_url : String
  pub received_at : Time

abbrev pub status_firing : String
status_firing = "firing"

abbrev pub status_resolved : String
status_resolved = "resolved"

-- `none` where the event is valid
unfoldable pub validate_event : AlertEvent → Option GoError
validate_event event =
    if event.fingerprint == ""
    then some (message "alert fingerprint is required")
    else if not (event.status == status_firing) && not (event.status == status_resolved)
    then some (message "unsupported alert status")
    else none

format_dedup_time : TimeFormat → Time → String
format_dedup_time f value = if is_zero value then "" else f.rfc3339_nano value

-- `parts = append(parts, formatDedupTime(t))` unless `t` is the zero time
time_part : TimeFormat → Time → List String
unfolding format_dedup_time
time_part f t = if is_zero t then [] else format_dedup_time f t ∷ []

append_parts : List String → List String → List String
append_parts [] ys = ys
append_parts (x ∷ xs) ys = x ∷ append_parts xs ys

unfoldable pub dedup_key : TimeFormat → AlertEvent → String
unfolding time_part append_parts join
dedup_key f event =
    join
      ("alert"
        ∷ "dedup"
        ∷ event.fingerprint
        ∷ event.status
        ∷ append_parts (time_part f event.starts_at) (time_part f event.ends_at))
      ":"

unfoldable pub aggregate_key : AlertEvent → String
aggregate_key event =
    let alert_name = trim_space (label "alertname" event.labels) in
    let instance_name = trim_space (label "instance" event.labels) in
    if not (alert_name == "") && not (instance_name == "")
    then append alert_name (append ":" instance_name)
    else if not (alert_name == "")
    then alert_name
    else event.fingerprint

unfoldable pub alert_name_or_fallback : AlertEvent → String
alert_name_or_fallback event =
    let alert_name = trim_space (label "alertname" event.labels) in
    if not (alert_name == "") then alert_name else event.fingerprint

-- `now` is `time.Now().UTC()`
unfoldable pub received_at_or_now : Time → AlertEvent → Time
received_at_or_now now event = if not (is_zero event.received_at) then event.received_at else now
