-- ===== src/WebAlerts/History.antt =====
-- The alert history: server-web/model/alert_history.go, BuildHistory and archiveHistory of
-- server-web/alert/service.go, over the history table.
pub mod Archive
use server_monitor.Base.{
  ℕ, String, ◌≡◌, ◌≢◌, Bool, true, false, Option, none, some, ◌==◌, if◌then◌else◌,
}
use server_monitor.Base.Text.{trim_space}
use server_monitor.Base.Keyed.{Keyed, label}
use server_monitor.Errors.{GoError, Result, ok, err}
use server_monitor.Times.{Time}
use server_monitor.WebAlerts.Records.{AlertRecord}

-- The columns that the service sets; the table adds the id.
pub record AlertHistory : Type 0 where
  pub fingerprint : String
  pub alert_name : String
  pub instance_name : String
  pub severity : String
  pub status : String
  pub summary : String
  pub labels_json : String
  pub fired_at : Time
  pub resolved_at : Option Time

-- The map `updates`: five columns, and two more for a resolved alert.
pub record Updates : Type 0 where
  pub alert_name : String
  pub instance_name : String
  pub severity : String
  pub summary : String
  pub labels_json : String
  pub resolution : Option (String × Option Time)

-- What the database library does, within one transaction.
pub record HistoryTable : Type 1 where
  pub State : Type 0
  -- First of the rows with a fingerprint and a firing time, by descending id; `ok none` is
  -- ErrRecordNotFound
  pub find_latest : String → Time → State → Result (Option ℕ)
  pub create : AlertHistory → State → Result State
  -- Updates of the row with an id
  pub updates : ℕ → Updates → State → Result State
  -- The row with an id
  pub row : ℕ → State → Option AlertHistory

unfoldable pub updated : Updates → AlertHistory → AlertHistory
updated u h = record h {
  alert_name = u.alert_name;
  instance_name = u.instance_name;
  severity = u.severity;
  summary = u.summary;
  labels_json = u.labels_json;
  status = elim u.resolution [ none ↦ h.status | some (status, at) ↦ status ];
  resolved_at = elim u.resolution [ none ↦ h.resolved_at | some (status, at) ↦ at ];
}

-- BuildHistory; `marshal` is marshalStringMap
unfoldable pub build_history : (Keyed String → Option String) → AlertRecord → Option AlertHistory
build_history marshal alert = elim (marshal alert.labels) [
  | none ↦ none
  | some labels_json ↦
      let severity = trim_space (label "severity" alert.labels) in
      some (record {
        fingerprint = alert.fingerprint;
        alert_name = trim_space (label "alertname" alert.labels);
        instance_name = trim_space (label "instance" alert.labels);
        severity = if severity == "" then "warning" else severity;
        status = alert.status;
        summary = trim_space (label "summary" alert.annotations);
        labels_json = labels_json;
        fired_at = alert.starts_at;
        resolved_at = if alert.status == "resolved" then some alert.ends_at else none;
      })
]

unfoldable pub updates_of : AlertHistory → Updates
updates_of history = record {
  alert_name = history.alert_name;
  instance_name = history.instance_name;
  severity = history.severity;
  summary = history.summary;
  labels_json = history.labels_json;
  resolution =
      if history.status == "resolved" then some ("resolved", history.resolved_at) else none;
}

module _ (H : HistoryTable) where
  open H use {State}

  -- What a failed transaction leaves: the state of its start.
  committed : Result State → State → State
  committed (ok t) s = t
  committed (err e) s = s

  create_or_update : AlertHistory → Result (Option ℕ) → State → Result State
  unfolding updates_of
  create_or_update history (ok none) s = H.create history s
  create_or_update history (ok (some id)) s = H.updates id (updates_of history) s
  create_or_update history (err e) s = err e

  archive_built : Option AlertHistory → State → State
  unfolding committed create_or_update
  archive_built none s = s
  archive_built (some history) s =
      committed (create_or_update history (H.find_latest history.fingerprint history.fired_at s) s)
        s

  -- archiveHistory with a database or without; its errors are only logged
  unfoldable pub archive_history :
      (Keyed String → Option String) → Bool → AlertRecord → State → State
  unfolding archive_built
  archive_history marshal has_db alert s =
      if has_db then archive_built (build_history marshal alert) s else s
