-- ===== src/AlertService/Store.antt =====
-- alert-service/alert/store.go, and the wrapper of permanent errors of alert-service/kafka/consumer.go.
pub mod Outcomes
pub mod View
pub mod Refines
use server_monitor.Base.{
  ℕ, ◌*◌, ◌/◌, String, Bool, true, false, not, ◌||◌, Option, none, some, List, [], ◌∷◌, ◌==◌,
  if◌then◌else◌,
}
use server_monitor.Base.Int.{ℤ, pos, pos_part, leb_ℤ}
use server_monitor.Errors.{GoError, message, wrapped, permanent_error, Result, ok, err}
use server_monitor.Times.{TimeFormat}
use server_monitor.RedisServer.{Redis}
use server_monitor.AlertService.Event.{
  AlertEvent, status_firing, status_resolved, validate_event, dedup_key, alert_name_or_fallback,
}
use server_monitor.AlertService.Scripts.{Args, apply_firing_event, apply_resolved_event}

-- IsPermanent: `errors.As` finds the wrapper in the chain
unfoldable pub is_permanent : GoError → Bool
is_permanent (message m) = false
is_permanent (wrapped m e) = is_permanent e
is_permanent (permanent_error e) = true

-- Permanent of an error that is not nil
unfoldable pub permanent : GoError → GoError
unfolding is_permanent
permanent e = if is_permanent e then e else permanent_error e

-- nanoseconds
abbrev pub default_dedup_ttl : ℤ
default_dedup_ttl = pos (5 * 60 * 1000000000)

pub record Store : Type 0 where
  pub has_client : Bool  -- `client != nil`
  pub client_enabled : Bool
  pub dedup_ttl : ℤ
  pub has_observer : Bool  -- `observer != nil`

unfoldable pub new_store : Bool → Bool → ℤ → Bool → Store
new_store has_client enabled ttl observed = record {
  has_client = has_client;
  client_enabled = enabled;
  dedup_ttl = if leb_ℤ ttl (pos 0) then default_dedup_ttl else ttl;
  has_observer = observed;
}

pub data Outcome : Type 0 where
  event_stored event_deduped event_failed : Outcome

unfoldable pub normalize_status : String → String
normalize_status status =
    if (status == status_firing) || (status == status_resolved) then status else "unknown"

-- A call of `ObserveAlertEvent`
abbrev pub Observation : Type 0
Observation = String × Outcome

observe : Store → String → Outcome → List Observation
unfolding normalize_status
observe s status outcome = if s.has_observer then (normalize_status status, outcome) ∷ [] else []

-- `none` is a nil error. A call returns the error, the state of Redis and what it observed.
abbrev pub Processed : Type 0 → Type 0
Processed S = record { error : Option GoError; redis : S; observed : List Observation }

module _ (R : Redis) (fmt : TimeFormat) (marshal : AlertEvent → Option String) where
  open R use {State}

  script_args : Store → AlertEvent → String → Args
  script_args s event payload = record {
    ttl = pos_part s.dedup_ttl / 1000000;
    fingerprint = event.fingerprint;
    payload = payload;
    stats_field = alert_name_or_fallback event;
  }

  settle : Store → AlertEvent → Result Bool × State → Processed State
  unfolding observe
  settle s event (ok true, t) = record {
    error = none;
    redis = t;
    observed = observe s event.status event_stored;
  }
  settle s event (ok false, t) = record {
    error = none;
    redis = t;
    observed = observe s event.status event_deduped;
  }
  settle s event (err e, t) = record {
    error = some e;
    redis = t;
    observed = observe s event.status event_failed;
  }

  process_firing : Store → AlertEvent → Option String → State → Processed State
  unfolding settle observe script_args
  process_firing s event none t = record {
    error = some (message "marshal active alert");
    redis = t;
    observed = observe s event.status event_failed;
  }
  process_firing s event (some payload) t =
      settle s event (
        apply_firing_event R s.client_enabled (dedup_key fmt event) (script_args s event payload) t)

  process_valid : Store → AlertEvent → State → Processed State
  unfolding process_firing
  process_valid s event t =
      if event.status == status_firing
      then process_firing s event (marshal event) t
      else if event.status == status_resolved
      then settle s event
          (apply_resolved_event R s.client_enabled (dedup_key fmt event) (script_args s event "") t)
      else record { error = none; redis = t; observed = observe s event.status event_stored }

  process_validated : Store → AlertEvent → Option GoError → State → Processed State
  unfolding process_valid permanent
  process_validated s event (some e) t = record {
    error = some (permanent e);
    redis = t;
    observed = observe s event.status event_failed;
  }
  process_validated s event none t = process_valid s event t

  -- (*Store).Process; a nil store is `none`
  unfoldable pub process : Option Store → AlertEvent → State → Processed State
  unfolding process_validated
  process none event t = record {
    error = some (message "alert store is nil");
    redis = t;
    observed = [];
  }
  process (some s) event t =
      if not s.has_client
      then record { error = some (message "redis client is required"); redis = t; observed = [] }
      else process_validated s event (validate_event event) t
