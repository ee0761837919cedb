-- ===== src/AlertService/Tests.antt =====
-- Runs of alert-service over a Redis server in memory.
use server_monitor.Base.{
  ℕ, suc, max, ◌<◌, ◌≤◌, String, ◌≡◌, refl, Bool, true, false, Option, none, some, List, [], ◌∷◌,
  arith, All, ◌==◌, if◌then◌else◌,
}
use server_monitor.Base.Int.{pos}
use server_monitor.Errors.{message}
use server_monitor.Base.Keyed.{member}
use server_monitor.Times.Unary.{unary, unary_format}
use server_monitor.RedisServer.Memory.{Memory, empty, memory, memory-RedisLaws}
use server_monitor.AlertService.Event.{AlertEvent, validate_event, dedup_key}
use server_monitor.AlertService.Scripts.{
  Args, Keys, stored, apply_firing_event, apply_firing_event_script, apply_resolved_event_script,
}
use server_monitor.AlertService.Scripts.Firing.{IsRolledBack, increment_failed-IsRolledBack}
use server_monitor.AlertService.Scripts.Effects.{IsStored, stored-IsStored, stored_then_ignored}
use server_monitor.AlertService.Scripts.Resolved.{IsCleared, stored-IsCleared}
use server_monitor.AlertService.Store.{Store, is_permanent, process}
use server_monitor.AlertService.Store.Outcomes.{Accounted, process-Accounted}
use server_monitor.AlertService.Store.View.{View, keys, keys-KeysDiffer, apply_event, Shows}
use server_monitor.AlertService.Store.Refines.{process-Shows}
use server_monitor.AlertService.Consumer.{
  Message, Verdict, returned, process_message, consume_claim,
}
use server_monitor.AlertService.Consumer.Marks.{failed_is_skipped}

abbrev cpu_high : AlertEvent
cpu_high = record {
  type = "alert";
  fingerprint = "f1";
  status = "firing";
  labels = ("alertname", " HighCPU ") ∷ ("instance", "web-1") ∷ [];
  annotations = [];
  starts_at = 3;
  ends_at = 0;
  generator_url = "";
  received_at = 4;
}

abbrev cpu_ok : AlertEvent
cpu_ok = record cpu_high { status = "resolved"; ends_at = 5 }

abbrev firing_args : Args
firing_args = record { ttl = 300000; fingerprint = "f1"; payload = "{}"; stats_field = "HighCPU" }

abbrev the_keys : Keys
the_keys = keys unary_format cpu_high

abbrev ran_once : Memory
ran_once = (apply_firing_event_script (memory "") the_keys firing_args empty).1

the_key : dedup_key unary_format cpu_high ≡ "alert:dedup:f1:firing:iiit"
unfolding dedup_key unary
the_key = refl

increment_failed-IsRolledBack_example :
    IsRolledBack
      (memory "alert:stats")
      (memory-RedisLaws "alert:stats")
      the_keys
      (keys-KeysDiffer unary_format cpu_high)
      firing_args
      empty
      (apply_firing_event_script (memory "alert:stats") the_keys firing_args empty).1
unfolding apply_firing_event_script dedup_key member
increment_failed-IsRolledBack_example =
    increment_failed-IsRolledBack (memory "alert:stats") (memory-RedisLaws "alert:stats") the_keys
      (keys-KeysDiffer unary_format cpu_high) firing_args empty
      (apply_firing_event_script (memory "alert:stats") the_keys firing_args empty).1 "WRONGTYPE"
      refl

stored-IsStored_example :
    IsStored
      (memory "")
      (memory-RedisLaws "")
      the_keys
      (keys-KeysDiffer unary_format cpu_high)
      firing_args
      empty
      ran_once
unfolding apply_firing_event_script dedup_key member
stored-IsStored_example =
    stored-IsStored (memory "") (memory-RedisLaws "") the_keys
      (keys-KeysDiffer unary_format cpu_high) firing_args empty ran_once refl

stored_then_ignored_example :
    apply_firing_event_script (memory "") the_keys (record firing_args { payload = "{2}" }) ran_once
    ≡ (stored 0, ran_once)
unfolding apply_firing_event_script dedup_key member
stored_then_ignored_example =
    stored_then_ignored (memory "") (memory-RedisLaws "") the_keys
      (keys-KeysDiffer unary_format cpu_high) firing_args empty ran_once
      (record firing_args { payload = "{2}" }) refl

abbrev resolved_keys : Keys
resolved_keys = keys unary_format cpu_ok

abbrev ran_twice : Memory
ran_twice = (apply_resolved_event_script (memory "") resolved_keys firing_args ran_once).1

stored-IsCleared_example :
    IsCleared
      (memory "")
      (memory-RedisLaws "")
      resolved_keys
      (keys-KeysDiffer unary_format cpu_ok)
      firing_args
      ran_once
      ran_twice
unfolding apply_firing_event_script apply_resolved_event_script dedup_key member unary
stored-IsCleared_example =
    stored-IsCleared (memory "") (memory-RedisLaws "") resolved_keys
      (keys-KeysDiffer unary_format cpu_ok) firing_args ran_once ran_twice refl

abbrev encode : AlertEvent → String
encode event = event.fingerprint

abbrev marshal : AlertEvent → Option String
marshal event = some (encode event)

abbrev store : Store
store = record {
  has_client = true;
  client_enabled = true;
  dedup_ttl = pos 300000000000;
  has_observer = true;
}

abbrev after_first : Memory
after_first = (process (memory "") unary_format marshal (some store) cpu_high empty).redis

process-Accounted_example :
    Accounted "firing" true after_first
      (process (memory "") unary_format marshal (some store) cpu_high after_first)
unfolding validate_event
process-Accounted_example =
    process-Accounted (memory "") unary_format marshal store cpu_high after_first refl refl

abbrev no_alerts : View
no_alerts = record { active = λ g. none; count = λ g. 0; seen = λ j. false }

empty-Shows : Shows (memory "") empty no_alerts
unfolding member
empty-Shows = record { active = λ g. refl; count = λ g. refl; seen = λ j p q. refl }

process-Shows_example :
    Shows (memory "") after_first (apply_event unary_format cpu_high "f1" no_alerts)
unfolding process validate_event apply_firing_event apply_firing_event_script dedup_key member
process-Shows_example =
    process-Shows (memory "") (memory-RedisLaws "") unary_format marshal store cpu_high "f1" empty
      no_alerts refl empty-Shows refl

-- "high" and "ok" stand for the encoded events.
abbrev unmarshal : String → Option AlertEvent
unmarshal text =
    if text == "high" then some cpu_high else if text == "ok" then some cpu_ok else none

abbrev message_of : ℕ → String → Message
message_of n text = record { offset = n; value = text }

abbrev claimed : List Message
claimed = message_of 3 "high" ∷ message_of 4 "{" ∷ message_of 5 "ok" ∷ message_of 6 "high" ∷ []

-- The offset that a client commits after the given marks.
abbrev committed : List ℕ → ℕ
committed [] = 0
committed (n ∷ ns) = max (suc n) (committed ns)

below_max :
    (a : ℕ) (ns : List ℕ) → All (λ n. n < committed ns) ns → All (λ n. n < max a (committed ns)) ns
below_max a ns h = weaken ns (committed ns) (max a (committed ns)) (omega arith) h
  where
    weaken : (l : List ℕ) (b c : ℕ) → b ≤ c → All (λ n. n < b) l → All (λ n. n < c) l
    weaken [] b c p h = tt
    weaken (x ∷ l) b c p h = (omega (arith, h.0), weaken l b c p h.1)

committed-above : (l : List ℕ) → All (λ n. n < committed l) l
committed-above [] = tt
committed-above (n ∷ ns) = (omega arith, below_max (suc n) ns (committed-above ns))

-- A processor that fails for the moment on the first event, as with a Redis that is away.
abbrev flaky : AlertEvent → Bool → Verdict × Bool
flaky event true = (returned none, true)
flaky event false = (returned (some (message "timeout")), true)

failed_is_skipped_example :
    3
    < committed
        (consume_claim unmarshal flaky (message_of 3 "high" ∷ message_of 4 "{" ∷ []) false).marks
unfolding consume_claim process_message is_permanent
failed_is_skipped_example =
    failed_is_skipped unmarshal flaky committed (message_of 3 "high") (message_of 4 "{" ∷ []) false
      committed-above (omega arith, tt) refl (λ e. cc)
