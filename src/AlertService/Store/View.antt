-- ===== src/AlertService/Store/View.antt =====
-- The abstract view of alert-service's Redis data, and `Process` as a step on it.
use server_monitor.Base.{
  ℕ, ◌+◌, String, ◌≡◌, ◌≢◌, ap, Bool, true, false, Option, none, some, arith, ◌==◌, eq_iff,
  if◌then◌else◌,
}
use server_monitor.Base.Text.{has_prefix}
use server_monitor.Times.{TimeFormat}
use server_monitor.RedisServer.{Redis, done}
use server_monitor.AlertService.Event.{AlertEvent, status_firing, dedup_key, alert_name_or_fallback}
use server_monitor.AlertService.Scripts.{Keys}
use server_monitor.AlertService.Scripts.Firing.{KeysDiffer}

dedup_key-ne-active : (f : TimeFormat) (event : AlertEvent) → "alert:active" ≢ dedup_key f event
unfolding dedup_key has_prefix
dedup_key-ne-active f event p = let q : false ≡ true = ap (λ s. has_prefix s "alert:d") p in cc

dedup_key-ne-stats : (f : TimeFormat) (event : AlertEvent) → "alert:stats" ≢ dedup_key f event
unfolding dedup_key has_prefix
dedup_key-ne-stats f event p = let q : false ≡ true = ap (λ s. has_prefix s "alert:d") p in cc

active-ne-stats : ◌≢◌ {A = String} "alert:active" "alert:stats"
active-ne-stats = ground (arith, eq_iff "alert:active" "alert:stats")

abbrev pub keys : TimeFormat → AlertEvent → Keys
keys f event = record {
  dedup_key = dedup_key f event;
  active_key = "alert:active";
  stats_key = "alert:stats";
}

pub keys-KeysDiffer : (f : TimeFormat) (event : AlertEvent) → KeysDiffer (keys f event)
keys-KeysDiffer f event = record {
  active-dedup = dedup_key-ne-active f event;
  stats-dedup = dedup_key-ne-stats f event;
  active-stats = active-ne-stats;
}

-- The active alert of each fingerprint, the firing count of each alert name, and the dedup keys
-- that have not expired.
pub record View : Type 0 where
  pub active : String → Option String
  pub count : String → ℕ
  pub seen : String → Bool

-- What an event means, given the payload that is kept of it.
unfoldable pub apply_event : TimeFormat → AlertEvent → String → View → View
apply_event f event payload v =
    if v.seen (dedup_key f event)
    then v
    else if event.status == status_firing
    then record {
      active = λ g. if event.fingerprint == g then some payload else v.active g;
      count = λ g. if alert_name_or_fallback event == g then v.count g + 1 else v.count g;
      seen = λ j. if dedup_key f event == j then true else v.seen j;
    }
    else record {
      active = λ g. if event.fingerprint == g then none else v.active g;
      count = v.count;
      seen = λ j. if dedup_key f event == j then true else v.seen j;
    }

module _ (R : Redis) where
  open R use {State}

  -- The state of Redis shows a view.
  pub record Shows (s : State) (v : View) : Type 0 where
    pub active : (g : String) → R.hget "alert:active" g s ≡ done (v.active g)
    pub count : (g : String) → R.hcount "alert:stats" g s ≡ v.count g
    pub seen : (j : String) → "alert:active" ≢ j → "alert:stats" ≢ j → R.exists j s ≡ v.seen j
