-- ===== src/WebAlerts/Cache.antt =====
-- The interface CacheClient of server-web/alert/service.go, and what its users rely on.
use server_monitor.Base.{
  String, ◌≡◌, ◌≢◌, Bool, true, false, ◌&&◌, Option, none, some, List, ◌==◌, if◌then◌else◌,
}
use server_monitor.Base.Int.{ℤ}
use server_monitor.Base.Keyed.{Keyed}
use server_monitor.Errors.{GoError, Result, ok}

pub record Cache : Type 1 where
  pub State : Type 0
  pub h_set : String → String → String → State → Option GoError × State
  pub h_del : String → String → State → Option GoError × State
  pub h_get_all : String → State → Result (Keyed String)
  -- stream key, dedupe key, maximal length, value, dedupe value, time to live
  pub add_alert_event_once : String → String → ℤ → String → String → ℤ → State → Result Bool × State
  pub x_rev_range_n : String → ℤ → State → Result (List String)
  pub publish : String → String → State → Option GoError × State
  -- What the state holds: a field of a hash, whether a key exists, a stream with the newest first.
  pub field : String → String → State → Option String
  pub exists : String → State → Bool
  pub entries : String → State → List String

pub record CacheLaws (C : Cache) : Type 0 where
  pub field-h_set :
      (k f v j g : String) (s t : C.State)
      → C.h_set k f v s ≡ (none, t)
      → C.field j g t ≡ (if (k == j) && (f == g) then some v else C.field j g s)
  pub field-h_del :
      (k f j g : String) (s t : C.State)
      → C.h_del k f s ≡ (none, t)
      → C.field j g t ≡ (if (k == j) && (f == g) then none else C.field j g s)
  pub exists-h_set :
      (k f v j : String) (s : C.State) → k ≢ j → C.exists j (C.h_set k f v s).1 ≡ C.exists j s
  pub exists-h_del :
      (k f j : String) (s : C.State) → k ≢ j → C.exists j (C.h_del k f s).1 ≡ C.exists j s
  -- The stream has one entry more, and the dedupe key, which did not exist, exists.
  pub stored_new :
      (k d v w : String) (n ttl : ℤ) (s t : C.State)
      → C.add_alert_event_once k d n v w ttl s ≡ (ok true, t)
      → C.exists d s ≡ false
  pub exists-stored :
      (k d v w j : String) (n ttl : ℤ) (s t : C.State)
      → C.add_alert_event_once k d n v w ttl s ≡ (ok true, t)
      → k ≢ j
      → C.exists j t ≡ (if d == j then true else C.exists j s)
  pub known :
      (k d v w : String) (n ttl : ℤ) (s t : C.State)
      → C.add_alert_event_once k d n v w ttl s ≡ (ok false, t)
      → (C.exists d s ≡ true) × (t ≡ s)
  pub exists-add_alert_event_once :
      (k d v w j : String) (n ttl : ℤ) (s : C.State)
      → C.exists j s ≡ true
      → C.exists j (C.add_alert_event_once k d n v w ttl s).1 ≡ true
  pub field-add_alert_event_once :
      (k d v w j g : String) (n ttl : ℤ) (s : C.State)
      → k ≢ j
      → d ≢ j
      → C.field j g (C.add_alert_event_once k d n v w ttl s).1 ≡ C.field j g s
  pub exists-publish :
      (channel message j : String) (s : C.State)
      → C.exists j (C.publish channel message s).1 ≡ C.exists j s
  pub field-publish :
      (channel message j g : String) (s : C.State)
      → C.field j g (C.publish channel message s).1 ≡ C.field j g s
