-- ===== src/Config/Durations.antt =====
-- The durations that the configuration of server-web loads.
use server_monitor.Base.{
  ℕ, ◌≤◌, String, ◌≡◌, refl, Bool, true, false, Option, none, some, List, [], ◌∷◌, ◌==◌, arith, ltb,
  leb, ◌&&◌, Bool-cases, inl, inr,
}
use server_monitor.Base.Int.{ℤ, pos, negsuc, pos_part, leb_ℤ}
use server_monitor.Base.Numbers.{parse_int}
use server_monitor.Config.Env.{
  Env, value_of, int_or, positive_int, times, duration_seconds, duration_milliseconds,
}
use server_monitor.Config.Start.Accepted.{times-within}
use server_monitor.Config.Web

-- The variables that hold numbers hold at most as many seconds as a duration has.
abbrev pub Small : Env → Type 0
Small env = (key : String) (n : ℕ) → parse_int (value_of (env key)) ≡ some (pos n) → n ≤ 9223372036

unfoldable pub Positive : ℤ → Type 0
Positive d = leb_ℤ d (pos 0) ≡ false

infixr 5 ◌&◌
pub data AllPositive : List ℤ → Type 0 where
  all_seen : AllPositive []
  ◌&◌ : {d : ℤ} {ds : List ℤ} → Positive d → AllPositive ds → AllPositive (d ∷ ds)

-- A number that a variable of such an environment gives.
Fits : ℤ → Type 0
Fits r = Positive r × (pos_part r ≤ 9223372036)

int_or-Fits :
    (f : ℕ) (read : Option ℤ)
    → Fits (pos f)
    → ((n : ℕ) → read ≡ some (pos n) → n ≤ 9223372036)
    → Fits (int_or (λ n. leb_ℤ n (pos 0)) (pos f) read)
unfolding int_or Fits Positive
int_or-Fits f none fits small = fits
int_or-Fits f (some (pos n)) fits small = ground (arith, fits, small n refl)
int_or-Fits f (some (negsuc n)) fits small = rw below fits
  where
    below : leb_ℤ (negsuc n) (pos 0) ≡ true
    below = ground arith

positive_int-Fits :
    (env : Env) (key : String) (f : ℕ)
    → Small env
    → Fits (pos f)
    → Fits (positive_int env key (pos f))
unfolding positive_int
positive_int-Fits env key f small fits = elim (Bool-cases (value_of (env key) == "")) [
  | inl e ↦ rw e fits
  | inr e ↦ rw e (int_or-Fits f (parse_int (value_of (env key))) fits (small key))
]

seconds_above : (r : ℤ) → Fits r → Positive (times r 1000000000)
unfolding Fits Positive
seconds_above (pos n) (positive, few) =
    rw (times-within n 1000000000 (omega (arith, few))) (ground (arith, positive))
seconds_above (negsuc n) (positive, few) = absurd (ground arith)

milliseconds_above : (r : ℤ) → Fits r → Positive (times r 1000000)
unfolding Fits Positive
milliseconds_above (pos n) (positive, few) =
    rw (times-within n 1000000 (omega (arith, few))) (ground (arith, positive))
milliseconds_above (negsuc n) (positive, few) = absurd (ground arith)

default_in_range : (f : ℕ) → ltb 0 f && leb f 9223372036 ≡ true → Fits (pos f)
unfolding Fits Positive
default_in_range f h = ground arith

duration_seconds-Positive :
    (env : Env) (key : String) (f : ℕ)
    → Small env
    → ltb 0 f && leb f 9223372036 ≡ true
    → Positive (duration_seconds env key (pos f))
unfolding duration_seconds
duration_seconds-Positive env key f small h =
    seconds_above (positive_int env key (pos f))
      (positive_int-Fits env key f small (default_in_range f h))

duration_milliseconds-Positive :
    (env : Env) (key : String) (f : ℕ)
    → Small env
    → ltb 0 f && leb f 9223372036 ≡ true
    → Positive (duration_milliseconds env key (pos f))
unfolding duration_milliseconds
duration_milliseconds-Positive env key f small h =
    milliseconds_above (positive_int env key (pos f))
      (positive_int-Fits env key f small (default_in_range f h))

module _ {Float : Type 0} where
  -- The durations of a configuration, in the order of its fields.
  unfoldable pub durations : Web.Config Float → List ℤ
  durations c =
      c.alert_rule_sync_timeout ∷ c.request_timeout ∷ c.ready_timeout ∷ c.http_read_header_timeout
      ∷ c.http_read_timeout ∷ c.http_write_timeout ∷ c.http_idle_timeout ∷ c.shutdown_timeout
      ∷ c.hosts_broadcast_interval ∷ c.hosts_cache_ttl ∷ c.dashboard_overview_ttl
      ∷ c.alert_event_dedupe_ttl ∷ c.cache_write_timeout ∷ c.rate_limit.window
      ∷ c.rate_limit.operation_timeout ∷ c.redis_startup_timeout ∷ c.redis_dial_timeout
      ∷ c.redis_read_timeout ∷ c.redis_write_timeout ∷ c.redis_conn_max_lifetime
      ∷ c.redis_conn_max_idle_time ∷ c.mysql_startup_timeout ∷ c.mysql_ping_timeout ∷ []

  -- Where every number in the environment is at most 9223372036, the seconds that a duration can hold,
  -- every duration that Load gives is positive, whatever other texts the environment holds.
  pub load-AllPositive :
      (parse_float : String → Option Float) (less : Float → Float → Bool) (zero one : Float)
      (env : Env)
      → Small env
      → AllPositive (durations (Web.load parse_float less zero one env))
  unfolding durations Web.load
  load-AllPositive parse_float less zero one env small =
      seconds "ALERT_RULE_SYNC_TIMEOUT_SECONDS" 10 refl
      & seconds "REQUEST_TIMEOUT_SECONDS" 5 refl
      & seconds "READY_TIMEOUT_SECONDS" 3 refl
      & seconds "HTTP_READ_HEADER_TIMEOUT_SECONDS" 5 refl
      & seconds "HTTP_READ_TIMEOUT_SECONDS" 15 refl
      & seconds "HTTP_WRITE_TIMEOUT_SECONDS" 30 refl
      & seconds "HTTP_IDLE_TIMEOUT_SECONDS" 120 refl
      & seconds "SHUTDOWN_TIMEOUT_SECONDS" 5 refl
      & seconds "HOSTS_BROADCAST_INTERVAL_SECONDS" 5 refl
      & seconds "HOSTS_CACHE_TTL_SECONDS" 30 refl
      & seconds "DASHBOARD_OVERVIEW_TTL_SECONDS" 10 refl
      & seconds "ALERT_EVENT_DEDUPE_TTL_SECONDS" 86400 refl
      & seconds "CACHE_WRITE_TIMEOUT_SECONDS" 3 refl
      & seconds "RATE_LIMIT_WINDOW_SECONDS" 60 refl
      & milliseconds "RATE_LIMIT_OPERATION_TIMEOUT_MILLISECONDS" 500 refl
      & seconds "REDIS_STARTUP_TIMEOUT_SECONDS" 5 refl
      & seconds "REDIS_DIAL_TIMEOUT_SECONDS" 5 refl
      & seconds "REDIS_READ_TIMEOUT_SECONDS" 3 refl
      & seconds "REDIS_WRITE_TIMEOUT_SECONDS" 3 refl
      & seconds "REDIS_CONN_MAX_LIFETIME_SECONDS" 1800 refl
      & seconds "REDIS_CONN_MAX_IDLE_TIME_SECONDS" 300 refl
      & seconds "MYSQL_STARTUP_TIMEOUT_SECONDS" 5 refl
      & seconds "MYSQL_PING_TIMEOUT_SECONDS" 3 refl
      & all_seen
    where
      seconds :
          (key : String) (f : ℕ)
          → ltb 0 f && leb f 9223372036 ≡ true
          → Positive (duration_seconds env key (pos f))
      seconds key f = duration_seconds-Positive env key f small

      milliseconds :
          (key : String) (f : ℕ)
          → ltb 0 f && leb f 9223372036 ≡ true
          → Positive (duration_milliseconds env key (pos f))
      milliseconds key f = duration_milliseconds-Positive env key f small
