-- ===== src/RateLimit.antt =====
-- server-web/api/middleware/ratelimit.go: the limit of requests, around the window in Redis.
pub mod Limits
mod Tests
use server_monitor.Base.{
  ℕ, String, Bool, true, false, not, ◌&&◌, ◌||◌, Option, none, some, ◌==◌, if◌then◌else◌,
}
use server_monitor.Base.Int.{ℤ, pos, leb_ℤ}
use server_monitor.Base.Text.{append, has_prefix}
use server_monitor.Errors.{GoError, Result, ok, err}
use server_monitor.WebRedis.{Server, allow_sliding_window}
use server_monitor.Config.Web.{RateLimitConfig}

-- What becomes of a request: it goes on unseen, or it is counted and goes on or is answered with
-- status 429, with the headers of the limit, what remains of it and the window.
pub data Limited : Type 0 where
  passed : Limited
  counted : Bool → ℤ → ℤ → ℤ → Limited

unfoldable pub should_skip_rate_limit : String → Bool
unfolding has_prefix
should_skip_rate_limit path =
    if (path == "/metrics") || ((path == "/healthz") || (path == "/readyz"))
    then true
    else not (has_prefix path "/api/") && not (has_prefix path "/ws/")

unfoldable pub rate_limit_key : String → String → String
rate_limit_key ip path = append "ratelimit" (append ":" (append ip (append ":" path)))

module _ (R : Server) where
  open R use {State}

  -- An error of the check lets the request pass.
  limited : RateLimitConfig → Result (Bool × ℤ) × State → Limited × State
  limited cfg (err e, t) = (passed, t)
  limited cfg (ok (allowed, remaining), t) = (counted allowed cfg.requests remaining cfg.window, t)

  -- RateLimit for a request from an address, to a route (empty if none matches) by a path, with
  -- the store that there is, if any, enabled or not
  unfoldable pub rate_limit :
      (ℕ → ℕ)
      → Option Bool
      → RateLimitConfig
      → String
      → String
      → String
      → ℕ
      → State
      → Limited × State
  unfolding limited should_skip_rate_limit rate_limit_key
  rate_limit float64 store cfg ip full_path url_path now s =
      if not cfg.enabled || (leb_ℤ cfg.requests (pos 0) || leb_ℤ cfg.window (pos 0))
      then (passed, s)
      else if should_skip_rate_limit url_path
      then (passed, s)
      else elim store [
        | none ↦ (passed, s)
        | some enabled ↦
            if not enabled
            then (passed, s)
            else limited cfg (
                allow_sliding_window R float64 enabled
                  (rate_limit_key ip (if full_path == "" then url_path else full_path)) cfg.requests
                  cfg.window now s)
      ]
