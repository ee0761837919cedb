-- ===== src/RateLimit/Limits.antt =====
-- What a configuration that is valid makes of the limit.
use server_monitor.Base.{
  ℕ, ◌-◌, ◌≤◌, String, ◌≡◌, refl, Bool, true, false, none, some, List, ◌∷◌, ◌==◌, if◌then◌else◌,
}
use server_monitor.Base.Int.{ℤ, pos, pos_part, leb_ℤ}
use server_monitor.WebRedis.{Server, delivered, allow_sliding_window}
use server_monitor.WebRedis.Window.{
  WindowLaws, Accounts, count_from, allowed_within_limit, allow_sliding_window-delivered,
}
use server_monitor.Config.Addresses.{Addresses}
use server_monitor.Config.Web.{Config, RateLimitConfig, validate}
use server_monitor.Config.Web.Checked.{requests_positive, window_positive}
use server_monitor.RateLimit.{
  Limited, counted, should_skip_rate_limit, rate_limit_key, limited, rate_limit,
}

-- The key that the requests of an address to a route share.
abbrev pub key_of : String → String → String → String
key_of ip full_path url_path = rate_limit_key ip (if full_path == "" then url_path else full_path)

module _ (R : Server) (L : WindowLaws R) (float64 : ℕ → ℕ) where
  -- What becomes of a request after the earlier ones: it is counted, so it is accounted for as well,
  -- and goes on only if there are at most as many in the window as the limit.
  abbrev pub Within : RateLimitConfig → String → ℕ → List ℕ → Limited × R.State → Type 0
  Within cfg key now calls (verdict, t) =
      (allowed : Bool) × (remaining : ℤ) × (verdict
        ≡ counted allowed cfg.requests remaining cfg.window)
      × Accounts R L float64 key (now - pos_part cfg.window) (now ∷ calls) t
      × (allowed ≡ true
          → count_from (now - pos_part cfg.window) (now ∷ calls) ≤ pos_part cfg.requests)

  rate_limit-asks :
      (cfg : RateLimitConfig) (ip full_path url_path : String) (now : ℕ) (s : R.State)
      → cfg.enabled ≡ true
      → leb_ℤ cfg.requests (pos 0) ≡ false
      → leb_ℤ cfg.window (pos 0) ≡ false
      → should_skip_rate_limit url_path ≡ false
      → rate_limit R float64 (some true) cfg ip full_path url_path now s
        ≡ limited R cfg (
            allow_sliding_window R float64 true
              (key_of ip full_path url_path)
              cfg.requests
              cfg.window
              now
              s)
  unfolding rate_limit
  rate_limit-asks cfg ip full_path url_path now s on requests_ok window_ok seen =
      rw (on, requests_ok, window_ok, seen) refl

  limited-Within :
      (cfg : RateLimitConfig) (key : String) (now start : ℕ) (calls : List ℕ) (s : R.State)
      → ((a b : ℕ) → a ≤ b → float64 a ≤ float64 b)
      → start ≤ now - pos_part cfg.window
      → Accounts R L float64 key start calls s
      → leb_ℤ cfg.requests (pos 0) ≡ false
      → leb_ℤ cfg.window (pos 0) ≡ false
      → R.link s ≡ delivered
      → Within cfg key now calls
          (limited R cfg (allow_sliding_window R float64 true key cfg.requests cfg.window now s))
  unfolding limited
  limited-Within cfg key now start calls s mono later accounts requests_ok window_ok link =
      let (allowed, remaining, t, answer) =
        allow_sliding_window-delivered R L float64 key cfg.requests cfg.window now s requests_ok
          window_ok link in
      let kept =
        allowed_within_limit R L float64 true key cfg.requests cfg.window remaining now start calls
          allowed s t mono later accounts answer in
      rw answer (allowed, remaining, refl, kept.0, kept.1)

  -- With a configuration that passes Validate and limits requests, a request under /api/ or /ws/, with
  -- a Redis that is enabled and answers, is counted. Where the calls of its key so far are accounted
  -- for and time has not gone back, this one is accounted for as well, and it goes on only if in the
  -- window that ends now there are, with it, at most as many calls as the configured limit.
  pub rate_limit-Within :
      {Float : Type 0} (A : Addresses) (c : Config Float) (ip full_path url_path : String)
      (now start : ℕ) (calls : List ℕ) (s : R.State)
      → validate A c ≡ none
      → c.rate_limit.enabled ≡ true
      → should_skip_rate_limit url_path ≡ false
      → R.link s ≡ delivered
      → ((a b : ℕ) → a ≤ b → float64 a ≤ float64 b)
      → start ≤ now - pos_part c.rate_limit.window
      → Accounts R L float64 (key_of ip full_path url_path) start calls s
      → Within c.rate_limit
          (key_of ip full_path url_path)
          now
          calls
          (rate_limit R float64 (some true) c.rate_limit ip full_path url_path now s)
  rate_limit-Within A c ip full_path url_path now start calls s h on seen link mono later accounts =
      rw
        (rate_limit-asks c.rate_limit ip full_path url_path now s on (requests_positive A c h on)
          (window_positive A c h on) seen)
        (limited-Within c.rate_limit (key_of ip full_path url_path) now start calls s mono later
          accounts (requests_positive A c h on) (window_positive A c h on) link)
