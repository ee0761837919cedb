-- ===== src/Config/Web/Checked.antt =====
-- What a configuration of server-web that passes Validate keeps.
use server_monitor.Base.{len, ◌≡◌, Bool, true, false, none, ltb, ◌&&◌}
use server_monitor.Base.Int.{pos, leb_ℤ}
use server_monitor.Base.Text.{trim_space}
use server_monitor.Config.Addresses.{Addresses, first_error-check_at, refuse_if-none, when-none}
use server_monitor.Config.Web.{Config, checks, validate}

module _ {Float : Type 0} (A : Addresses) (c : Config Float) (h : validate A c ≡ none) where
  pub secret_long : c.auth_enabled ≡ true → ltb (len (trim_space c.jwt_secret)) 32 ≡ false
  unfolding validate checks
  secret_long on = dropped _ _ on (refuse_if-none _ _ (first_error-check_at 0 (checks A c) h))
    where
      dropped : (a b : Bool) → a ≡ true → a && b ≡ false → b ≡ false
      dropped true b p q = q
      dropped false b p q = absurd cc

  pub hours_positive : leb_ℤ c.jwt_expire_hours (pos 0) ≡ false
  unfolding validate checks
  hours_positive = refuse_if-none _ _ (first_error-check_at 12 (checks A c) h)

  pub requests_positive : c.rate_limit.enabled ≡ true → leb_ℤ c.rate_limit.requests (pos 0) ≡ false
  unfolding validate checks
  requests_positive on =
      refuse_if-none _ _ (when-none _ _ (first_error-check_at 13 (checks A c) h) on)

  pub window_positive : c.rate_limit.enabled ≡ true → leb_ℤ c.rate_limit.window (pos 0) ≡ false
  unfolding validate checks
  window_positive on =
      refuse_if-none _ _ (when-none _ _ (first_error-check_at 14 (checks A c) h) on)
