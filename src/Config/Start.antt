-- ===== src/Config/Start.antt =====
-- server-web/main.go and alert-service/main.go: the parts of initApp that use the configuration once it
-- is valid.
pub mod Accepted
use server_monitor.Base.{
  ℕ, ◌≤◌, ◌*◌, String, len, ◌≡◌, refl, Bool, true, false, not, ◌&&◌, ◌||◌, ◌⊎◌, inl, inr, Option,
  none, some, List, [], ◌∷◌, ◌==◌, ltb, leb, if◌then◌else◌, arith, Bool-cases,
}
use server_monitor.Base.Int.{ℤ, pos, negsuc, pos_part, neg_part, leb_ℤ}
use server_monitor.Base.Text.{trim_space}
use server_monitor.Errors.{GoError, message, Result, ok, err}
use server_monitor.Auth.Token.{TokenManager, new_token_manager}
use server_monitor.Auth.Accounts.{
  Users, Passwords, AuthError, Outcome, success, failure, ensure_initial_admin,
}
use server_monitor.AlertService.Consumer.{check_consumer_args}
use server_monitor.Config.Env.{times, wrap_int64}
use server_monitor.Config.Addresses.{
  Addresses, first_error, refuse_if, when, first_error-check_at, refuse_if-none, when-none,
}
use server_monitor.Config.Web
use server_monitor.Config.Consumer

-- How initAuthService ends: without a service, with one, or with an error of NewService or of
-- EnsureInitialAdmin.
pub data AuthInit : Type 0 where
  no_service : AuthInit
  service_ready : TokenManager → AuthInit
  init_failed : GoError → AuthInit
  setup_failed : AuthError → AuthInit

-- NewService of server-web/auth/service.go, given whether there is a database.
unfoldable pub new_service : Bool → String → ℤ → Result TokenManager
new_service has_db secret ttl =
    if not has_db then err (message "auth service unavailable") else new_token_manager secret ttl

after_setup : {S : Type 0} → TokenManager → Outcome Bool × S → AuthInit × S
after_setup tokens (success created, t) = (service_ready tokens, t)
after_setup tokens (failure e, t) = (setup_failed e, t)

module _ (U : Users) (P : Passwords) where
  after_service : Result TokenManager → String → U.State → AuthInit × U.State
  unfolding after_setup
  after_service (err e) admin_password s = (init_failed e, s)
  after_service (ok tokens) admin_password s =
      after_setup tokens (ensure_initial_admin U P admin_password s)

  unfoldable pub init_auth_service :
      {Float : Type 0} → Bool → Web.Config Float → U.State → AuthInit × U.State
  unfolding after_service new_service times
  init_auth_service has_mysql c s =
      if has_mysql && leb 32 (len (trim_space c.jwt_secret))
      then after_service
          (new_service has_mysql c.jwt_secret (times c.jwt_expire_hours 3600000000000))
          c.admin_password s
      else (no_service, s)
